-- ===== src/Endpoints/Peek.antt =====
-- The head of a record that parses.
use knievel.Base.{nat_eq, int_eq, text_eq, ℕ, ◌≡◌, some, List, [], ◌∷◌, arith}
use knievel.Hmac.{SignaturePayload, unpack_record, fields_at}
use knievel.Endpoints.{project_id_of}

pub unpack-project_id :
    (bytes : List ℕ) (p : SignaturePayload)
    → unpack_record bytes ≡ some p
    → project_id_of bytes ≡ some p.project_id
unfolding unpack_record project_id_of fields_at
unpack-project_id [] p h = cc
unpack-project_id (pid_len ∷ rest) p h = ground arith
