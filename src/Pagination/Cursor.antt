-- ===== src/Pagination/Cursor.antt =====
-- What a cursor carries from one page to the next.
use knievel.Base.{
  leb, if◌then◌else◌, Bool-cases, Option-cases, nat_eq, ◌==◌, ℤ, int_eq, length, get_elem?, Text,
  text_eq, ℕ, ◌+◌, ◌-◌, ◌≤◌, ◌<◌, ◌≡◌, refl, subst, inl, inr, not, Option, none, some, List, arith,
}
use knievel.Base.Result.{ok, err, bind-elim, ok-injective, none≢some}
use knievel.Pagination.{
  CursorState, invalid_cursor, Codec, Resolved, limit_of, encode_cursor, decode_cursor, after_of,
  resolve, next_cursor,
}

-- What is documented of the crates: decoding gives back what was encoded.
pub record IsFaithful (codec : Codec) : Type 0 where
  pub decode-encode :
      (state : CursorState)
      → codec.b64_decode (codec.b64_encode (codec.to_vec state)) ≡ some (codec.to_vec state)
  pub from-to : (state : CursorState) → codec.from_slice (codec.to_vec state) ≡ some state

pub limit_of-bounds : (limit : Option ℤ) {n : ℕ} → limit_of limit ≡ ok n → (1 ≤ n) × (n ≤ 500)
unfolding limit_of
limit_of-bounds none h = ground arith
limit_of-bounds (some m) h = ground arith

module _ (codec : Codec) where
  -- A limit that is accepted asks for 1 to 500 rows, and the query for one more.
  resolve-bounds :
      (limit : Option ℤ) (cursor : Option Text) (kind : Text) (r : Resolved)
      → resolve codec limit cursor kind ≡ ok r
      → (1 ≤ r.effective_limit)
        × (r.effective_limit ≤ 500)
        × (r.bumped_limit ≡ r.effective_limit + 1)
  unfolding resolve
  resolve-bounds limit cursor kind r h = bind-elim (limit_of limit) _ h λ n e h1.
      bind-elim (after_of codec cursor kind) _ h1 λ after f h2.
        let (low, high) = limit_of-bounds limit e in
        let same = ok-injective h2 in
        subst
          (λ (q : Resolved).
            (1 ≤ q.effective_limit)
            × (q.effective_limit ≤ 500)
            × (q.bumped_limit ≡ q.effective_limit + 1))
          same (low, high, refl)

  pub decode-encode :
      IsFaithful codec
      → (state : CursorState) (kind : Text)
      → decode_cursor codec (encode_cursor codec state) kind
        ≡ (if not (state.kind == kind) then err invalid_cursor else ok state)
  unfolding decode_cursor encode_cursor
  decode-encode w state kind = rw (w.decode-encode state) (rw (w.from-to state) refl)

  -- How the request goes on behind a page, at an endpoint of the kind `other`.
  pub record Resumes {A : Type 0} (rows : List A) (page : Resolved) (kind : Text) (id_of : A → ℤ)
      (cursor other : Text) : Type 0 where
    pub last : A
    pub at : get_elem? rows (page.effective_limit - 1) ≡ some last
    pub more : page.effective_limit < length rows
    pub resumed : resolve codec none (some cursor) other ≡ (
        if not (kind == other)
        then err invalid_cursor
        else ok (record { after_id = some (id_of last); effective_limit = 50; bumped_limit = 51 }))

  resolve-encode :
      IsFaithful codec
      → (state : CursorState) (other : Text)
      → resolve codec none (some (encode_cursor codec state)) other ≡ (
          if not (state.kind == other)
          then err invalid_cursor
          else ok
              (record { after_id = some state.last_id; effective_limit = 50; bumped_limit = 51 }))
  unfolding resolve after_of limit_of
  resolve-encode w state other =
      rw (decode-encode w state other)
        (elim (Bool-cases (state.kind == other)) [ inl e ↦ rw e refl | inr e ↦ rw e refl ])

  -- With faithful crates: a cursor is given only when there are more rows than the page holds. It
  -- resumes behind the page's last row at an endpoint of the same kind, and every other kind refuses it.
  pub next_cursor-Resumes :
      IsFaithful codec
      → {A : Type 0} (rows : List A) (page : Resolved) (kind : Text) (id_of : A → ℤ)
        (cursor other : Text)
      → next_cursor codec rows page kind id_of ≡ some cursor
      → Resumes rows page kind id_of cursor other
  unfolding next_cursor
  next_cursor-Resumes w rows page kind id_of cursor other h =
      elim (Bool-cases (leb (length rows) page.effective_limit)) [
        | inl e ↦ none≢some (rw (e, next_cursor) at h)
        | inr e ↦
            let h1 = rw (e, next_cursor) at h in
            elim (Option-cases (get_elem? rows (page.effective_limit - 1))) [
              | inl f ↦ none≢some (rw f at h1)
              | inr (last, f) ↦
                  let state : CursorState = record { kind = kind; last_id = id_of last } in
                  let same : some (encode_cursor codec state) ≡ some cursor = rw f at h1 in
                  let c : encode_cursor codec state ≡ cursor = cc in
                  record {
                    last = last;
                    at = f;
                    more = ground (arith, e);
                    resumed =
                        subst
                          (λ raw. resolve codec none (some raw) other ≡ (
                            if not (kind == other)
                            then err invalid_cursor
                            else ok (record {
                              after_id = some (id_of last);
                              effective_limit = 50;
                              bumped_limit = 51;
                            })))
                          c (resolve-encode w state other);
                  }
            ]
      ]
