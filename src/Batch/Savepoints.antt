-- ===== src/Batch/Savepoints.antt =====
-- src/batch.rs: `run_batch_with_savepoints`, on a transaction of PostgreSQL: its data, whether an
-- error has aborted it, and its savepoints. The work of a row and the server's failures are
-- parameters.
pub mod Laws
use knievel.Base.{
  if◌then◌else◌, nat_eq, ◌==◌, int_eq, Text, text, text_eq, ℕ, suc, Bool, true, false, Option, none,
  some, List, [], ◌∷◌, ◌++◌,
}
use knievel.Base.Result.{Result, ok, err}
use knievel.Partitions.{decimal}

pub record Session (S : Type 0) : Type 0 where
  pub data_of : S
  pub is_aborted : Bool
  pub savepoints : List (Text × S)

pub data Statement : Type 0 where
  savepoint release rollback_to : Statement

-- `knievel_batch_row_{idx}`
unfoldable pub savepoint_name : ℕ → Text
savepoint_name idx = text "knievel_batch_row_" ++ decimal 20 idx

module _ {S : Type 0} where
  -- The newest savepoint of the name, with those below it.
  unfoldable pub newest_of : Text → List (Text × S) → Option (S × List (Text × S))
  newest_of name [] = none
  newest_of name ((n, s) ∷ rest) = if n == name then some (s, rest) else newest_of name rest

  -- What a statement makes of a transaction; `none` is an error.
  unfoldable pub effect_of : Statement → Text → Session S → Option (Session S)
  effect_of savepoint name tx =
      if tx.is_aborted
      then none
      else some (record tx { savepoints = (name, tx.data_of) ∷ tx.savepoints })
  effect_of release name tx = if tx.is_aborted then none else elim (newest_of name tx.savepoints) [
    | none ↦ none
    | some (s, rest) ↦ some (record tx { savepoints = rest })
  ]
  effect_of rollback_to name tx = elim (newest_of name tx.savepoints) [
    | none ↦ none
    | some (s, rest) ↦
        some (record { data_of = s; is_aborted = false; savepoints = (name, s) ∷ rest })
  ]

module _ {S R T E : Type 0} (error_of : ℕ → Statement → Option E) (refused : E)
    (per_row : Session S → ℕ → R → Result E T × Session S) where
  -- An error, of the server or by the statement's effect, aborts the transaction.
  unfoldable pub execute_at : ℕ → Statement → Session S → Result E Unit × Session S
  execute_at idx statement tx = elim (error_of idx statement) [
    | some e ↦ (err e, record tx { is_aborted = true })
    | none ↦ elim (effect_of statement (savepoint_name idx) tx) [
      | none ↦ (err refused, record tx { is_aborted = true })
      | some tx' ↦ (ok tt, tx')
    ]
  ]

  -- An error of a statement is the outcome of the row: `continue`.
  abbrev pub unless_err :
      Result E Unit × Session S → (Session S → Result E T × Session S) → Result E T × Session S
  unless_err (err e, tx) go = (err e, tx)
  unless_err (ok _, tx) go = go tx

  -- The end of a row, with its outcome.
  unfoldable pub finish_row : ℕ → Result E T → Session S → Result E T × Session S
  finish_row idx outcome tx = unless_err (execute_at idx release tx) (λ tx'. (outcome, tx'))

  unfoldable pub settle_row : ℕ → Result E T × Session S → Result E T × Session S
  settle_row idx (ok t, tx) = finish_row idx (ok t) tx
  settle_row idx (err e, tx) =
      unless_err (execute_at idx rollback_to tx) (λ tx'. finish_row idx (err e) tx')

  unfoldable pub run_row : ℕ → R → Session S → Result E T × Session S
  run_row idx row tx =
      unless_err (execute_at idx savepoint tx) (λ tx'. settle_row idx (per_row tx' idx row))

  unfoldable pub run_rows : ℕ → List R → Session S → List (Result E T) × Session S
  run_rows idx [] tx = ([], tx)
  run_rows idx (row ∷ rows) tx =
      let (outcome, tx1) = run_row idx row tx in
      let (outcomes, tx2) = run_rows (suc idx) rows tx1 in (outcome ∷ outcomes, tx2)

  unfoldable pub run_batch_with_savepoints : List R → Session S → List (Result E T) × Session S
  run_batch_with_savepoints rows tx = run_rows 0 rows tx
