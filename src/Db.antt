-- ===== src/Db.antt =====
-- How the services of server/internal talk to the database: a handler is a function on the tables
-- and on the failures that are still to come. Every statement may fail, by a broken connection
-- (`faults`) or a violated constraint. A failed statement aborts the transaction that it stands in:
-- what follows fails too, and so does the commit. A transaction that does not commit leaves the
-- tables as they were (`defer tx.Rollback(ctx)`). These are the documented rules of PostgreSQL and
-- of the driver pgx.
pub mod Triple
use family_ledger.Base.{
  ⊤, Bool, true, false, Option, none, some, List, [], ◌∷◌, ◌||◌, if◌then◌else◌,
}

-- The gRPC status codes that the handlers answer with. An error without a code is `unknown`.
pub data Code : Type 0 where
  internal invalid_argument not_found permission_denied : Code
  failed_precondition already_exists unauthenticated unknown : Code

pub data Result {ℓ} (A : Type ℓ) : Type ℓ where
  ok : A → Result A
  err : Code → Result A

pub data Session : Type 0 where
  idle in_transaction aborted : Session

pub record World (S : Type 0) : Type 0 where
  pub store : S
  pub session : Session
  -- for each statement to come, whether the database fails to run it
  pub faults : List Bool

abbrev pub M : Type 0 → Type 0 → Type 0
M S A = World S → Result A × World S

-- What a statement comes to: an error, no row, or a result and the new tables.
pub data Outcome (S A : Type 0) : Type 0 where
  violates no_match : Outcome S A
  done : A → S → Outcome S A

abbrev pub first_fault : List Bool → Bool
first_fault [] = false
first_fault (f ∷ _) = f

abbrev pub later_faults : List Bool → List Bool
later_faults [] = []
later_faults (_ ∷ fs) = fs

abbrev pub abort : Session → Session
abort in_transaction = aborted
abort s = s

abbrev pub is_aborted : Session → Bool
is_aborted aborted = true
is_aborted _ = false

module _ {S : Type 0} where
  abbrev pub next_fault : World S → World S
  next_fault w = record w { faults = later_faults w.faults }

  abbrev pub fail : World S → World S
  fail w = record w { session = abort w.session }

  -- Leaves the transaction, with the given tables.
  abbrev pub leave : S → World S → World S
  leave s w = record w { store = s; session = idle }

module _ {S A : Type 0} where
  unfoldable pub pure : A → M S A
  pure a w = (ok a, w)

  unfoldable pub raise : Code → M S A
  raise c w = (err c, w)

  abbrev pub settle_outcome : Outcome S A → Code → Code → M S A
  settle_outcome violates failed missing w = (err failed, fail w)
  settle_outcome no_match failed missing w = (err missing, w)
  settle_outcome (done a s) failed missing w = (ok a, record w { store = s })

  -- One statement, with the codes of the answer where it fails and where it finds no row.
  unfoldable pub statement : (S → Outcome S A) → Code → Code → M S A
  statement f failed missing w =
      if is_aborted w.session
      then (err failed, w)
      else if first_fault w.faults
      then (err failed, fail (next_fault w))
      else settle_outcome (f w.store) failed missing (next_fault w)

  -- `tx, err := pool.Begin(ctx)`, `defer tx.Rollback(ctx)`, the body, and `tx.Commit(ctx)`, with the
  -- code of the answer where the commit fails
  abbrev pub finish : Code → S → Result A → M S A
  finish code before (err c) w = (err c, leave before w)
  finish code before (ok a) w =
      if is_aborted w.session || first_fault w.faults
      then (err code, leave before (next_fault w))
      else (ok a, leave w.store (next_fault w))

  unfoldable pub atomically_with : Code → M S A → M S A
  atomically_with code body w =
      if first_fault w.faults
      then (err internal, next_fault w)
      else let (r, w') = body (record (next_fault w) { session = in_transaction }) in
        finish code w.store r w'

  unfoldable pub atomically : M S A → M S A
  unfolding atomically_with
  atomically body = atomically_with internal body

  -- An error that the code logs and goes on after.
  abbrev pub pass_over : A → Result A → M S A
  pass_over a (ok b) w = (ok b, w)
  pass_over a (err _) w = (ok a, w)

  unfoldable pub ignore_error : A → M S A → M S A
  ignore_error a m w = let (r, w') = m w in pass_over a r w'

-- The rest of a handler: after an error it is not run.
abbrev pub continue_with : {S A B : Type 0} → (A → M S B) → Result A → M S B
continue_with f (ok a) w = f a w
continue_with f (err c) w = (err c, w)

-- `if err := m; err != nil { return code }`, whatever the error was
abbrev pub recode : {S A : Type 0} → Code → Result A → M S A
recode code (ok a) w = (ok a, w)
recode code (err _) w = (err code, w)

unfoldable pub with_code : {S A : Type 0} → Code → M S A → M S A
with_code code m w = let (r, w') = m w in recode code r w'

infixl 5 ◌>>=◌ ◌>>◌
unfoldable pub ◌>>=◌ : {S A B : Type 0} → M S A → (A → M S B) → M S B
◌>>=◌ m f w = let (r, w') = m w in continue_with f r w'

unfoldable pub ◌>>◌ : {S A B : Type 0} → M S A → M S B → M S B
unfolding ◌>>=◌
m >> k = m >>= λ _. k

module _ {S A : Type 0} where
  abbrev pub row : Option A → S → Outcome S A
  row none s = no_match
  row (some a) s = done a s

  abbrev pub read : (S → Option A) → S → Outcome S A
  read q s = row (q s) s

  -- a `SELECT` of one row
  unfoldable pub query : (S → Option A) → Code → M S A
  unfolding statement
  query q missing = statement (read q) internal missing

module _ {S : Type 0} where
  -- a statement without a result, which cannot violate a constraint
  unfoldable pub exec : (S → S) → M S ⊤
  unfolding statement
  exec f = statement (λ s. done tt (f s)) internal internal

  -- `if c { return error }`
  unfoldable pub raise_if : Bool → Code → M S ⊤
  raise_if c code w = (if c then err code else ok tt, w)

module _ {S A : Type 0} where
  unfoldable pub or_raise : Option A → Code → M S A
  or_raise none code w = (err code, w)
  or_raise (some a) code w = (ok a, w)
