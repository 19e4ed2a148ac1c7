-- ===== src/Db/Triple.antt =====
-- Pre- and postconditions of handlers, with one rule for each way of building them.
use family_ledger.Base.{⊤, ◌≡◌, refl, Bool, true, false, Option, none, some, arith, if◌then◌else◌}
use family_ledger.Db.{
  Code, internal, Result, ok, err, World, M, Outcome, violates, no_match, done, next_fault,
  in_transaction, later_faults, finish, pure, raise, statement, atomically, atomically_with,
  internal, ignore_error, ◌>>=◌, ◌>>◌, query, exec, raise_if, or_raise, read, row, settle_outcome,
  continue_with, recode, with_code, pass_over,
}

-- `Q` of the result and the tables where the handler succeeds, `E` of the tables where it fails.
abbrev pub Post : {S A : Type 0} → (A → S → Type 0) → (S → Type 0) → Result A → S → Type 0
Post Q E (ok a) s = Q a s
Post Q E (err c) s = E s

-- What follows from both a success and a failure follows.
pub Post-elim :
    {S A C : Type 0} (Q : A → S → Type 0) (E : S → Type 0) (r : Result A) (s : S)
    → ((a : A) → Q a s → C)
    → (E s → C)
    → Post Q E r s
    → C
Post-elim Q E (ok a) s f g p = f a p
Post-elim Q E (err c) s f g p = g p

pub record Triple {S A : Type 0} (P : S → Type 0) (m : M S A) (Q : A → S → Type 0) (E : S → Type 0)
    : Type 0 where
  pub run : (w : World S) → P w.store → Post Q E (m w).0 (m w).1.store

abbrev pub PostOutcome : {S A : Type 0} → (A → S → Type 0) → Outcome S A → Type 0
PostOutcome Q violates = ⊤
PostOutcome Q no_match = ⊤
PostOutcome Q (done a s) = Q a s

settle-Post :
    {S A : Type 0} (Q : A → S → Type 0) (E : S → Type 0) (o : Outcome S A) (failed missing : Code)
    (w : World S)
    → PostOutcome Q o
    → E w.store
    → Post Q E (settle_outcome o failed missing w).0 (settle_outcome o failed missing w).1.store
settle-Post Q E violates failed missing w q e = e
settle-Post Q E no_match failed missing w q e = e
settle-Post Q E (done a s) failed missing w q e = q

module _ {S A : Type 0} {P : S → Type 0} {Q : A → S → Type 0} {E : S → Type 0} where
  pub pure-Triple : (a : A) → ((s : S) → P s → Q a s) → Triple P (pure a) Q E
  unfolding pure
  pure-Triple a h = record { run = λ w p. h w.store p }

  pub raise-Triple : (c : Code) → ((s : S) → P s → E s) → Triple P (raise c) Q E
  unfolding raise
  raise-Triple c h = record { run = λ w p. h w.store p }

  pub statement-Triple :
      (f : S → Outcome S A) (failed missing : Code)
      → ((s : S) → P s → PostOutcome Q (f s))
      → ((s : S) → P s → E s)
      → Triple P (statement f failed missing) Q E
  unfolding statement
  statement-Triple f failed missing h e = record {
    run = λ w p. ground (
      arith,
      settle-Post Q E (f w.store) failed missing (next_fault w) (h w.store p) (e w.store p),
      e w.store p,
    );
  }

module _ {S A B : Type 0} {R : A → S → Type 0} {Q : B → S → Type 0} {E : S → Type 0} where
  bind-Post :
      (f : A → M S B) (r : Result A) (w : World S)
      → ((a : A) → Triple (R a) (f a) Q E)
      → Post R E r w.store
      → let (r', w') = continue_with f r w in Post Q E r' w'.store
  bind-Post f (ok a) w h p = (h a).run w p
  bind-Post f (err c) w h p = p

module _ {S A B : Type 0} {P : S → Type 0} {R : A → S → Type 0} {Q : B → S → Type 0}
    {E : S → Type 0} where
  pub bind-Triple :
      {m : M S A} {f : A → M S B}
      → Triple P m R E
      → ((a : A) → Triple (R a) (f a) Q E)
      → Triple P (m >>= f) Q E
  unfolding ◌>>=◌
  bind-Triple {m} {f} h k = record { run = λ w p. bind-Post f (m w).0 (m w).1 k (h.run w p) }

  pub then-Triple :
      {m : M S A} {k : M S B}
      → Triple P m R E
      → ((a : A) → Triple (R a) k Q E)
      → Triple P (m >> k) Q E
  unfolding ◌>>◌
  then-Triple {m} {k} h g = record { run = λ w p. bind-Post (λ _. k) (m w).0 (m w).1 g (h.run w p) }

module _ {S A : Type 0} {P : S → Type 0} {E : S → Type 0} (stays : (s : S) → P s → E s) where
  -- A row that is read is what the query gives on the tables.
  pub read-Triple :
      (q : S → Option A) (failed missing : Code)
      → Triple P (statement (read q) failed missing) (λ a s. P s × (q s ≡ some a)) E
  read-Triple q failed missing =
      statement-Triple (read q) failed missing (λ s p. found s p (q s) refl) stays
    where
      found :
          (s : S)
          → P s
          → (o : Option A) → q s ≡ o
          → PostOutcome (λ a s. P s × (q s ≡ some a)) (row o s)
      found s p none e = tt
      found s p (some a) e = (p, e)

  pub query-Triple :
      (q : S → Option A) (missing : Code)
      → Triple P (query q missing) (λ a s. P s × (q s ≡ some a)) E
  unfolding query
  query-Triple q missing = read-Triple q internal missing

  pub or_raise-Triple :
      (o : Option A) (code : Code) → Triple P (or_raise o code) (λ a s. P s × (o ≡ some a)) E
  unfolding or_raise
  or_raise-Triple none code = record { run = λ w p. stays w.store p }
  or_raise-Triple (some a) code = record { run = λ w p. (p, refl) }

module _ {S : Type 0} {P : S → Type 0} {E : S → Type 0} (stays : (s : S) → P s → E s) where
  pub raise_if-Triple :
      (c : Bool) (code : Code) → Triple P (raise_if c code) (λ _ s. P s × (c ≡ false)) E
  unfolding raise_if
  raise_if-Triple true code = record { run = λ w p. stays w.store p }
  raise_if-Triple false code = record { run = λ w p. (p, refl) }

  pub exec-Triple :
      (f : S → S) (Q : ⊤ → S → Type 0) → ((s : S) → P s → Q tt (f s)) → Triple P (exec f) Q E
  unfolding exec
  exec-Triple f Q h = statement-Triple (λ s. done tt (f s)) internal internal h stays

finish-Post :
    {S A : Type 0} (Q : A → S → Type 0) (E E' : S → Type 0) (code : Code) (before : S)
    (r : Result A) (w : World S)
    → E before
    → Post Q E' r w.store
    → Post Q E (finish code before r w).0 (finish code before r w).1.store
finish-Post Q E E' code before (ok a) w e p = ground arith
finish-Post Q E E' code before (err c) w e p = e

module _ {S A : Type 0} {P : S → Type 0} {Q : A → S → Type 0} {E E' : S → Type 0} where
  -- A failure inside a transaction leaves the tables as they were before it.
  pub atomically_with-Triple :
      {m : M S A} (code : Code)
      → ((s : S) → P s → E s)
      → Triple P m Q E'
      → Triple P (atomically_with code m) Q E
  unfolding atomically_with
  atomically_with-Triple {m} code stays h = record {
    run = λ w p. ground (
      arith,
      stays w.store p,
      finish-Post Q E E' code w.store
          (m (record w { session = in_transaction; faults = later_faults w.faults })).0
          (m (record w { session = in_transaction; faults = later_faults w.faults })).1
          (stays w.store p)
          (h.run (record w { session = in_transaction; faults = later_faults w.faults }) p),
    );
  }

  pub atomically-Triple :
      {m : M S A} → ((s : S) → P s → E s) → Triple P m Q E' → Triple P (atomically m) Q E
  unfolding atomically
  atomically-Triple stays h = atomically_with-Triple internal stays h

module _ {S A : Type 0} {P : S → Type 0} {Q : A → S → Type 0} {E : S → Type 0} where
  pub if-Triple :
      (b : Bool) {x y : M S A}
      → (b ≡ true → Triple P x Q E)
      → (b ≡ false → Triple P y Q E)
      → Triple P (if b then x else y) Q E
  if-Triple true h k = h refl
  if-Triple false h k = k refl

  -- A weaker postcondition.
  pub weaken-Triple :
      {m : M S A} {R : A → S → Type 0}
      → Triple P m R E
      → ((a : A) (s : S) → R a s → Q a s)
      → Triple P m Q E
  weaken-Triple {m} {R} h k = record {
    run = λ w p. weaken-Post (m w).0 (m w).1.store k (h.run w p);
  }
    where
      weaken-Post :
          (r : Result A) (s : S) → ((a : A) (s : S) → R a s → Q a s) → Post R E r s → Post Q E r s
      weaken-Post (ok a) s k p = k a s p
      weaken-Post (err c) s k p = p

  pub with_code-Triple :
      {m : M S A} (code : Code) → Triple P m Q E → Triple P (with_code code m) Q E
  unfolding with_code
  with_code-Triple {m} code h = record { run = λ w p. recode-Post (m w).0 (m w).1 (h.run w p) }
    where
      recode-Post :
          (r : Result A) (w : World S)
          → Post Q E r w.store
          → let (r', w') = recode code r w in Post Q E r' w'.store
      recode-Post (ok a) w p = p
      recode-Post (err c) w p = p

module _ {S A : Type 0} {P : S → Type 0} {E : S → Type 0} (stays : (s : S) → P s → E s) where
  -- A statement that succeeds gives what it says of the tables that it met.
  pub done-Triple :
      (f : S → Outcome S A) (failed missing : Code)
      → Triple P (statement f failed missing) (λ a s. (s' : S) × P s' × (f s' ≡ done a s)) E
  done-Triple f failed missing = statement-Triple f failed missing (λ s p. met s p (f s) refl) stays
    where
      met :
          (s : S)
          → P s
          → (o : Outcome S A) → f s ≡ o
          → PostOutcome (λ a t. (s' : S) × P s' × (f s' ≡ done a t)) o
      met s p violates e = tt
      met s p no_match e = tt
      met s p (done a t) e = (s, p, e)

module _ {S A : Type 0} {P : S → Type 0} {Q : A → S → Type 0} {E : S → Type 0} where
  -- What the precondition says apart from the tables may be used for the rest of the handler.
  pub facts-Triple :
      {C : Type 0} {m : M S A} → ((s : S) → P s → C) → (C → Triple P m Q E) → Triple P m Q E
  facts-Triple h k = record { run = λ w p. (k (h w.store p)).run w p }

  -- A stronger precondition.
  pub strengthen-Triple :
      {P' : S → Type 0} {m : M S A} → ((s : S) → P s → P' s) → Triple P' m Q E → Triple P m Q E
  strengthen-Triple h k = record { run = λ w p. k.run w (h w.store p) }

module _ {S : Type 0} {P : S → Type 0} {E : S → Type 0} (stays : (s : S) → P s → E s) where
  -- A statement that always matches has made its change on the tables that it met.
  pub exec_eq-Triple : (f : S → S) → Triple P (exec f) (λ _ s. (s' : S) × P s' × (s ≡ f s')) E
  exec_eq-Triple f = exec-Triple stays f (λ _ s. (s' : S) × P s' × (s ≡ f s')) (λ s p. (s, p, refl))

module _ {S A : Type 0} {P E : S → Type 0} where
  -- An error that is passed over is no error, and leaves the tables with what holds after a failure.
  pub ignore_error-Triple :
      {m : M S A} (a : A) → Triple P m (λ _. P) P → Triple P (ignore_error a m) (λ _. P) E
  unfolding ignore_error
  ignore_error-Triple {m} a h = record { run = λ w p. passed (m w).0 (m w).1 (h.run w p) }
    where
      passed :
          (r : Result A) (w : World S)
          → Post (λ _. P) P r w.store
          → let (r', w') = pass_over a r w in Post (λ _. P) E r' w'.store
      passed (ok b) w p = p
      passed (err c) w p = p

module _ {S A : Type 0} {P E : S → Type 0} where
  -- A query whose error is passed over.
  pub peek-Triple :
      (a : A) (f : S → A) (failed missing : Code)
      → Triple P (ignore_error a (statement (λ s. done (f s) s) failed missing)) (λ _. P) E
  peek-Triple a f failed missing =
      ignore_error-Triple a
        (statement-Triple {Q = λ _. P} (λ s. done (f s) s) failed missing (λ s p. p) (λ s p. p))
