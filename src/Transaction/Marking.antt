-- ===== src/Transaction/Marking.antt =====
-- Which rows BatchDeleteTransactions (server/internal/transaction/service.go) marks as deleted, said
-- row by row.
use family_ledger.Transaction.Change.{mark_deleted}
use family_ledger.Base.{
  ℕ, suc, ◌≡◌, ◌⊎◌, inl, inr, refl, ap, sym, Bool, true, false, List, [], ◌∷◌, ◌&&◌, not, arith,
  if◌then◌else◌, Bool-cases,
}
use family_ledger.Base.Lists.{length}
use family_ledger.Store.{Transaction}
use family_ledger.Transaction.Rows.{All}
use family_ledger.Transaction.Batch.{live_among, is_id, ids_of, delete_rows_of}

-- The number is one of the list.
abbrev pub IsAmong : ℕ → List ℕ → Type 0
IsAmong i [] = ⊥
IsAmong i (n ∷ l) = (n ≡ i) ⊎ IsAmong i l

-- Rows before and after, and how many have been marked: the live rows among the ids are marked as
-- deleted, each of which the property allows, and all others stay.
pub data Marks (P : Transaction → Type 0) (txn_ids : List ℕ)
    : List Transaction → List Transaction → ℕ → Type 0 where
  done : Marks P txn_ids [] [] 0
  marked :
      {l l' : List Transaction} {n : ℕ} (t : Transaction)
      → IsAmong t.id txn_ids
      → t.deleted ≡ false
      → P t
      → Marks P txn_ids l l' n
      → Marks P txn_ids (t ∷ l) (record t { deleted = true } ∷ l') (suc n)
  left :
      {l l' : List Transaction} {n : ℕ} (t : Transaction)
      → (¬ (IsAmong t.id txn_ids)) ⊎ (t.deleted ≡ true)
      → Marks P txn_ids l l' n
      → Marks P txn_ids (t ∷ l) (t ∷ l') n

among_lem : (i : ℕ) (l : List ℕ) → is_id i l ≡ true → IsAmong i l
among_lem i [] e = cc
among_lem i (n ∷ l) e = ground (arith, e, among_lem i l)

not_among_lem : (i : ℕ) (l : List ℕ) → is_id i l ≡ false → ¬ (IsAmong i l)
not_among_lem i [] e a = a
not_among_lem i (n ∷ l) e a = ground (arith, e, a, not_among_lem i l)

-- The ids of the rows that were found are among those asked for.
found_among :
    (i : ℕ) (txn_ids : List ℕ) (l : List Transaction)
    → is_id i (ids_of (live_among txn_ids l)) ≡ true
    → is_id i txn_ids ≡ true
unfolding live_among
found_among i txn_ids [] e = absurd (ground (arith, e))
found_among i txn_ids (t ∷ l) e = ground (arith, e, found_among i txn_ids l)

-- Ids of rows that a part of the table has, the whole has.
abbrev Within : List ℕ → List ℕ → Type 0
Within a b = (i : ℕ) → is_id i a ≡ true → is_id i b ≡ true

tail-Within :
    (t : Transaction) (txn_ids found : List ℕ) (l : List Transaction)
    → Within (ids_of (live_among txn_ids (t ∷ l))) found
    → Within (ids_of (live_among txn_ids l)) found
unfolding live_among
tail-Within t txn_ids found l h i e = elim (Bool-cases (is_id t.id txn_ids && not t.deleted)) [
  | inl is ↦ h i (rw is (ground (arith, e)))
  | inr other ↦ h i (rw other e)
]

head-Within :
    (t : Transaction) (txn_ids found : List ℕ) (l : List Transaction)
    → Within (ids_of (live_among txn_ids (t ∷ l))) found
    → is_id t.id txn_ids ≡ true
    → t.deleted ≡ false
    → is_id t.id found ≡ true
unfolding live_among
head-Within t txn_ids found l h e d = h t.id (rw (e, d) (ground arith))

module _ (P : Transaction → Type 0) (txn_ids found : List ℕ)
    (known : (i : ℕ) → is_id i found ≡ true → is_id i txn_ids ≡ true) where
  delete-Marks :
      (l : List Transaction)
      → Within (ids_of (live_among txn_ids l)) found
      → All P (live_among txn_ids l)
      → Marks P txn_ids l (delete_rows_of found l) (length (live_among txn_ids l))
  unfolding live_among delete_rows_of
  delete-Marks [] h a = done
  delete-Marks (t ∷ l) h a = elim (Bool-cases (is_id t.id txn_ids && not t.deleted)) [
    | inl is ↦
        let here = and_true is in
        rw (is, head-Within t txn_ids found l h here.0 here.1)
          (marked t (among_lem t.id txn_ids here.0) here.1 (rw is at a).0
            (delete-Marks l (tail-Within t txn_ids found l h) (rw is at a).1))
    | inr other ↦
        rw (other, unmarked t other)
          (left t (why t other) (delete-Marks l (tail-Within t txn_ids found l h) (rw other at a)))
  ]
    where
      and_true : {b d : Bool} → b && not d ≡ true → (b ≡ true) × (d ≡ false)
      and_true {b} {d} e = ground (arith, e)

      why :
          (t : Transaction)
          → is_id t.id txn_ids && not t.deleted ≡ false
          → (¬ (IsAmong t.id txn_ids)) ⊎ (t.deleted ≡ true)
      why t e = elim (Bool-cases (is_id t.id txn_ids)) [
        | inl is ↦ inr (ground (arith, is, e))
        | inr out ↦ inl (not_among_lem t.id txn_ids out)
      ]

      gone : {b d : Bool} → b ≡ true → b && not d ≡ false → d ≡ true
      gone {b} {d} k e = ground (arith, k, e)

      unmarked :
          (t : Transaction)
          → is_id t.id txn_ids && not t.deleted ≡ false
          → (if is_id t.id found then mark_deleted t else t) ≡ t
      unmarked t e = elim (Bool-cases (is_id t.id found)) [
        | inl is ↦ rw is (sym (ap (λ b. record t { deleted = b }) (gone (known t.id is) e)))
        | inr out ↦ rw out refl
      ]

pub delete_rows_of-Marks :
    (P : Transaction → Type 0) (txn_ids : List ℕ) (l : List Transaction)
    → All P (live_among txn_ids l)
    → Marks P txn_ids l
        (delete_rows_of (ids_of (live_among txn_ids l)) l)
        (length (live_among txn_ids l))
delete_rows_of-Marks P txn_ids l a =
    delete-Marks P txn_ids (ids_of (live_among txn_ids l)) (λ i e. found_among i txn_ids l e) l
      (λ i e. e) a
