-- ===== src/Loan/Schedule/Sums.antt =====
-- What every schedule of `generateSchedule` (server/internal/loan/service.go) adds up to.
use family_ledger.Base.{ℕ, zero, suc, ◌+◌, ◌≤◌, ◌≡◌, refl, ap, ◌∙◌, ⊤, List, [], ◌∷◌, arith}
use family_ledger.Base.Lists.{length}
use family_ledger.Base.Int.{ℤ, pos}
use family_ledger.Base.Int64.{
  ◌+64◌, ◌-64◌, InRange, +64_zero, zero_+64, +64-rest, +64-sub_cancel, -64-+64_cancel, -64_InRange,
}
use family_ledger.Loan.Float.{Float}
use family_ledger.Loan.Calendar.{Time}
use family_ledger.Loan.Schedule.{
  ScheduleItem, CalcMethod, zero_last, equal_installment_loop, equal_principal_loop,
  interest_only_loop, bullet_loop, equal_interest_loop,
}

-- The principal that the items repay, in int64 arithmetic.
abbrev pub sum_principal : List ScheduleItem → ℤ
sum_principal [] = pos 0
sum_principal (x ∷ xs) = x.principal_part +64 sum_principal xs

-- The principal left after the last item, and `rest` if there is none.
abbrev pub last_remaining : ℤ → List ScheduleItem → ℤ
last_remaining rest [] = rest
last_remaining rest (x ∷ xs) = last_remaining x.remaining_principal xs

-- Every payment is its principal part and its interest.
abbrev pub IsSplit : List ScheduleItem → Type 0
IsSplit [] = ⊤
IsSplit (x ∷ xs) = (x.payment ≡ x.principal_part +64 x.interest_part) × IsSplit xs

-- A schedule of `n` items that repays `principal`.
pub record Repays (principal : ℤ) (n : ℕ) (items : List ScheduleItem) : Type 0 where
  pub count : length items ≡ n
  pub repaid : sum_principal items ≡ principal
  pub cleared : last_remaining principal items ≡ pos 0
  pub split : IsSplit items

pub zero_last-length : (items : List ScheduleItem) → length (zero_last items) ≡ length items
unfolding zero_last
zero_last-length [] = refl
zero_last-length (x ∷ []) = refl
zero_last-length (x ∷ y ∷ xs) = ground (arith, zero_last-length (y ∷ xs))

pub zero_last-sum :
    (items : List ScheduleItem) → sum_principal (zero_last items) ≡ sum_principal items
unfolding zero_last
zero_last-sum [] = refl
zero_last-sum (x ∷ []) = refl
zero_last-sum (x ∷ y ∷ xs) = ground (arith, zero_last-sum (y ∷ xs))

pub zero_last-cleared :
    (rest : ℤ) (items : List ScheduleItem)
    → 1 ≤ length items
    → last_remaining rest (zero_last items) ≡ pos 0
unfolding zero_last
zero_last-cleared rest [] h = absurd (omega arith)
zero_last-cleared rest (x ∷ []) h = refl
zero_last-cleared rest (x ∷ y ∷ xs) h =
    zero_last-cleared x.remaining_principal (y ∷ xs) (omega arith)

pub zero_last-IsSplit : (items : List ScheduleItem) → IsSplit items → IsSplit (zero_last items)
unfolding zero_last
zero_last-IsSplit [] h = tt
zero_last-IsSplit (x ∷ []) h = h
zero_last-IsSplit (x ∷ y ∷ xs) h = (h.0, zero_last-IsSplit (y ∷ xs) h.1)

-- What the items from some round on have to repay: `rest`, in `left` items.
pub record RepaysRest (rest : ℤ) (left : ℕ) (items : List ScheduleItem) : Type 0 where
  pub count : length items ≡ left
  pub repaid : 1 ≤ left → sum_principal items ≡ rest
  pub split : IsSplit items

RepaysRest-nil : (rest : ℤ) → RepaysRest rest 0 []
RepaysRest-nil rest = record { count = refl; repaid = λ h. absurd (omega arith); split = tt }

-- One item before the others, in a loop that takes its principal part off the rest.
RepaysRest-cons :
    (rest rest' : ℤ) (left : ℕ) (x : ScheduleItem) (items : List ScheduleItem)
    → InRange rest
    → x.payment ≡ x.principal_part +64 x.interest_part
    → (left ≡ 0 → x.principal_part ≡ rest)
    → (1 ≤ left → x.principal_part +64 rest' ≡ rest)
    → RepaysRest rest' left items
    → RepaysRest rest (suc left) (x ∷ items)
RepaysRest-cons rest rest' zero x [] range pays last step h = record {
  count = refl;
  repaid = λ _. +64_zero _ (rw (last refl) range) ∙ last refl;
  split = (pays, tt);
}
RepaysRest-cons rest rest' zero x (y ∷ ys) range pays last step h = absurd (omega (arith, h.count))
RepaysRest-cons rest rest' (suc left) x items range pays last step h = record {
  count = ap suc h.count;
  repaid = λ _. ap (λ t. x.principal_part +64 t) (h.repaid (omega arith)) ∙ step (omega arith);
  split = (pays, h.split);
}

module _ (fl : Float) (principal : ℤ) (r : fl.Number) (n : ℕ) (payment_day : ℕ) (start : Time) where
  open fl use {Number, round_cent, mul, round_cent_range}

  pub equal_installment_loop-RepaysRest :
      (left i : ℕ) (m : ℤ) (remaining : Number) (paid : ℤ)
      → InRange m
      → i + left ≡ n
      → RepaysRest
          (principal -64 paid)
          left
          (equal_installment_loop fl principal r n payment_day start left i m remaining paid)
  unfolding equal_installment_loop
  equal_installment_loop-RepaysRest zero i m remaining paid range e = RepaysRest-nil _
  equal_installment_loop-RepaysRest (suc left) i m remaining paid range e =
      RepaysRest-cons _ _ left _ _ (-64_InRange principal paid)
        (ground (arith, -64-+64_cancel m (round_cent (mul remaining r)) range)) (λ z. ground arith)
        (λ z. +64-rest _ principal paid)
        (equal_installment_loop-RepaysRest left (i + 1) m _ _ range (omega arith))

  pub equal_principal_loop-RepaysRest :
      (left i : ℕ) (m rest : ℤ)
      → InRange rest
      → i + left ≡ n
      → RepaysRest rest left (equal_principal_loop fl principal r n payment_day start left i m rest)
  unfolding equal_principal_loop
  equal_principal_loop-RepaysRest zero i m rest range e = RepaysRest-nil _
  equal_principal_loop-RepaysRest (suc left) i m rest range e =
      RepaysRest-cons _ _ left _ _ range refl (λ z. ground arith) (λ z. +64-sub_cancel _ rest range)
        (equal_principal_loop-RepaysRest left (i + 1) m _ (-64_InRange rest _) (omega arith))

  pub equal_interest_loop-RepaysRest :
      (left i : ℕ) (m interest rest : ℤ)
      → InRange rest
      → i + left ≡ n
      → RepaysRest rest left
          (equal_interest_loop fl principal r n payment_day start left i m interest rest)
  unfolding equal_interest_loop
  equal_interest_loop-RepaysRest zero i m interest rest range e = RepaysRest-nil _
  equal_interest_loop-RepaysRest (suc left) i m interest rest range e =
      RepaysRest-cons _ _ left _ _ range refl (λ z. ground arith) (λ z. +64-sub_cancel _ rest range)
        (equal_interest_loop-RepaysRest left (i + 1) m interest _ (-64_InRange rest _)
          (omega arith))

  pub interest_only_loop-RepaysRest :
      (left i : ℕ) (rate : Number) (calc : CalcMethod)
      → InRange principal
      → i + left ≡ n
      → RepaysRest principal left
          (interest_only_loop fl principal r n payment_day start left i rate calc)
  unfolding interest_only_loop
  interest_only_loop-RepaysRest zero i rate calc range e = RepaysRest-nil _
  interest_only_loop-RepaysRest (suc left) i rate calc range e =
      RepaysRest-cons _ principal left _ _ range refl (λ z. ground arith)
        (λ z. ground (arith, zero_+64 principal range))
        (interest_only_loop-RepaysRest left (i + 1) rate calc range (omega arith))

  pub bullet_loop-RepaysRest :
      (left i : ℕ) (interest : ℤ)
      → InRange principal
      → i + left ≡ n
      → RepaysRest principal left (bullet_loop fl principal r n payment_day start left i interest)
  unfolding bullet_loop
  bullet_loop-RepaysRest zero i interest range e = RepaysRest-nil _
  bullet_loop-RepaysRest (suc left) i interest range e =
      RepaysRest-cons _ principal left _ _ range (ground (arith, zero_+64 (pos 0)))
        (λ z. ground arith) (λ z. ground (arith, zero_+64 principal range))
        (bullet_loop-RepaysRest left (i + 1) interest range (omega arith))
