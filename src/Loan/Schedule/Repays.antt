-- ===== src/Loan/Schedule/Repays.antt =====
-- `generateSchedule` (server/internal/loan/service.go) repays the loan, by every method.
use mathlib.Core.Path.{subst}
use family_ledger.Base.{ℕ, zero, suc, ◌+◌, ◌≡◌, ◌≢◌, refl, ◌∙◌, List, arith}
use family_ledger.Base.Int.{ℤ, pos, negsuc, ◌≤ℤ◌}
use family_ledger.Base.Int64.{InRange, -64_zero, -64_self}
use family_ledger.Loan.Float.{Float}
use family_ledger.Loan.Calendar.{Time}
use family_ledger.Loan.Schedule.{
  ScheduleItem, Method, equal_installment, equal_principal, interest_only, bullet, equal_interest,
  unknown, CalcMethod, monthly_rate, zero_last, equal_principal_loop, interest_only_loop,
  bullet_loop, equal_interest_loop, schedule_of, generate_schedule,
}
use family_ledger.Loan.Schedule.Sums.{
  last_remaining, Repays, RepaysRest, zero_last-length, zero_last-sum, zero_last-cleared,
  zero_last-IsSplit, equal_installment_loop-RepaysRest, equal_principal_loop-RepaysRest,
  equal_interest_loop-RepaysRest, interest_only_loop-RepaysRest, bullet_loop-RepaysRest,
}

module _ (fl : Float) (principal : ℤ) (r : fl.Number) (n : ℕ) (payment_day : ℕ) (start : Time) where
  open fl use {Number, round_cent_range}

  equal_principal_loop-cleared :
      (left i : ℕ) (d m rest : ℤ)
      → i + suc left ≡ n
      → last_remaining d
          (equal_principal_loop fl principal r n payment_day start (suc left) i m rest)
        ≡ pos 0
  unfolding equal_principal_loop
  equal_principal_loop-cleared zero i d m rest e = ground (arith, -64_self rest)
  equal_principal_loop-cleared (suc left) i d m rest e =
      equal_principal_loop-cleared left (i + 1) (pos 0) m _ (omega arith)

  equal_interest_loop-cleared :
      (left i : ℕ) (d m interest rest : ℤ)
      → i + suc left ≡ n
      → last_remaining d
          (equal_interest_loop fl principal r n payment_day start (suc left) i m interest rest)
        ≡ pos 0
  unfolding equal_interest_loop
  equal_interest_loop-cleared zero i d m interest rest e = ground (arith, -64_self rest)
  equal_interest_loop-cleared (suc left) i d m interest rest e =
      equal_interest_loop-cleared left (i + 1) (pos 0) m interest _ (omega arith)

  interest_only_loop-cleared :
      (left i : ℕ) (d : ℤ) (rate : Number) (calc : CalcMethod)
      → i + suc left ≡ n
      → last_remaining d
          (interest_only_loop fl principal r n payment_day start (suc left) i rate calc)
        ≡ pos 0
  unfolding interest_only_loop
  interest_only_loop-cleared zero i d rate calc e = ground (arith, -64_self principal)
  interest_only_loop-cleared (suc left) i d rate calc e =
      interest_only_loop-cleared left (i + 1) (pos 0) rate calc (omega arith)

  bullet_loop-cleared :
      (left i : ℕ) (d interest : ℤ)
      → i + suc left ≡ n
      → last_remaining d (bullet_loop fl principal r n payment_day start (suc left) i interest)
        ≡ pos 0
  unfolding bullet_loop
  bullet_loop-cleared zero i d interest e = ground arith
  bullet_loop-cleared (suc left) i d interest e =
      bullet_loop-cleared left (i + 1) (pos 0) interest (omega arith)

whole_rest :
    {principal : ℤ} {n : ℕ} {items : List ScheduleItem}
    → RepaysRest principal (suc n) items
    → last_remaining principal items ≡ pos 0
    → Repays principal (suc n) items
whole_rest h c = record {
  count = h.count;
  repaid = h.repaid (omega arith);
  cleared = c;
  split = h.split;
}

rest_resp :
    {a b : ℤ} {left : ℕ} {items : List ScheduleItem}
    → a ≡ b
    → RepaysRest a left items
    → RepaysRest b left items
rest_resp {left = left} {items} e h = subst (λ t. RepaysRest t left items) e h

zero_last-Repays :
    {principal : ℤ} {n : ℕ} {items : List ScheduleItem}
    → RepaysRest principal (suc n) items
    → Repays principal (suc n) (zero_last items)
zero_last-Repays {principal} {items = items} h = record {
  count = zero_last-length items ∙ h.count;
  repaid = zero_last-sum items ∙ h.repaid (omega arith);
  cleared = zero_last-cleared principal items (omega (arith, h.count));
  split = zero_last-IsSplit items h.split;
}

schedule_of-Repays :
    (fl : Float) (principal : ℤ) (r : fl.Number) (k payment_day : ℕ) (start : Time)
    (method : Method) (rate : fl.Number) (calc : CalcMethod)
    → InRange principal
    → method ≢ unknown
    → Repays principal
        (suc k)
        (schedule_of fl principal r (suc k) payment_day start method rate calc)
unfolding schedule_of
schedule_of-Repays fl principal r k payment_day start equal_installment rate calc range known =
    zero_last-Repays (
      rest_resp (-64_zero principal range) (
        equal_installment_loop-RepaysRest fl principal r (suc k) payment_day start (suc k) 0 _ _
          (pos 0) (fl.round_cent_range _) (omega arith)))
schedule_of-Repays fl principal r k payment_day start equal_principal rate calc range known =
    whole_rest
      (equal_principal_loop-RepaysRest fl principal r (suc k) payment_day start (suc k) 0 _
        principal range (omega arith))
      (equal_principal_loop-cleared fl principal r (suc k) payment_day start k 0 _ _ _
        (omega arith))
schedule_of-Repays fl principal r k payment_day start interest_only rate calc range known =
    whole_rest
      (interest_only_loop-RepaysRest fl principal r (suc k) payment_day start (suc k) 0 rate calc
        range (omega arith))
      (interest_only_loop-cleared fl principal r (suc k) payment_day start k 0 _ _ _ (omega arith))
schedule_of-Repays fl principal r k payment_day start bullet rate calc range known =
    whole_rest
      (bullet_loop-RepaysRest fl principal r (suc k) payment_day start (suc k) 0 _ range
        (omega arith))
      (bullet_loop-cleared fl principal r (suc k) payment_day start k 0 _ _ (omega arith))
schedule_of-Repays fl principal r k payment_day start equal_interest rate calc range known =
    whole_rest
      (equal_interest_loop-RepaysRest fl principal r (suc k) payment_day start (suc k) 0 _ _
        principal range (omega arith))
      (equal_interest_loop-cleared fl principal r (suc k) payment_day start k 0 _ _ _ _
        (omega arith))
schedule_of-Repays fl principal r k payment_day start unknown rate calc range known =
    absurd (known refl)

-- By each of the five repayment methods, whatever the floating-point interest comes to, a schedule
-- for a positive int64 principal over a positive number of months has one item a month, its
-- principal parts add up (as int64) to exactly the principal, the last item leaves nothing, and
-- each payment is its principal part plus its interest.
pub generate_schedule-Repays :
    (fl : Float) (principal : ℤ) (rate : fl.Number) (months : ℕ) (method : Method) (payment_day : ℕ)
    (start : Time) (calc : CalcMethod)
    → InRange principal
    → pos 1 ≤ℤ principal
    → method ≢ unknown
    → Repays principal
        (suc months)
        (generate_schedule fl principal rate (pos (suc months)) method payment_day start calc)
unfolding generate_schedule
generate_schedule-Repays fl (pos zero) rate months method payment_day start calc range h known =
    absurd (omega arith)
generate_schedule-Repays fl (pos (suc p)) rate months method payment_day start calc range h known =
    ground (
      arith,
      schedule_of-Repays fl (pos (suc p)) (monthly_rate fl rate) months payment_day start method
          rate calc range known,
    )
generate_schedule-Repays fl (negsuc p) rate months method payment_day start calc range h known =
    absurd (omega arith)
