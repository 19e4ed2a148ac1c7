-- ===== src/Loan/Schedule/Fixed.antt =====
-- `generateWithFixedPayment` (server/internal/loan/service.go): how far a fixed payment repays.
use mathlib.Core.Path.{subst}
use native.Mathlib.Decide.{dec_lt}
use family_ledger.Base.{
  ℕ, zero, suc, ◌+◌, ◌-◌, ◌≤◌, ◌<◌, ◌≡◌, ◌⊎◌, inl, inr, refl, ap, ◌∙◌, true, false, List, ◌∷◌,
  arith, ltb, if◌then◌else◌,
}
use family_ledger.Base.Lists.{length}
use family_ledger.Base.Int.{ℤ, pos, negsuc, ◌+ℤ◌, ◌-ℤ◌, leb_ℤ, int_laws}
use family_ledger.Base.Int64.{
  ◌+64◌, ◌-64◌, InRange, half_word, +64_exact, -64_exact, -64_InRange, +64_zero,
}
use family_ledger.Loan.Float.{Float}
use family_ledger.Loan.Calendar.{Time}
use family_ledger.Loan.Schedule.{
  ScheduleItem, monthly_rate, fixed_payment_loop, generate_with_fixed_payment, max_months,
}
use family_ledger.Loan.Schedule.Sums.{sum_principal}

-- The arithmetic of IEEE doubles on whole amounts of at most `bound` cents (2 ^ 53): differences
-- are exact, and a whole amount is above one half just when it is positive.
pub record IsExact (fl : Float) (bound : ℕ) : Type 0 where
  pub sub_exact :
      (a b : ℕ)
      → b ≤ a
      → a ≤ bound
      → fl.sub (fl.of_int (pos a)) (fl.of_int (pos b)) ≡ fl.of_int (pos (a - b))
  pub half_lt : (a : ℕ) → a ≤ bound → fl.lt fl.half (fl.of_int (pos a)) ≡ ltb 0 a

pub -64_pos : (a b : ℕ) → b ≤ a → a < half_word → pos a -64 pos b ≡ pos (a - b)
-64_pos a b h k =
    let e : pos a -ℤ pos b ≡ pos (a - b) = omega int_laws in
    -64_exact (pos a) (pos b) (rw e (omega arith)) ∙ e

pub +64_pos : (a b : ℕ) → a + b < half_word → pos a +64 pos b ≡ pos (a + b)
+64_pos a b k =
    let e : pos a +ℤ pos b ≡ pos (a + b) = omega int_laws in
    +64_exact (pos a) (pos b) (rw e (omega arith)) ∙ e

positive_part :
    (z : ℤ)
    → InRange z
    → (k : ℕ) × (1 ≤ k) × (k < half_word) × ((if leb_ℤ z (pos 0) then pos 1 else z) ≡ pos k)
positive_part (pos zero) h = (1, omega arith, omega arith, refl)
positive_part (pos (suc n)) h = (suc n, omega arith, omega arith, ground arith)
positive_part (negsuc n) h = (1, omega arith, omega arith, ground arith)

-- `items`, at most `left` of them, repay `rest`, or use up all the rounds.
record Progress (rest left : ℕ) (items : List ScheduleItem) : Type 0 where
  short : length items ≤ left
  done : (sum_principal items ≡ pos rest) ⊎ (length items ≡ left)

Progress-cons :
    (k rest left : ℕ) (x : ScheduleItem) (items : List ScheduleItem)
    → k + rest < half_word
    → x.principal_part ≡ pos k
    → Progress rest left items
    → Progress (k + rest) (suc left) (x ∷ items)
Progress-cons k rest left x items range e h = record {
  short = omega (arith, h.short);
  done = elim h.done [
    | inl sums ↦ inl (rw (e, sums) (+64_pos k rest range))
    | inr full ↦ inr (ap suc full)
  ];
}

same_paid :
    {a b left : ℕ} {items : List ScheduleItem}
    → a ≡ b
    → Progress a left items
    → Progress b left items
same_paid {left = left} {items} e h = subst (λ t. Progress t left items) e h

module _ (fl : Float) (p : ℕ) (exact : IsExact fl p) (in_word : p < half_word) (r : fl.Number)
    (fixed_payment : ℤ) (payment_day : ℕ) (start : Time) where
  fixed_payment_loop-Progress :
      (left i rest paid : ℕ)
      → rest + paid ≡ p
      → 1 ≤ rest
      → Progress rest left (
          fixed_payment_loop fl
            (pos p)
            r
            fixed_payment
            payment_day
            start
            left
            i
            (fl.of_int (pos rest))
            (pos paid))
  unfolding fixed_payment_loop
  fixed_payment_loop-Progress zero i rest paid e h = record { short = omega arith; done = inr refl }
  fixed_payment_loop-Progress (suc left) i rest paid e h =
      let (k, k1, k2, ek) =
        positive_part (fixed_payment -64 fl.round_cent (fl.mul (fl.of_int (pos rest)) r))
          (-64_InRange fixed_payment _) in
      let er : pos p -64 pos paid ≡ pos rest =
        -64_pos p paid (omega arith) in_word ∙ ap pos (omega arith) in
      let positive : ltb 0 rest ≡ true = ground arith in
      rw (exact.half_lt rest (omega arith), er, ek, positive)
        (elim (dec_lt k rest) [
          | yes lt ↦
              let more : leb_ℤ (pos rest) (pos k) ≡ false = ground arith in
              rw
                (
                  more,
                  exact.sub_exact rest k (omega arith) (omega arith),
                  +64_pos paid k (omega arith),
                )
                (same_paid (omega arith) (
                  Progress-cons k (rest - k) left _ _ (omega arith) refl (
                    fixed_payment_loop-Progress left (i + 1) (rest - k) (paid + k) (omega arith)
                      (omega arith))))
          | no ge ↦
              let last : leb_ℤ (pos rest) (pos k) ≡ true = ground arith in
              rw last
                (record { short = omega arith; done = inl (+64_zero (pos rest) (omega arith)) })
        ])

positive-leb : (p : ℕ) → leb_ℤ (pos (suc p)) (pos 0) ≡ false
positive-leb p = ground arith

-- Where doubles are exact on amounts up to the principal, a fixed payment gives at most 720 items,
-- and their principal parts add up to the whole principal, unless all 720 rounds are used.
pub generate_with_fixed_payment-repaid :
    (fl : Float) (p : ℕ) (rate : fl.Number) (fixed_payment : ℤ) (payment_day : ℕ) (start : Time)
    → IsExact fl p
    → 1 ≤ p
    → p < half_word
    → let items = generate_with_fixed_payment fl (pos p) rate fixed_payment payment_day start in
      (length items ≤ max_months) × ((sum_principal items ≡ pos p) ⊎ (length items ≡ max_months))
unfolding generate_with_fixed_payment
generate_with_fixed_payment-repaid fl zero rate fixed_payment payment_day start exact h range =
    elim h [ ]
generate_with_fixed_payment-repaid fl (suc p) rate fixed_payment payment_day start exact h range =
    let g =
      fixed_payment_loop-Progress fl (suc p) exact range (monthly_rate fl rate) fixed_payment
        payment_day start 720 0 (suc p) 0 (omega arith) h in
    rw (positive-leb p) (g.short, g.done)
