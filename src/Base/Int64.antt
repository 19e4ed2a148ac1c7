-- ===== src/Base/Int64.antt =====
-- Go's `int64` and `int32` arithmetic: the exact result, brought back into range modulo 2 ^ 64
-- (2 ^ 32). A value is kept as the integer that it stands for.
use family_ledger.Base.{
  ℕ, suc, ◌+◌, ◌-◌, ◌%◌, ◌≤◌, ◌<◌, ◌≡◌, refl, sym, ap, ◌∙◌, Bool, ◌&&◌, arith, ltb, leb,
  if◌then◌else◌,
}
use family_ledger.Base.Int.{ℤ, pos, negsuc, pos_part, neg_part, ◌+ℤ◌, ◌-ℤ◌, +ℤ_parts, -ℤ_parts}

-- 2 ^ 64
abbrev pub word : ℕ
word = 18446744073709551616

-- 2 ^ 63
abbrev pub half_word : ℕ
half_word = 9223372036854775808

-- The bit pattern of an integer, as an unsigned number.
pub residue : ℤ → ℕ
residue a = (pos_part a + (word - neg_part a % word)) % word

-- The signed reading of a bit pattern.
pub signed : ℕ → ℤ
signed u = if ltb u half_word then pos u else negsuc (word - u - 1)

unfoldable pub wrap : ℤ → ℤ
unfolding residue signed
wrap a = signed (residue a)

abbrev pub InRange : ℤ → Type 0
InRange a = (pos_part a < half_word) × (neg_part a ≤ half_word)

abbrev pub in_range : ℤ → Bool
in_range a = ltb (pos_part a) half_word && leb (neg_part a) half_word

infixl 65 ◌+64◌ ◌-64◌
unfoldable pub ◌+64◌ : ℤ → ℤ → ℤ
a +64 b = wrap (a +ℤ b)

unfoldable pub ◌-64◌ : ℤ → ℤ → ℤ
a -64 b = wrap (a -ℤ b)

pub residue-lt : (a : ℤ) → residue a < word
unfolding residue
residue-lt a = omega arith

residue-signed : (u : ℕ) → u < word → residue (signed u) ≡ u
unfolding residue signed
residue-signed u h = ground arith

residue-add : (a b : ℤ) → residue (a +ℤ b) ≡ (residue a + residue b) % word
unfolding residue
residue-add a b = omega (arith, +ℤ_parts a b)

residue-sub : (a b : ℤ) → residue (a -ℤ b) ≡ (residue a + (word - residue b)) % word
unfolding residue
residue-sub a b = omega (arith, -ℤ_parts a b)

-- A value in range is its own wrapped form.
pub wrap_self : (a : ℤ) → InRange a → wrap a ≡ a
unfolding wrap
wrap_self (pos n) h = ground arith
wrap_self (negsuc n) h = ground arith

pub wrap-InRange : (a : ℤ) → InRange (wrap a)
unfolding wrap
wrap-InRange a = ground (arith, residue-lt a)

pub residue-wrap : (a : ℤ) → residue (wrap a) ≡ residue a
unfolding wrap
residue-wrap a = residue-signed (residue a) (residue-lt a)

-- Two values in range with one bit pattern are equal.
pub residue_inj : (a b : ℤ) → InRange a → InRange b → residue a ≡ residue b → a ≡ b
unfolding wrap
residue_inj a b ha hb e = sym (wrap_self a ha) ∙ ap signed e ∙ wrap_self b hb

pub +64_residue : (a b : ℤ) → residue (a +64 b) ≡ (residue a + residue b) % word
unfolding ◌+64◌
+64_residue a b = residue-wrap (a +ℤ b) ∙ residue-add a b

pub -64_residue : (a b : ℤ) → residue (a -64 b) ≡ (residue a + (word - residue b)) % word
unfolding ◌-64◌
-64_residue a b = residue-wrap (a -ℤ b) ∙ residue-sub a b

pub +64_InRange : (a b : ℤ) → InRange (a +64 b)
unfolding ◌+64◌
+64_InRange a b = wrap-InRange (a +ℤ b)

pub -64_InRange : (a b : ℤ) → InRange (a -64 b)
unfolding ◌-64◌
-64_InRange a b = wrap-InRange (a -ℤ b)

-- Where the exact result fits, the machine's result is exact.
pub +64_exact : (a b : ℤ) → InRange (a +ℤ b) → a +64 b ≡ a +ℤ b
unfolding ◌+64◌
+64_exact a b h = wrap_self (a +ℤ b) h

pub -64_exact : (a b : ℤ) → InRange (a -ℤ b) → a -64 b ≡ a -ℤ b
unfolding ◌-64◌
-64_exact a b h = wrap_self (a -ℤ b) h

pub residue-zero : residue (pos 0) ≡ 0
unfolding residue
residue-zero = refl

-- What the arithmetic tactics need for equations between bit patterns.
pub ruleset word_laws = (arith, +64_residue, -64_residue, residue-lt, residue-zero)

-- Subtracting and adding back is the identity.
pub -64-+64_cancel : (a b : ℤ) → InRange a → (a -64 b) +64 b ≡ a
-64-+64_cancel a b h = residue_inj _ a (+64_InRange (a -64 b) b) h (omega word_laws)

pub +64_assoc : (a b c : ℤ) → (a +64 b) +64 c ≡ a +64 (b +64 c)
+64_assoc a b c =
    residue_inj _ _ (+64_InRange (a +64 b) c) (+64_InRange a (b +64 c)) (omega word_laws)

pub +64_zero : (a : ℤ) → InRange a → a +64 pos 0 ≡ a
+64_zero a h = residue_inj _ a (+64_InRange a (pos 0)) h (omega (word_laws, residue-lt a))

pub -64_zero : (a : ℤ) → InRange a → a -64 pos 0 ≡ a
-64_zero a h = residue_inj _ a (-64_InRange a (pos 0)) h (omega (word_laws, residue-lt a))

pub -64_self : (a : ℤ) → a -64 a ≡ pos 0
-64_self a = residue_inj _ _ (-64_InRange a a) (omega arith) (omega word_laws)

-- Taking `x` off what is left of `p`, and counting it with what has gone, changes nothing.
pub +64-rest : (x p q : ℤ) → x +64 (p -64 (q +64 x)) ≡ p -64 q
+64-rest x p q =
    residue_inj _ _ (+64_InRange x (p -64 (q +64 x))) (-64_InRange p q) (omega word_laws)

pub +64-sub_cancel : (x p : ℤ) → InRange p → x +64 (p -64 x) ≡ p
+64-sub_cancel x p h = residue_inj _ p (+64_InRange x (p -64 x)) h (omega word_laws)

pub zero_+64 : (a : ℤ) → InRange a → pos 0 +64 a ≡ a
zero_+64 a h = residue_inj _ a (+64_InRange (pos 0) a) h (omega (word_laws, residue-lt a))

-- 2 ^ 32, and the signed reading of the low 32 bits
abbrev pub word32 : ℕ
word32 = 4294967296

unfoldable pub wrap32 : ℤ → ℤ
wrap32 a =
    let u = (pos_part a + (word32 - neg_part a % word32)) % word32 in
    if ltb u 2147483648 then pos u else negsuc (word32 - u - 1)

abbrev pub InRange32 : ℤ → Type 0
InRange32 a = (pos_part a < 2147483648) × (neg_part a ≤ 2147483648)

pub wrap32_self : (a : ℤ) → InRange32 a → wrap32 a ≡ a
unfolding wrap32
wrap32_self (pos n) h = ground arith
wrap32_self (negsuc n) h = ground arith

infixl 65 ◌+32◌ ◌-32◌
unfoldable pub ◌+32◌ : ℤ → ℤ → ℤ
a +32 b = wrap32 (a +ℤ b)

unfoldable pub ◌-32◌ : ℤ → ℤ → ℤ
a -32 b = wrap32 (a -ℤ b)
