-- ===== src/Text/Numerals.antt =====
-- A numeral determines its number.
use elodin.Common.{
  ℕ, zero, suc, ◌+◌, ◌-◌, ◌*◌, ◌/◌, ◌%◌, ◌<◌, ◌≤◌, ◌≡◌, refl, sym, ap, ◌∙◌, Bool, true, false, ◌||◌,
  [], ◌∷◌, ◌++◌, ltb, ◌==◌, Bytes, Bool-cases, inl, inr, arith,
}
use elodin.Text.{digits, decimal, mem_byte}

-- the number that digits stand for, behind a number
number_of : Bytes → ℕ → ℕ
number_of [] n = n
number_of (c ∷ s) n = number_of s (n * 10 + (c - 48))

number_of-digits :
    (fuel n : ℕ) (out : Bytes) → n < fuel → number_of (digits fuel n out) 0 ≡ number_of out n
unfolding digits number_of
number_of-digits zero n out h = absurd (omega arith)
number_of-digits (suc fuel) n out h = elim (Bool-cases (ltb n 10)) [
  | inl last ↦ rw (digits, last) (ap (number_of out) (omega arith))
  | inr more ↦
      let big : 10 ≤ n = ground (arith, more) in
      rw (digits, more)
        (number_of-digits fuel (n / 10) ((48 + n % 10) ∷ out) (omega arith)
          ∙ ap (number_of out) (omega arith))
]

pub decimal_injective : (m n : ℕ) → decimal m ≡ decimal n → m ≡ n
unfolding decimal number_of
decimal_injective m n e =
    sym (number_of-digits (suc m) m [] (omega arith))
    ∙ ap (λ s. number_of s 0) e
    ∙ number_of-digits (suc n) n [] (omega arith)

digits-mem_byte :
    (b fuel n : ℕ) (out : Bytes)
    → b < 48
    → mem_byte b out ≡ false
    → mem_byte b (digits fuel n out) ≡ false
unfolding digits mem_byte
digits-mem_byte b zero n out h a = a
digits-mem_byte b (suc fuel) n out h a = elim (Bool-cases (ltb n 10)) [
  | inl last ↦
      let other_byte : (b == 48 + n) ≡ false = ground arith in
      rw (digits, last, mem_byte, other_byte) a
  | inr more ↦
      let other_byte : (b == 48 + n % 10) ≡ false = ground arith in
      rw (digits, more)
        (digits-mem_byte b fuel (n / 10) ((48 + n % 10) ∷ out) h (rw (mem_byte, other_byte) a))
]

pub decimal-mem_byte : (b n : ℕ) → b < 48 → mem_byte b (decimal n) ≡ false
unfolding decimal mem_byte
decimal-mem_byte b n h = digits-mem_byte b (suc n) n [] h refl

-- texts in front of a byte that neither has
pub append-split :
    (b : ℕ) (s s' t t' : Bytes)
    → mem_byte b s ≡ false
    → mem_byte b s' ≡ false
    → s ++ b ∷ t ≡ s' ++ b ∷ t'
    → (s ≡ s') × (t ≡ t')
unfolding mem_byte
append-split b [] [] t t' h k e = (refl, cc)
append-split b [] (c ∷ s') t t' h k e = let same : b ≡ c = cc in absurd (ground (arith, same, k))
append-split b (c ∷ s) [] t t' h k e = let same : c ≡ b = cc in absurd (ground (arith, same, h))
append-split b (c ∷ s) (d ∷ s') t t' h k e =
    let head : c ≡ d = cc in
    let rest : s ++ b ∷ t ≡ s' ++ b ∷ t' = cc in
    let (front, back) =
      append-split b s s' t t' (or_right (b == c) (mem_byte b s) h)
        (or_right (b == d) (mem_byte b s') k) rest in
    (cc, back)
  where
    or_right : (x y : Bool) → (x || y) ≡ false → y ≡ false
    or_right true y h = absurd cc
    or_right false y h = h
