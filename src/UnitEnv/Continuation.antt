-- ===== src/UnitEnv/Continuation.antt =====
-- Lines that a backslash continues.
use elodin.Common.{
  ℕ, zero, suc, ◌-◌, ◌%◌, ◌≡◌, refl, ap, [], ◌∷◌, ◌++◌, Bool, true, false, ◌==◌, length,
  length-append, arith, Bytes, replicate,
}
use elodin.Text.{trim_suffix, trim_right, keep_byte, mem_byte}
use elodin.Text.Names.{NoTrail, trim_suffix-NoTrail, trim_suffix-append}
use elodin.UnitEnv.{continues}

abbrev slashes : ℕ → Bytes
slashes n = replicate n b'\\'

trim_right-slashes : (n : ℕ) → trim_right (slashes n) (b'\\' ∷ []) ≡ []
unfolding trim_right keep_byte mem_byte
trim_right-slashes zero = refl
trim_right-slashes (suc n) = rw (trim_right-slashes n)

trim_right-append :
    (s : Bytes) (n : ℕ) → NoTrail b'\\' s → trim_right (s ++ slashes n) (b'\\' ∷ []) ≡ s
unfolding trim_right keep_byte mem_byte
trim_right-append [] n h = trim_right-slashes n
trim_right-append (c ∷ []) n h = rw (trim_right-slashes n) (ground arith)
trim_right-append (c ∷ d ∷ s) n h = rw (trim_right-append (d ∷ s) n h)

length-replicate {ℓ} : {A : Type ℓ} (n : ℕ) (a : A) → length (replicate n a) ≡ n
length-replicate zero a = refl
length-replicate (suc n) a = ap suc (length-replicate n a)

only_slashes-NoTrail : (n : ℕ) → NoTrail 13 (slashes n)
only_slashes-NoTrail zero = tt
only_slashes-NoTrail (suc zero) = omega arith
only_slashes-NoTrail (suc (suc n)) = only_slashes-NoTrail (suc n)

slashes-NoTrail : (s : Bytes) (n : ℕ) → NoTrail 13 s → NoTrail 13 (s ++ slashes n)
slashes-NoTrail [] n h = only_slashes-NoTrail n
slashes-NoTrail (c ∷ []) zero h = h
slashes-NoTrail (c ∷ []) (suc n) h = only_slashes-NoTrail (suc n)
slashes-NoTrail (c ∷ d ∷ s) n h = slashes-NoTrail (d ∷ s) n h

-- A line with or without the `\r` that ends it in a text with DOS line ends.
abbrev pub with_cr : Bool → Bytes → Bytes
with_cr true s = s ++ 13 ∷ []
with_cr false s = s

trim-with_cr :
    (cr : Bool) (s : Bytes) (n : ℕ)
    → NoTrail 13 s
    → trim_suffix (with_cr cr (s ++ slashes n)) 13 ≡ s ++ slashes n
trim-with_cr true s n h = trim_suffix-append 13 (s ++ slashes n)
trim-with_cr false s n h = trim_suffix-NoTrail 13 (s ++ slashes n) (slashes-NoTrail s n h)

-- A line that ends in `n` backslashes behind a text that ends neither in one nor in `\r`, with or
-- without a `\r` behind them, is continued exactly if `n` is odd.
pub continues-slashes :
    (cr : Bool) (s : Bytes) (n : ℕ)
    → NoTrail b'\\' s
    → NoTrail 13 s
    → continues (with_cr cr (s ++ replicate n b'\\')) ≡ (n % 2 == 1)
unfolding continues
continues-slashes cr s n h k =
    let counted : length (s ++ slashes n) - length s ≡ n =
      omega (arith, length-append s (slashes n), length-replicate {A = ℕ} n b'\\') in
    rw (trim-with_cr cr s n k, trim_right-append s n h, counted)
