-- ===== src/Text/Names.antt =====
-- Splitting and trimming dotted names.
use elodin.Common.{ℕ, ◌<◌, ◌≡◌, ◌≢◌, refl, ap, ◌∙◌, List, [], ◌∷◌, ◌++◌, arith, Bytes, length, All}
use elodin.Text.{split, join, trim_suffix}

abbrev pub Lacks : ℕ → Bytes → Type 0
Lacks b = All (λ c. c ≢ b)

pub split-Lacks : (p : Bytes) (b : ℕ) → Lacks b p → split p b ≡ p ∷ []
unfolding split
split-Lacks [] b h = refl
split-Lacks (c ∷ p) b h = ground (arith, split-Lacks p b h.1)

pub split-append : (p s : Bytes) (b : ℕ) → Lacks b p → split (p ++ (b ∷ s)) b ≡ p ∷ split s b
unfolding split
split-append [] s b h = ground arith
split-append (c ∷ p) s b h = ground (arith, split-append p s b h.1)

pub split-join :
    (l : Bytes) (ls : List Bytes) (b : ℕ)
    → All (Lacks b) (l ∷ ls)
    → split (join (l ∷ ls) (b ∷ [])) b ≡ l ∷ ls
unfolding join
split-join l [] b h = split-Lacks l b h.0
split-join l (m ∷ ls) b h =
    split-append l (join (m ∷ ls) (b ∷ [])) b h.0 ∙ ap (◌∷◌ l) (split-join m ls b h.1)

-- The last byte of the text, where it has one, is not `b`.
abbrev pub NoTrail : ℕ → Bytes → Type 0
NoTrail b [] = Unit
NoTrail b (c ∷ []) = c ≢ b
NoTrail b (c ∷ d ∷ s) = NoTrail b (d ∷ s)

Lacks-NoTrail : (b : ℕ) (s : Bytes) → Lacks b s → NoTrail b s
Lacks-NoTrail b [] h = tt
Lacks-NoTrail b (c ∷ []) h = h.0
Lacks-NoTrail b (c ∷ d ∷ s) h = Lacks-NoTrail b (d ∷ s) h.1

append-NoTrail : (b : ℕ) (p s : Bytes) (c : ℕ) → NoTrail b (c ∷ s) → NoTrail b (p ++ (c ∷ s))
append-NoTrail b [] s c h = h
append-NoTrail b (d ∷ []) s c h = h
append-NoTrail b (d ∷ e ∷ p) s c h = append-NoTrail b (e ∷ p) s c h

pub trim_suffix-NoTrail : (b : ℕ) (s : Bytes) → NoTrail b s → trim_suffix s b ≡ s
unfolding trim_suffix
trim_suffix-NoTrail b [] h = refl
trim_suffix-NoTrail b (c ∷ []) h = ground arith
trim_suffix-NoTrail b (c ∷ d ∷ s) h = ap (◌∷◌ c) (trim_suffix-NoTrail b (d ∷ s) h)

pub trim_suffix-append : (b : ℕ) (s : Bytes) → trim_suffix (s ++ b ∷ []) b ≡ s
unfolding trim_suffix
trim_suffix-append b [] = ground arith
trim_suffix-append b (c ∷ []) = ap (◌∷◌ c) (trim_suffix-append b [])
trim_suffix-append b (c ∷ d ∷ s) = ap (◌∷◌ c) (trim_suffix-append b (d ∷ s))

join-cons :
    (l : Bytes) (ls : List Bytes) (b : ℕ)
    → 0 < length l
    → (c : ℕ) × (s : Bytes) × (join (l ∷ ls) (b ∷ []) ≡ c ∷ s)
unfolding join
join-cons [] ls b h = absurd (omega arith)
join-cons (c ∷ l) [] b h = (c, l, refl)
join-cons (c ∷ l) (m ∷ ls) b h = (c, l ++ ((b ∷ []) ++ join (m ∷ ls) (b ∷ [])), refl)

-- A joined name does not end in the separator, where no part does and none is empty.
pub join-NoTrail :
    (l : Bytes) (ls : List Bytes) (b : ℕ)
    → All (λ p. (0 < length p) × Lacks b p) (l ∷ ls)
    → NoTrail b (join (l ∷ ls) (b ∷ []))
unfolding join
join-NoTrail l [] b h = Lacks-NoTrail b l h.0.1
join-NoTrail l (m ∷ ls) b h =
    let (c, s, e) = join-cons m ls b h.1.0.0 in
    rw e (append-NoTrail b l (c ∷ s) b (rw e at (join-NoTrail m ls b h.1)))
