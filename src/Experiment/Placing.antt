-- ===== src/Experiment/Placing.antt =====
-- Where the clients of an arm stand, and arms that are told apart.
use elodin.Common.{
  ℕ, ◌≡◌, ◌≢◌, refl, sym, Bool, true, false, not, ◌&&◌, ◌||◌, ◌==◌, none, some, List, [], ◌∷◌, any,
  All, if◌then◌else◌, Bytes, codes,
}
use elodin.Text.{str_eq, str_eq_iff, contains}
use elodin.Experiment.Matrix.{Arm}
use elodin.Experiment.Naming.{AllDistinct}

abbrev is_separator : ℕ → Bool
is_separator c = c == b'.' || c == b':'

-- the text of an address without its last part: that of its /24, and here that of its /64
abbrev net_of : Bytes → Bytes
net_of [] = []
net_of (c ∷ s) =
    let rest = net_of s in if is_separator c || any is_separator s then c ∷ rest else []

-- the clients of an arm have addresses of their own, in one prefix or in two where the name of the arm
-- says so
abbrev pub is_placed : Arm → Bool
is_placed a = elim a.attacker [
  | none ↦ true
  | some c ↦
      let same = str_eq (net_of c.src) (net_of a.victim.src) in
      not (str_eq c.src a.victim.src)
      && (not (contains a.name (codes "other-prefix") && same)
          && not (contains a.name (codes "same-prefix") && not same))
]

abbrev pub are_placed : List Arm → Bool
are_placed [] = true
are_placed (a ∷ arms) = is_placed a && are_placed arms

abbrev pub distinct : List Bytes → Bool
distinct [] = true
distinct (s ∷ texts) = not (any (str_eq s) texts) && distinct texts

pub absurd_on {ℓ} : {A : Type ℓ} → true ≡ false → A
absurd_on e = absurd cc

and_true : (a b : Bool) → (a && b) ≡ true → (a ≡ true) × (b ≡ true)
and_true true b h = (refl, h)
and_true false b h = absurd cc

apart :
    (s : Bytes) (texts : List Bytes) → not (any (str_eq s) texts) ≡ true → All (λ t. s ≢ t) texts
apart s [] h = tt
apart s (t ∷ texts) h = step (str_eq s t) (str_eq_iff s t).1 (apart s texts) h
  where
    step :
        (b : Bool)
        → (s ≡ t → b ≡ true)
        → (not (any (str_eq s) texts) ≡ true → All (λ t. s ≢ t) texts)
        → not (b || any (str_eq s) texts) ≡ true
        → (s ≢ t) × All (λ t. s ≢ t) texts
    step true same later h = absurd cc
    step false same later h = ((λ e. absurd_on (sym (same e))), later h)

pub distinct→AllDistinct : (texts : List Bytes) → distinct texts ≡ true → AllDistinct texts
distinct→AllDistinct [] h = tt
distinct→AllDistinct (s ∷ texts) h =
    let both = and_true (not (any (str_eq s) texts)) (distinct texts) h in
    (apart s texts both.0, distinct→AllDistinct texts both.1)

pub are_placed→All : (arms : List Arm) → are_placed arms ≡ true → All (λ a. is_placed a ≡ true) arms
are_placed→All [] h = tt
are_placed→All (a ∷ arms) h =
    let both = and_true (is_placed a) (are_placed arms) h in (both.0, are_placed→All arms both.1)
