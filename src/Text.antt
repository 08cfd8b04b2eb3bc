-- ===== src/Text.antt =====
-- The functions of Go's `strings` package that the sources call, over byte strings.
pub mod Names
pub mod Numerals
use elodin.Common.{
  zero, ltb, ◌+◌, ◌/◌, ◌%◌, ℕ, suc, Bool, true, false, ◌&&◌, ◌||◌, Option, none, some, List, [],
  ◌∷◌, ◌++◌, ◌==◌, if◌then◌else◌, ◌≡◌, ◌↔◌, refl, arith, Bytes,
}

-- `s == t`
unfoldable pub str_eq : Bytes → Bytes → Bool
str_eq [] [] = true
str_eq [] (d ∷ t) = false
str_eq (c ∷ s) [] = false
str_eq (c ∷ s) (d ∷ t) = c == d && str_eq s t

-- `strings.HasPrefix(s, p)`
unfoldable pub has_prefix : Bytes → Bytes → Bool
has_prefix s [] = true
has_prefix [] (d ∷ p) = false
has_prefix (c ∷ s) (d ∷ p) = c == d && has_prefix s p

-- `strings.ContainsRune(set, c)` for a byte, which is what `Trim` and `ContainsAny` ask of a set
unfoldable pub mem_byte : ℕ → Bytes → Bool
mem_byte c [] = false
mem_byte c (d ∷ s) = c == d || mem_byte c s

-- `strings.Contains(s, p)`
unfoldable pub contains : Bytes → Bytes → Bool
unfolding has_prefix
contains [] p = has_prefix [] p
contains (c ∷ s) p = has_prefix (c ∷ s) p || contains s p

-- `strings.ContainsAny(s, set)`
unfoldable pub contains_any : Bytes → Bytes → Bool
unfolding mem_byte
contains_any [] chars = false
contains_any (c ∷ s) chars = mem_byte c chars || contains_any s chars

-- `strings.TrimLeft(s, set)`
unfoldable pub trim_left : Bytes → Bytes → Bytes
unfolding mem_byte
trim_left [] chars = []
trim_left (c ∷ s) chars = let rest = trim_left s chars in if mem_byte c chars then rest else c ∷ s

-- a byte in front of a trimmed text: dropped only where nothing is left behind it
unfoldable pub keep_byte : ℕ → Bytes → Bytes → Bytes
unfolding mem_byte
keep_byte c [] chars = if mem_byte c chars then [] else c ∷ []
keep_byte c (d ∷ s) chars = c ∷ d ∷ s

-- `strings.TrimRight(s, set)`
unfoldable pub trim_right : Bytes → Bytes → Bytes
unfolding keep_byte
trim_right [] chars = []
trim_right (c ∷ s) chars = keep_byte c (trim_right s chars) chars

-- `strings.TrimSuffix(s, suffix)` for a suffix of one byte
unfoldable pub trim_suffix : Bytes → ℕ → Bytes
trim_suffix [] b = []
trim_suffix (c ∷ []) b = if c == b then [] else c ∷ []
trim_suffix (c ∷ d ∷ s) b = c ∷ trim_suffix (d ∷ s) b

abbrev pub cons_head : ℕ → List Bytes → List Bytes
cons_head c [] = (c ∷ []) ∷ []
cons_head c (p ∷ ps) = (c ∷ p) ∷ ps

-- `strings.Split(s, sep)` for a separator of one byte
unfoldable pub split : Bytes → ℕ → List Bytes
split [] sep = [] ∷ []
split (c ∷ s) sep = let rest = split s sep in if c == sep then [] ∷ rest else cons_head c rest

-- `strings.Join(parts, sep)`
unfoldable pub join : List Bytes → Bytes → Bytes
join [] sep = []
join (p ∷ []) sep = p
join (p ∷ q ∷ ps) sep = p ++ (sep ++ join (q ∷ ps) sep)

-- `strings.Cut(s, sep)` for a separator of one byte: before, after, and whether it was found
unfoldable pub cut : Bytes → ℕ → Bytes × Bytes × Bool
cut [] sep = ([], [], false)
cut (c ∷ s) sep =
    let rest = cut s sep in if c == sep then ([], s, true) else (c ∷ rest.0, rest.1, rest.2)

-- `strings.IndexByte(s, b)`, `none` for -1
unfoldable pub index_byte : Bytes → ℕ → Option ℕ
index_byte [] b = none
index_byte (c ∷ s) b =
    let rest : Option ℕ = elim (index_byte s b) [ none ↦ none | some i ↦ some (suc i) ] in
    if c == b then some 0 else rest

-- `strings.FieldsFunc(s, is_sep)`: the runs of bytes that are no separator, from the last byte on
-- `in_field` says whether the first part of the result is still open
unfoldable pub fields_loop : (ℕ → Bool) → Bytes → Bytes → List Bytes
fields_loop is_sep [] [] = []
fields_loop is_sep [] (c ∷ cur) = (c ∷ cur) ∷ []
fields_loop is_sep (c ∷ s) [] = fields_loop is_sep s (if is_sep c then [] else c ∷ [])
fields_loop is_sep (c ∷ s) (d ∷ cur) =
    let close = (d ∷ cur) ∷ fields_loop is_sep s [] in
    let more = fields_loop is_sep s (d ∷ (cur ++ c ∷ [])) in if is_sep c then close else more

unfoldable pub fields_func : (ℕ → Bool) → Bytes → List Bytes
unfolding fields_loop
fields_func is_sep s = fields_loop is_sep s []

-- the ASCII bytes that `unicode.IsSpace` takes
abbrev pub spaces : Bytes
spaces = 32 ∷ 9 ∷ 10 ∷ 11 ∷ 12 ∷ 13 ∷ []

-- `strings.Fields(s)` and `strings.TrimSpace(s)` on ASCII text
unfoldable pub fields : Bytes → List Bytes
unfolding fields_func mem_byte
fields s = fields_func (λ c. mem_byte c spaces) s

unfoldable pub trim_space : Bytes → Bytes
unfolding trim_left trim_right
trim_space s = trim_right (trim_left s spaces) spaces

pub str_eq_iff : (s t : Bytes) → (str_eq s t ≡ true) ↔ (s ≡ t)
unfolding str_eq
str_eq_iff [] [] = ((λ _. refl), (λ _. refl))
str_eq_iff [] (d ∷ t) = ((λ h. cc), (λ h. cc))
str_eq_iff (c ∷ s) [] = ((λ h. cc), (λ h. cc))
str_eq_iff (c ∷ s) (d ∷ t) = ground (arith, str_eq_iff s t)

-- `%d` of a number: its digits, the last one first, on fuel that is more than the number of digits
unfoldable pub digits : ℕ → ℕ → Bytes → Bytes
digits zero n out = out
digits (suc fuel) n out =
    let rest = digits fuel (n / 10) ((b'0' + n % 10) ∷ out) in
    if ltb n 10 then (b'0' + n) ∷ out else rest

unfoldable pub decimal : ℕ → Bytes
unfolding digits
decimal n = digits (suc n) n []
