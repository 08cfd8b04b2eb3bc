-- ===== src/ProcStat/Reading.antt =====
-- What the readers of /proc take from a text.
use elodin.Common.{
  ℕ, suc, ◌+◌, ◌≡◌, refl, true, false, none, some, List, [], ◌∷◌, ◌++◌, ◌==◌, Bytes, All, drop,
  length, arith,
}
use elodin.Text.{has_prefix, fields}
use elodin.ProcStat.{status_loop, second_field, last_index, cpu_fields, cpu_time}

-- Where no line before it has the prefix, the first line that has it is the one whose second field is
-- read, whatever lines stand behind it.
pub status_loop-first :
    (prefix line : Bytes) (before behind : List Bytes)
    → All (λ l. has_prefix l prefix ≡ false) before
    → has_prefix line prefix ≡ true
    → status_loop prefix (before ++ line ∷ behind) ≡ second_field line
unfolding status_loop
status_loop-first prefix line [] behind a h = rw h refl
status_loop-first prefix line (l ∷ before) behind (n, a) h =
    rw (status_loop, n) (status_loop-first prefix line before behind a h)

last_index-none : (s : Bytes) (b : ℕ) → All (λ c. (c == b) ≡ false) s → last_index s b ≡ none
unfolding last_index
last_index-none [] b a = refl
last_index-none (c ∷ s) b (n, a) = rw (last_index, last_index-none s b a, n) refl

last_index-last :
    (name s : Bytes) (b : ℕ)
    → All (λ c. (c == b) ≡ false) s
    → last_index (name ++ b ∷ s) b ≡ some (length name)
unfolding last_index
last_index-last [] s b a = rw (last_index, last_index-none s b a) (ground arith)
last_index-last (c ∷ name) s b a = rw (last_index, last_index-last name s b a) refl

drop-behind : (name s : Bytes) (b : ℕ) → drop (length name + 1) (name ++ b ∷ s) ≡ s
drop-behind [] s b = refl
drop-behind (c ∷ name) s b =
    let one_more : length (c ∷ name) + 1 ≡ suc (length name + 1) = omega arith in
    rw one_more (drop-behind name s b)

-- The time read from a stat line is that of the fields behind the last parenthesis, whatever bytes,
-- blanks and parentheses among them, stand before it.
pub cpu_time-name :
    (name rest : Bytes)
    → All (λ c. (c == b')') ≡ false) rest
    → cpu_time (some (name ++ b')' ∷ rest)) ≡ cpu_fields (fields rest)
unfolding cpu_time
cpu_time-name name rest a = rw (last_index-last name rest b')' a, drop-behind name rest b')') refl
