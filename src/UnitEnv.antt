-- ===== src/UnitEnv.antt =====
-- bench/internal/unitenv/unitenv.go: the environment that the shipped systemd unit gives the server.
--
-- A text is its bytes. The blanks that `strings.TrimSpace` drops are the ASCII ones. Reading the file
-- and `/proc/<pid>/environ` is not modelled: their contents are arguments.
pub mod Assignments
pub mod Effective
pub mod Continuation
pub mod Started
use elodin.Common.{
  ℕ, ◌+◌, ◌-◌, ◌%◌, Bool, true, false, not, ◌&&◌, ◌||◌, Option, none, some, List, [], ◌∷◌, ◌++◌,
  leb, ◌==◌, if◌then◌else◌, Bytes, codes, length, take, any, Result, ok, err, ◌>>=◌, ◌>>◌, guard,
}
use elodin.Text.{
  str_eq, has_prefix, contains, contains_any, trim_left, trim_right, trim_space, trim_suffix, split,
  cut, index_byte, fields_func,
}

pub data Error : Type 0 where
  not_read : Bytes → Error
  not_an_assignment : Bytes → Error
  set_twice : Bytes → Error
  missing : Bytes → Error

abbrev pub blanks : Bytes
blanks = codes " \t"

unfoldable pub is_comment : Bytes → Bool
is_comment line = has_prefix line (codes "#") || has_prefix line (codes ";")

-- an odd number of backslashes at the end of the line, before its `\r`
unfoldable pub continues : Bytes → Bool
continues line =
    let s = trim_suffix line 13 in (length s - length (trim_right s (b'\\' ∷ []))) % 2 == 1

-- one rune of a name; `first` says whether it is at index 0
unfoldable pub valid_byte : ℕ → Bool → Bool
valid_byte c first =
    c == b'_'
    || ((leb b'A' c && leb c b'Z')
        || ((leb b'a' c && leb c b'z') || (not first && (leb b'0' c && leb c b'9'))))

unfoldable pub valid_from : Bytes → Bool → Bool
valid_from [] first = true
valid_from (c ∷ key) first = valid_byte c first && valid_from key false

abbrev pub is_empty : Bytes → Bool
is_empty [] = true
is_empty (_ ∷ _) = false

unfoldable pub valid_name : Bytes → Bool
valid_name key = valid_from key true && not (is_empty key)

-- what systemd splits a value on
abbrev pub is_blank : ℕ → Bool
is_blank c = c == b' ' || (c == 9 || c == 13)

unfoldable pub environment_fields : Bytes → Bool → Bool → Result Error (List Bytes)
environment_fields line comment in_service =
    let (before, value, found) = cut line b'=' in
    let directive = trim_right before blanks in
    if not found || comment
    then ok []
    else if not (contains directive (codes "Environment"))
    then ok []
    else if not (str_eq directive (codes "Environment"))
        || (not in_service || (contains_any value (codes "\"'\\%") || is_empty (trim_space value)))
    then err (not_read line)
    else ok (fields_func is_blank value)

add_at : List Bytes → Bytes → Option ℕ → Result Error (List Bytes)
add_at env field none = err (not_an_assignment field)
add_at env field (some sep) =
    let key = take (sep + 1) field in
    if leb sep 0 || not (valid_name (take sep field))
    then err (not_an_assignment field)
    else if any (λ set. has_prefix set key) env
    then err (set_twice key)
    else ok (env ++ field ∷ [])

unfoldable pub add_assignment : List Bytes → Bytes → Result Error (List Bytes)
unfolding add_at
add_assignment env field = add_at env field (index_byte field b'=')

-- the inner loop of `Parse`
unfoldable pub add_fields : List Bytes → List Bytes → Result Error (List Bytes)
add_fields env [] = ok env
add_fields env (field ∷ fields) = do env' ← add_assignment env field; add_fields env' fields

-- what the loop of `Parse` carries from line to line
pub record State : Type 0 where
  pub env : List Bytes
  pub in_service : Bool
  pub continued : Bool

-- one round of the loop of `Parse`
unfoldable pub parse_line : State → Bytes → Result Error State
parse_line s raw =
    let line = trim_left raw blanks in
    let comment = is_comment line in
    let goes_on = not comment && continues line in
    if s.continued
    then ok (record s { continued = comment || continues line })
    else if has_prefix line (codes "[")
    then ok (record s {
      continued = goes_on;
      in_service = str_eq (trim_right line (codes " \t\r")) (codes "[Service]");
    })
    else (do
      fields ← environment_fields line comment s.in_service
      env ← add_fields s.env fields
      ok (record s { continued = goes_on; env = env }))

unfoldable pub parse_lines : State → List Bytes → Result Error (List Bytes)
parse_lines s [] = ok s.env
parse_lines s (raw ∷ lines) = do s' ← parse_line s raw; parse_lines s' lines

unfoldable pub parse : Bytes → Result Error (List Bytes)
parse text =
    parse_lines (record { env = []; in_service = false; continued = false }) (split text b'\n')

-- an inherited variable that `Shipped` drops
unfoldable pub dropped : List Bytes → Bytes → Bool
dropped unit kv =
    let key = (cut kv b'=').0 in
    has_prefix kv (codes "MALLOC_")
    || (has_prefix kv (codes "GLIBC_TUNABLES=")
        || (has_prefix kv (codes "LD_PRELOAD=")
            || any (λ set. has_prefix set (key ++ codes "=")) unit))

unfoldable pub shipped_loop : List Bytes → List Bytes → List Bytes → List Bytes
shipped_loop unit env [] = env
shipped_loop unit env (kv ∷ inherited) =
    shipped_loop unit (if dropped unit kv then env else env ++ kv ∷ []) inherited

unfoldable pub shipped : List Bytes → List Bytes → List Bytes
unfolding shipped_loop
shipped unit inherited = shipped_loop unit unit inherited

-- `Check` of the bytes of `/proc/<pid>/environ`
unfoldable pub check_all : List Bytes → List Bytes → Result Error (Unit {0})
check_all have [] = ok tt
check_all have (kv ∷ want) = do guard (any (str_eq kv) have) (missing kv); check_all have want

unfoldable pub check : Bytes → List Bytes → Result Error (Unit {0})
unfolding check_all
check environ want = check_all (split environ 0) want
