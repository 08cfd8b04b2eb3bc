-- ===== src/UnitEnv/Assignments.antt =====
-- What `Parse` accepts: assignments to valid names, each set once.
use elodin.Common.{
  ℕ, zero, suc, ◌+◌, ◌≡◌, ◌≢◌, refl, sym, ap, >>=-eq-ok, ◌∙◌, List, [], ◌∷◌, ◌++◌, true, false,
  ◌||◌, arith, Bytes, take, drop, any, some, Option-cases, ok, Result-cases, inl, inr, All,
  All-append, map, Bool-cases, codes, ◌⊎◌,
}
use mathlib.Core.Path.{ap₂, subst}
use elodin.Text.{index_byte, trim_left, has_prefix, split}
use elodin.UnitEnv.{
  blanks, is_comment, environment_fields, valid_name, add_assignment, add_fields, State, parse_line,
  parse_lines, parse,
}

-- An environment of assignments: a name that systemd takes, `=` and a value, for each a pair of the two,
-- no name twice.
abbrev pub assignment : Bytes × Bytes → Bytes
assignment a = a.0 ++ (b'=' ∷ a.1)

abbrev pub NamesDiffer : Bytes × Bytes → List (Bytes × Bytes) → Type 0
NamesDiffer a = All (λ b. b.0 ≢ a.0)

abbrev pub Distinct : List (Bytes × Bytes) → Type 0
Distinct [] = Unit
Distinct (a ∷ as') = NamesDiffer a as' × Distinct as'

abbrev pub IsEnvironment : List Bytes → Type 0
IsEnvironment env =
    (pairs : List (Bytes × Bytes)) × (env ≡ map assignment pairs)
    × All (λ a. valid_name a.0 ≡ true) pairs
    × Distinct pairs

index_byte-some :
    (s : Bytes) (b i : ℕ)
    → index_byte s b ≡ some i
    → (s ≡ take i s ++ (b ∷ drop (i + 1) s)) × (take (i + 1) s ≡ take i s ++ (b ∷ []))
unfolding index_byte
index_byte-some [] b i h = cc
index_byte-some (c ∷ s) b zero h = let e : c ≡ b = ground arith in rw e (refl, refl)
index_byte-some (c ∷ s) b (suc i) h =
    let found : index_byte s b ≡ some i = ground arith in
    let (whole, key) = index_byte-some s b i found in
    let e : suc i + 1 ≡ suc (i + 1) = omega arith in rw e (ap (◌∷◌ c) whole, ap (◌∷◌ c) key)

has_prefix_self :
    (name value : Bytes) → has_prefix (name ++ (b'=' ∷ value)) (name ++ (b'=' ∷ [])) ≡ true
unfolding has_prefix
has_prefix_self [] [] = refl
has_prefix_self [] (c ∷ value) = refl
has_prefix_self (c ∷ name) value = ground (arith, has_prefix_self name value)

any-NamesDiffer :
    (name value : Bytes) (pairs : List (Bytes × Bytes))
    → any (λ set. has_prefix set (name ++ (b'=' ∷ []))) (map assignment pairs) ≡ false
    → NamesDiffer (name, value) pairs
any-NamesDiffer name value [] h = tt
any-NamesDiffer name value (p ∷ pairs) h =
    let other : has_prefix (p.0 ++ (b'=' ∷ p.1)) (name ++ (b'=' ∷ [])) ≡ false = ground arith in
    let rest : any (λ set. has_prefix set (name ++ (b'=' ∷ []))) (map assignment pairs) ≡ false =
      ground arith in
    (
      λ same. cc (rw (← same) at other, has_prefix_self p.0 p.1),
      any-NamesDiffer name value pairs rest,
    )

add_assignment-ok :
    (env env' : List Bytes) (field : Bytes)
    → add_assignment env field ≡ ok env'
    → (name value : Bytes) × (field ≡ name ++ (b'=' ∷ value))
      × (valid_name name ≡ true)
      × (any (λ set. has_prefix set (name ++ (b'=' ∷ []))) env ≡ false)
      × (env' ≡ env ++ field ∷ [])
unfolding add_assignment
add_assignment-ok env env' field h = elim (Option-cases (index_byte field b'=')) [
  | inl e ↦ cc (rw e at h)
  | inr (i, e) ↦
      let (whole, key) = index_byte-some field b'=' i e in
      let h' = rw (e, key) at h in
      (take i field, drop (i + 1) field, whole, ground arith, ground arith, ground arith)
]

map-append :
    (f : Bytes × Bytes → Bytes) (ps qs : List (Bytes × Bytes))
    → map f (ps ++ qs) ≡ map f ps ++ map f qs
map-append f [] qs = refl
map-append f (p ∷ ps) qs = ap (◌∷◌ (f p)) (map-append f ps qs)

Distinct-append :
    (ps : List (Bytes × Bytes)) (q : Bytes × Bytes)
    → Distinct ps
    → NamesDiffer q ps
    → Distinct (ps ++ q ∷ [])
Distinct-append [] q d n = (tt, tt)
Distinct-append (p ∷ ps) q d n = (
  All-append (λ b. b.0 ≢ p.0) ps (q ∷ []) d.0 (λ e. n.0 (sym e), tt),
  Distinct-append ps q d.1 n.1,
)

add_assignment-IsEnvironment :
    (env env' : List Bytes) (field : Bytes)
    → IsEnvironment env
    → add_assignment env field ≡ ok env'
    → IsEnvironment env'
add_assignment-IsEnvironment env env' field (pairs, shape, named, distinct) h =
    let (name, value, whole, valid, unused, grown) = add_assignment-ok env env' field h in
    (
      pairs ++ (name, value) ∷ [],
      grown
          ∙ (ap₂ (λ (e : List Bytes) (f : Bytes). e ++ f ∷ []) shape whole
              ∙ sym (map-append assignment pairs ((name, value) ∷ []))),
      All-append (λ a. valid_name a.0 ≡ true) pairs ((name, value) ∷ []) named (valid, tt),
      Distinct-append pairs (name, value) distinct
          (any-NamesDiffer name value pairs (rw shape at unused)),
    )

add_fields-IsEnvironment :
    (fields env env' : List Bytes)
    → IsEnvironment env
    → add_fields env fields ≡ ok env'
    → IsEnvironment env'
unfolding add_fields
add_fields-IsEnvironment [] env env' v h = subst IsEnvironment (ground arith) v
add_fields-IsEnvironment (f ∷ fields) env env' v h =
    let (mid, first, later) = >>=-eq-ok (add_assignment env f) (λ e. add_fields e fields) h in
    add_fields-IsEnvironment fields mid env' (add_assignment-IsEnvironment env mid f v first) later

-- A line leaves the environment as it is, or adds the fields of its value.
parse_line-env :
    (s s' : State) (raw : Bytes)
    → parse_line s raw ≡ ok s'
    → (s'.env ≡ s.env) ⊎ ((fields : List Bytes) × (add_fields s.env fields ≡ ok s'.env))
unfolding parse_line
parse_line-env s s' raw h =
    let line = trim_left raw blanks in
    elim (Bool-cases (s.continued || has_prefix line (codes "["))) [
      | inl e ↦ inl (ground arith)
      | inr e ↦ elim (Result-cases (environment_fields line (is_comment line) s.in_service)) [
        | inl (fields, f) ↦ elim (Result-cases (add_fields s.env fields)) [
          | inl (env, g) ↦ inr (fields, g ∙ ap ok (ground arith))
          | inr (x, g) ↦ inl (ground arith)
        ]
        | inr (x, f) ↦ inl (ground arith)
      ]
    ]

parse_line-IsEnvironment :
    (s s' : State) (raw : Bytes)
    → IsEnvironment s.env
    → parse_line s raw ≡ ok s'
    → IsEnvironment s'.env
parse_line-IsEnvironment s s' raw v h = elim (parse_line-env s s' raw h) [
  | inl same ↦ subst IsEnvironment (sym same) v
  | inr (fields, added) ↦ add_fields-IsEnvironment fields s.env s'.env v added
]

parse_lines-IsEnvironment :
    (lines env : List Bytes) (s : State)
    → IsEnvironment s.env
    → parse_lines s lines ≡ ok env
    → IsEnvironment env
unfolding parse_lines
parse_lines-IsEnvironment [] env s v h = subst IsEnvironment (ground arith) v
parse_lines-IsEnvironment (raw ∷ lines) env s v h =
    let (s', first, later) = >>=-eq-ok (parse_line s raw) (λ t. parse_lines t lines) h in
    parse_lines-IsEnvironment lines env s' (parse_line-IsEnvironment s s' raw v first) later

-- Every entry that `Parse` returns is a name that systemd takes, `=` and a value, and no name is set
-- twice, whatever text it accepts.
pub parse-IsEnvironment :
    (text : Bytes) (env : List Bytes) → parse text ≡ ok env → IsEnvironment env
unfolding parse
parse-IsEnvironment text env h =
    parse_lines-IsEnvironment (split text b'\n') env
      (record { env = []; in_service = false; continued = false }) ([], refl, tt, tt) h
