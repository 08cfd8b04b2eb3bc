-- ===== src/UnitEnv/Effective.antt =====
-- What a process that is started with `Shipped` sees: of a name set twice, the last entry.
use elodin.Common.{
  ◌≡◌, refl, ◌∙◌, List, [], ◌∷◌, ◌++◌, Bool, true, false, ◌||◌, if◌then◌else◌, arith, Bytes, any,
  Option, none, some, inl, inr, Bool-cases, codes,
}
use elodin.Text.{has_prefix, cut, str_eq}
use elodin.Text.Names.{Lacks}
use elodin.UnitEnv.{dropped, shipped, shipped_loop}

-- The last entry that sets `name`, which is the one a process sees.
abbrev pub sets : Bytes → Bytes → Bool
sets name kv = has_prefix kv (name ++ b'=' ∷ [])

abbrev pub or_else {ℓ} : {A : Type ℓ} → Option A → Option A → Option A
or_else (some a) b = some a
or_else none b = b

abbrev pub last_entry : Bytes → List Bytes → Option Bytes
last_entry name [] = none
last_entry name (kv ∷ env) = or_else (last_entry name env) (if sets name kv then some kv else none)

-- The names that choose or replace the allocator.
abbrev pub is_allocator : Bytes → Bool
is_allocator name =
    has_prefix name (codes "MALLOC_")
    || (str_eq name (codes "GLIBC_TUNABLES") || str_eq name (codes "LD_PRELOAD"))

last_entry-append :
    (name : Bytes) (xs ys : List Bytes)
    → last_entry name (xs ++ ys) ≡ or_else (last_entry name ys) (last_entry name xs)
last_entry-append name [] ys = ground arith
last_entry-append name (kv ∷ xs) ys = rw (last_entry-append name xs ys) (ground arith)

-- A prefix without `=` of an assignment is a prefix of its name.
has_prefix-name :
    (name kv p : Bytes) → Lacks b'=' p → sets name kv ≡ true → has_prefix kv p ≡ has_prefix name p
unfolding has_prefix
has_prefix-name name kv [] l h = refl
has_prefix-name [] [] (d ∷ p) l h = cc
has_prefix-name [] (c ∷ kv) (d ∷ p) l h = ground arith
has_prefix-name (a ∷ name) [] (d ∷ p) l h = cc
has_prefix-name (a ∷ name) (c ∷ kv) (d ∷ p) l h = ground (arith, has_prefix-name name kv p l.1)

-- A prefix that ends in `=` of an assignment names it.
has_prefix-whole :
    (name kv p : Bytes)
    → Lacks b'=' p
    → Lacks b'=' name
    → sets name kv ≡ true
    → has_prefix kv (p ++ b'=' ∷ []) ≡ str_eq name p
unfolding has_prefix str_eq
has_prefix-whole [] [] p l m h = cc
has_prefix-whole [] (c ∷ kv) [] l m h = h
has_prefix-whole [] (c ∷ kv) (d ∷ p) l m h = ground arith
has_prefix-whole (a ∷ name) [] p l m h = cc
has_prefix-whole (a ∷ name) (c ∷ kv) [] l m h = ground arith
has_prefix-whole (a ∷ name) (c ∷ kv) (d ∷ p) l m h =
    ground (arith, has_prefix-whole name kv p l.1 m.1)

cut-name : (name kv : Bytes) → Lacks b'=' name → sets name kv ≡ true → (cut kv b'=').0 ≡ name
unfolding has_prefix cut
cut-name [] [] l h = cc
cut-name [] (c ∷ kv) l h = ground arith
cut-name (a ∷ name) [] l h = cc
cut-name (a ∷ name) (c ∷ kv) l h = ground (arith, cut-name name kv l.1)

-- The test of `Shipped` on an entry depends on the name that it sets alone.
dropped-name :
    (unit : List Bytes) (name kv : Bytes)
    → Lacks b'=' name
    → sets name kv ≡ true
    → dropped unit kv ≡ (is_allocator name || any (sets name) unit)
unfolding dropped
dropped-name unit name kv l h =
    rw
      (
        cut-name name kv l h,
        has_prefix-name name kv (codes "MALLOC_") (omega arith) h,
        has_prefix-whole name kv (codes "GLIBC_TUNABLES") (omega arith) l h,
        has_prefix-whole name kv (codes "LD_PRELOAD") (omega arith) l h,
      )
      (ground arith)

shipped_loop-last :
    (unit : List Bytes) (name : Bytes) (env inherited : List Bytes)
    → Lacks b'=' name
    → last_entry name (shipped_loop unit env inherited)
      ≡ or_else
          (if is_allocator name || any (sets name) unit then none else last_entry name inherited)
          (last_entry name env)
unfolding shipped_loop
shipped_loop-last unit name env [] l = ground arith
shipped_loop-last unit name env (kv ∷ inherited) l = elim (Bool-cases (sets name kv)) [
  | inl e ↦ ground (
    arith,
    shipped_loop-last unit name (if dropped unit kv then env else env ++ kv ∷ []) inherited l,
    dropped-name unit name kv l e,
    last_entry-append name env (kv ∷ []),
  )
  | inr e ↦ ground (
    arith,
    shipped_loop-last unit name (if dropped unit kv then env else env ++ kv ∷ []) inherited l,
    last_entry-append name env (kv ∷ []),
  )
]

any-last_entry :
    (name : Bytes) (env : List Bytes) → any (sets name) env ≡ false → last_entry name env ≡ none
any-last_entry name [] h = refl
any-last_entry name (kv ∷ env) h = ground (arith, any-last_entry name env)

last_entry-any :
    (name : Bytes) (env : List Bytes)
    → any (sets name) env ≡ true
    → (e : Bytes) × (last_entry name env ≡ some e)
last_entry-any name [] h = cc
last_entry-any name (kv ∷ env) h = elim (Bool-cases (any (sets name) env)) [
  | inl later ↦ let (e, found) = last_entry-any name env later in (e, rw found)
  | inr none_later ↦ (kv, ground (arith, any-last_entry name env none_later))
]

-- In what `Shipped` returns, a name has the unit's last entry for it where the unit sets it; else no entry
-- where the name is GLIBC_TUNABLES, LD_PRELOAD or begins with MALLOC_; and else the last inherited
-- entry. The name holds no `=`; the unit's own entries and the inherited ones are any texts.
pub last_entry-shipped :
    (unit inherited : List Bytes) (name : Bytes)
    → Lacks b'=' name
    → last_entry name (shipped unit inherited)
      ≡ or_else
          (last_entry name unit)
          (if is_allocator name then none else last_entry name inherited)
unfolding shipped
last_entry-shipped unit inherited name l = elim (Bool-cases (any (sets name) unit)) [
  | inl set ↦
      let (e, found) = last_entry-any name unit set in
      shipped_loop-last unit name unit inherited l ∙ rw (set, found) (ground arith)
  | inr unset ↦
      shipped_loop-last unit name unit inherited l
      ∙ rw (unset, any-last_entry name unit unset) (ground arith)
]
