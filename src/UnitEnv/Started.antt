-- ===== src/UnitEnv/Started.antt =====
-- A server started with the shipped environment passes the check of it.
use elodin.Common.{
  ℕ, ◌≡◌, refl, sym, ap, ◌∙◌, Bool, true, false, List, [], ◌∷◌, ◌++◌, All, any, append_assoc,
  append-nil, ◌==◌, Bytes, ok, Bool-cases, inl, inr, arith, All-append,
}
use mathlib.Core.Path.{subst}
use elodin.Text.{str_eq, str_eq_iff, split, mem_byte}
use elodin.UnitEnv.{shipped, shipped_loop, dropped, check, check_all}

-- the text of /proc/<pid>/environ: each entry is followed by a NUL byte
abbrev pub environ_of : List Bytes → Bytes
environ_of [] = []
environ_of (kv ∷ env) = kv ++ 0 ∷ environ_of env

abbrev pub HasNoNul : Bytes → Type 0
HasNoNul kv = mem_byte 0 kv ≡ false

zero_eq : (c : ℕ) → (c == 0) ≡ false → (0 == c) ≡ false
zero_eq c h = ground arith

split-entry : (kv rest : Bytes) → HasNoNul kv → split (kv ++ 0 ∷ rest) 0 ≡ kv ∷ split rest 0
unfolding split mem_byte
split-entry [] rest a = refl
split-entry (c ∷ kv) rest a = elim (Bool-cases (c == 0)) [
  | inl nul ↦ absurd (ground (arith, nul, a))
  | inr byte ↦ rw (split, byte, split-entry kv rest (rw (zero_eq c byte) at a)) refl
]

split-environ_of : (env : List Bytes) → All HasNoNul env → split (environ_of env) 0 ≡ env ++ [] ∷ []
unfolding split
split-environ_of [] a = refl
split-environ_of (kv ∷ env) a =
    split-entry kv (environ_of env) a.0 ∙ ap (◌∷◌ kv) (split-environ_of env a.1)

any-append : (p : Bytes → Bool) (xs ys : List Bytes) → any p xs ≡ true → any p (xs ++ ys) ≡ true
any-append p [] ys h = absurd cc
any-append p (x ∷ xs) ys h = elim (Bool-cases (p x)) [
  | inl here ↦ rw here refl
  | inr there ↦ rw there (any-append p xs ys (rw there at h))
]

any-middle : (xs ys : List Bytes) (kv : Bytes) → any (str_eq kv) (xs ++ kv ∷ ys) ≡ true
any-middle [] ys kv = rw ((str_eq_iff kv kv).1 refl) refl
any-middle (x ∷ xs) ys kv = elim (Bool-cases (str_eq kv x)) [
  | inl here ↦ rw here refl
  | inr there ↦ rw there (any-middle xs ys kv)
]

-- what is checked for is in front, behind what was already checked for
check_all-found : (seen want more : List Bytes) → check_all (seen ++ (want ++ more)) want ≡ ok tt
unfolding check_all
check_all-found seen [] more = refl
check_all-found seen (kv ∷ want) more =
    rw (check_all, any-middle seen (want ++ more) kv)
      (subst (λ have. check_all have want ≡ ok tt) (append_assoc seen (kv ∷ []) (want ++ more))
        (check_all-found (seen ++ kv ∷ []) want more))

shipped_loop-front :
    (unit env inherited : List Bytes)
    → All HasNoNul inherited
    → (more : List Bytes) × (shipped_loop unit env inherited ≡ env ++ more) × All HasNoNul more
unfolding shipped_loop
shipped_loop-front unit env [] a = ([], sym (append-nil env), tt)
shipped_loop-front unit env (kv ∷ inherited) a = elim (Bool-cases (dropped unit kv)) [
  | inl drops ↦
      let (more, e, b) = shipped_loop-front unit env inherited a.1 in
      (more, rw (shipped_loop, drops) e, b)
  | inr keeps ↦
      let (more, e, b) = shipped_loop-front unit (env ++ kv ∷ []) inherited a.1 in
      (kv ∷ more, rw (shipped_loop, keeps) (e ∙ append_assoc env (kv ∷ []) more), (a.0, b))
]

-- For assignments and an inherited environment whose entries have no NUL byte, `Check` of a process
-- that was started with what `Shipped` returns finds every assignment.
pub check-shipped :
    (unit inherited : List Bytes)
    → All HasNoNul unit
    → All HasNoNul inherited
    → check (environ_of (shipped unit inherited)) unit ≡ ok tt
unfolding check shipped
check-shipped unit inherited a b =
    let (more, e, c) = shipped_loop-front unit unit inherited b in
    ap (λ env. check_all (split (environ_of env) 0) unit) e
    ∙ ap (λ have. check_all have unit)
        (split-environ_of (unit ++ more) (All-append HasNoNul unit more a c)
          ∙ append_assoc unit more ([] ∷ []))
    ∙ check_all-found [] unit (more ++ [] ∷ [])
