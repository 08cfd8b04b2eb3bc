-- ===== src/Bench/Compared.antt =====
-- Which of the servers asked for are compared.
use elodin.Common.{
  ◌≡◌, refl, sym, ap, ◌∙◌, Bool, true, false, not, ◌||◌, Option, none, some, List, [], ◌∷◌, ◌++◌,
  All, map, filter, filter-append, append_assoc, append-nil, is_none, if◌then◌else◌, Bytes, codes,
  Result, ok, Bool-cases, Option-cases, inl, inr, ◌>>=◌,
}
use mathlib.Core.Path.{subst}
use elodin.Text.{str_eq, str_eq_iff, split, trim_space}
use elodin.Bench.Competitors.{
  Kind, find_kind, Harness, Fatal, add_competitor, add_server, add_names, add_servers, all_servers,
}

-- a server that there are rows for
abbrev pub is_known : Bytes → Bool
is_known k =
    str_eq k (codes "elodin")
    || (str_eq k (codes "unbound") || (str_eq k [] || not (is_none (find_kind k))))

-- its binary is found; elodin's is not looked for
abbrev pub is_found : (Bytes → Option Bytes) → Option Bytes → Bytes → Bool
is_found find unbound k =
    if str_eq k (codes "elodin")
    then true
    else if str_eq k (codes "unbound")
    then not (is_none unbound)
    else elim (find_kind k) [ none ↦ false | some c ↦ not (is_none (find c.bin)) ]

-- the names asked for
abbrev pub asked_for : List Bytes → List Bytes
asked_for ks = filter (λ k. not (str_eq k [])) (map trim_space ks)

module _ (find : Bytes → Option Bytes) (unbound : Option Bytes) where
  -- what some names add to the harness
  abbrev pub Adds : List Bytes → Harness → Result Fatal Harness → Type 0
  Adds names h r =
      (h' : Harness) × (r ≡ ok h')
      × (h'.kinds ≡ h.kinds ++ filter (is_found find unbound) names)
      × (h'.skipped ≡ h.skipped ++ filter (λ k. not (is_found find unbound k)) names)

  -- one name
  abbrev AddsName : Bytes → Harness → Type 0
  AddsName k h =
      Adds (filter (λ k. not (str_eq k [])) (k ∷ [])) h
        (add_server (codes "compare") find unbound k h)

-- the names that are not those of competitors
add_server-elodin :
    (find : Bytes → Option Bytes) (unbound : Option Bytes) (h : Harness)
    → AddsName find unbound (codes "elodin") h
unfolding add_server str_eq
add_server-elodin find unbound h = (_, refl, refl, sym (append-nil h.skipped))

add_server-unbound :
    (find : Bytes → Option Bytes) (unbound : Option Bytes) (h : Harness)
    → AddsName find unbound (codes "unbound") h
unfolding add_server str_eq
add_server-unbound find none h = (_, refl, sym (append-nil h.kinds), refl)
add_server-unbound find (some path) h = (_, refl, refl, sym (append-nil h.skipped))

add_server-blank :
    (find : Bytes → Option Bytes) (unbound : Option Bytes) (h : Harness)
    → AddsName find unbound [] h
unfolding add_server str_eq
add_server-blank find unbound h = (h, refl, sym (append-nil h.kinds), sym (append-nil h.skipped))

-- a competitor, by whether its binary is found
add_competitor-Adds :
    (find : Bytes → Option Bytes) (k : Bytes) (h : Harness) (c : Kind)
    → find_kind k ≡ some c
    → (h' : Harness) × (add_competitor (codes "compare") find k h ≡ ok h')
      × (h'.kinds ≡ h.kinds ++ filter (λ _. not (is_none (find c.bin))) (k ∷ []))
      × (h'.skipped ≡ h.skipped ++ filter (λ _. not (not (is_none (find c.bin)))) (k ∷ []))
unfolding add_competitor str_eq
add_competitor-Adds find k h c is_kind = elim (Option-cases (find c.bin)) [
  | inl lacks ↦ (
    record h { skipped = h.skipped ++ k ∷ [] },
    rw (add_competitor, is_kind, lacks) refl,
    rw lacks (sym (append-nil h.kinds)),
    rw lacks refl,
  )
  | inr (path, has) ↦ (
    record h { bins = (k, path) ∷ h.bins; kinds = h.kinds ++ k ∷ [] },
    rw (add_competitor, is_kind, has) refl,
    rw has refl,
    rw has (sym (append-nil h.skipped)),
  )
]

some_kind : (o : Option Kind) → not (is_none o) ≡ true → (c : Kind) × (o ≡ some c)
some_kind none h = absurd cc
some_kind (some c) h = (c, refl)

filter-named : (k : Bytes) → str_eq k [] ≡ false → filter (λ k. not (str_eq k [])) (k ∷ []) ≡ k ∷ []
filter-named k named = rw (filter, named) refl

add_server-other :
    (find : Bytes → Option Bytes) (unbound : Option Bytes) (k : Bytes) (h : Harness) (c : Kind)
    → str_eq k (codes "elodin") ≡ false
    → str_eq k (codes "unbound") ≡ false
    → str_eq k [] ≡ false
    → find_kind k ≡ some c
    → AddsName find unbound k h
unfolding add_server
add_server-other find unbound k h c not_elodin not_unbound named is_kind =
    let (h', added, kinds, skipped) = add_competitor-Adds find k h c is_kind in
    let found : is_found find unbound k ≡ not (is_none (find c.bin)) =
      rw (not_elodin, not_unbound, is_kind) refl in
    let same : add_server (codes "compare") find unbound k h ≡ ok h' =
      rw (add_server, not_elodin, not_unbound, named) added in
    subst (λ names. Adds find unbound names h (add_server (codes "compare") find unbound k h))
      (sym (filter-named k named))
      (
        h',
        same,
        kinds ∙ ap (λ b. h.kinds ++ filter (λ _. b) (k ∷ [])) (sym found),
        skipped ∙ ap (λ b. h.skipped ++ filter (λ _. not b) (k ∷ [])) (sym found),
      )

add_server-Adds :
    (find : Bytes → Option Bytes) (unbound : Option Bytes) (k : Bytes) (h : Harness)
    → is_known k ≡ true
    → AddsName find unbound k h
add_server-Adds find unbound k h known = elim (Bool-cases (str_eq k (codes "elodin"))) [
  | inl is ↦
      subst (λ k. AddsName find unbound k h) (sym ((str_eq_iff k (codes "elodin")).0 is))
        (add_server-elodin find unbound h)
  | inr not_elodin ↦ elim (Bool-cases (str_eq k (codes "unbound"))) [
    | inl is ↦
        subst (λ k. AddsName find unbound k h) (sym ((str_eq_iff k (codes "unbound")).0 is))
          (add_server-unbound find unbound h)
    | inr not_unbound ↦ elim (Bool-cases (str_eq k [])) [
      | inl is ↦
          subst (λ k. AddsName find unbound k h) (sym ((str_eq_iff k []).0 is))
            (add_server-blank find unbound h)
      | inr named ↦
          let (c, is_kind) =
            some_kind (find_kind k) (rw (not_elodin, not_unbound, named) at known) in
          add_server-other find unbound k h c not_elodin not_unbound named is_kind
    ]
  ]
]

asked_for-cons :
    (k : Bytes) (ks : List Bytes)
    → asked_for (k ∷ ks) ≡ filter (λ k. not (str_eq k [])) (trim_space k ∷ []) ++ asked_for ks
asked_for-cons k ks = filter-append (λ k. not (str_eq k [])) (trim_space k ∷ []) (map trim_space ks)

add_names-Adds :
    (find : Bytes → Option Bytes) (unbound : Option Bytes) (ks : List Bytes) (h : Harness)
    → All (λ k. is_known (trim_space k) ≡ true) ks
    → Adds find unbound (asked_for ks) h (add_names (codes "compare") find unbound ks h)
unfolding add_names
add_names-Adds find unbound [] h known =
    (h, refl, sym (append-nil h.kinds), sym (append-nil h.skipped))
add_names-Adds find unbound (k ∷ ks) h (here, known) =
    let (h', added, kinds, skipped) = add_server-Adds find unbound (trim_space k) h here in
    let (h'', more, kinds', skipped') = add_names-Adds find unbound ks h' known in
    let first = filter (λ k. not (str_eq k [])) (trim_space k ∷ []) in
    (
      h'',
      ap (λ r. r >>= λ h. add_names (codes "compare") find unbound ks h) added ∙ more,
      joined (is_found find unbound) k ks h.kinds h'.kinds h''.kinds kinds kinds',
      joined (λ k. not (is_found find unbound k)) k ks h.skipped h'.skipped h''.skipped skipped
          skipped',
    )
  where
    joined :
        (p : Bytes → Bool) (k : Bytes) (ks start mid end : List Bytes)
        → mid ≡ start ++ filter p (filter (λ k. not (str_eq k [])) (trim_space k ∷ []))
        → end ≡ mid ++ filter p (asked_for ks)
        → end ≡ start ++ filter p (asked_for (k ∷ ks))
    joined p k ks start mid end e e' =
        let first = filter (λ k. not (str_eq k [])) (trim_space k ∷ []) in
        e'
        ∙ ap (λ l. l ++ filter p (asked_for ks)) e
        ∙ append_assoc start (filter p first) (filter p (asked_for ks))
        ∙ ap (λ l. start ++ l)
            (sym (filter-append p first (asked_for ks)) ∙ sym (ap (filter p) (asked_for-cons k ks)))

-- For `-only compare` and a list of servers that there are rows for, or `all` where it stands for such
-- a list, `addServers` goes through: the servers compared are those asked for that are found, in their
-- order, and the ones skipped are the others. Blanks round a name and empty names do not count.
pub add_servers-Adds :
    (find : Bytes → Option Bytes) (unbound : Option Bytes) (list : Bytes) (h : Harness)
    → let names = split (if str_eq list (codes "all") then all_servers else list) b',' in
      All (λ k. is_known (trim_space k) ≡ true) names
      → Adds find unbound (asked_for names) h (add_servers (codes "compare") find unbound list h)
unfolding add_servers
add_servers-Adds find unbound list h known = add_names-Adds find unbound _ h known
