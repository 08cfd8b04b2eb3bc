-- ===== src/Bench/Competitors.antt =====
-- bench/cmd/bench/competitors.go, and addServers in main.go: which servers are compared.
--
-- Whether a binary is found is input: the path of the one found first. A server's configuration is not
-- modelled.
use elodin.Common.{
  Bool, true, false, not, Option, none, some, List, [], ◌∷◌, ◌++◌, any, if◌then◌else◌, Bytes, codes,
  Result, ok, err, ◌>>=◌,
}
use elodin.Text.{str_eq, split, trim_space}

pub record Kind : Type 0 where
  pub name : Bytes
  pub bin : Bytes
  pub transports : List Bytes
  pub blocks : Bool

abbrev pub udp : Bytes
udp = codes "udp"

abbrev pub tcp : Bytes
tcp = codes "tcp"

abbrev pub dot : Bytes
dot = codes "dot"

abbrev pub doh1 : Bytes
doh1 = codes "doh1"

abbrev pub doh2 : Bytes
doh2 = codes "doh2"

abbrev kind : Bytes → Bytes → List Bytes → Bool → Kind
kind name bin transports blocks = record {
  name = name;
  bin = bin;
  transports = transports;
  blocks = blocks;
}

unfoldable pub competitors : List Kind
competitors =
    kind (codes "adguardhome") (codes "adguardhome") (udp ∷ tcp ∷ dot ∷ doh1 ∷ doh2 ∷ []) true
    ∷ kind (codes "blocky") (codes "blocky") (udp ∷ tcp ∷ dot ∷ doh1 ∷ []) true
    ∷ kind (codes "coredns") (codes "coredns") (udp ∷ tcp ∷ dot ∷ doh1 ∷ doh2 ∷ []) false
    ∷ kind (codes "dnsmasq") (codes "dnsmasq") (udp ∷ []) true
    ∷ kind (codes "pdns") (codes "pdns_recursor") (udp ∷ tcp ∷ []) true
    ∷ kind (codes "dnsdist") (codes "dnsdist") (udp ∷ tcp ∷ dot ∷ doh2 ∷ []) true
    ∷ kind (codes "bind") (codes "named") (udp ∷ tcp ∷ dot ∷ doh2 ∷ []) true
    ∷ kind (codes "pihole") (codes "pihole-FTL") (udp ∷ tcp ∷ []) true
    ∷ kind (codes "knot") (codes "kresd") (udp ∷ tcp ∷ dot ∷ doh2 ∷ []) true
    ∷ []

-- `competitors[k]`
abbrev pub lookup : Bytes → List Kind → Option Kind
lookup k [] = none
lookup k (c ∷ cs) = let later = lookup k cs in if str_eq c.name k then some c else later

unfoldable pub find_kind : Bytes → Option Kind
unfolding competitors str_eq
find_kind k = lookup k competitors

unfoldable pub supports : Bytes → Bytes → Bool
unfolding find_kind str_eq
supports k transport =
    if str_eq k (codes "elodin")
    then true
    else if str_eq k (codes "unbound")
    then not (str_eq transport doh1)
    else elim (find_kind k) [
      | none ↦ false
      | some c ↦
          if str_eq transport (codes "block")
          then c.blocks
          else any (λ t. str_eq t transport) c.transports
    ]

-- the part of the harness that `addServers` changes
pub record Harness : Type 0 where
  pub unbound : Option Bytes
  pub bins : List (Bytes × Bytes)
  pub kinds : List Bytes
  pub skipped : List Bytes

-- `log.Fatalf`
pub data Fatal : Type 0 where
  unknown_server compare_only : Bytes → Fatal

-- `addCompetitor`, where `-only` is `only` and `find` gives the binary of that name
unfoldable pub add_competitor :
    Bytes → (Bytes → Option Bytes) → Bytes → Harness → Result Fatal Harness
unfolding find_kind str_eq
add_competitor only find k h = elim (find_kind k) [
  | none ↦ err (unknown_server k)
  | some c ↦
      if not (str_eq only (codes "compare")) then err (compare_only k) else elim (find c.bin) [
        | none ↦ ok (record h { skipped = h.skipped ++ k ∷ [] })
        | some path ↦ ok (record h { bins = (k, path) ∷ h.bins; kinds = h.kinds ++ k ∷ [] })
      ]
]

-- one name of `addServers`
unfoldable pub add_server :
    Bytes → (Bytes → Option Bytes) → Option Bytes → Bytes → Harness → Result Fatal Harness
unfolding add_competitor str_eq
add_server only find unbound k h =
    if str_eq k (codes "elodin")
    then ok (record h { kinds = h.kinds ++ k ∷ [] })
    else if str_eq k (codes "unbound")
    then elim unbound [
      | some path ↦ ok (record h { unbound = some path; kinds = h.kinds ++ k ∷ [] })
      | none ↦ ok (record h { skipped = h.skipped ++ k ∷ [] })
    ]
    else if str_eq k []
    then ok h
    else add_competitor only find k h

unfoldable pub add_names :
    Bytes → (Bytes → Option Bytes) → Option Bytes → List Bytes → Harness → Result Fatal Harness
unfolding add_server trim_space
add_names only find unbound [] h = ok h
add_names only find unbound (k ∷ ks) h =
    add_server only find unbound (trim_space k) h >>= λ h'. add_names only find unbound ks h'

abbrev pub all_servers : Bytes
all_servers =
    codes "elodin,unbound,adguardhome,blocky,pihole,coredns,dnsmasq,pdns,dnsdist,bind,knot"

-- `addServers`: a server that is skipped is held by its name
unfoldable pub add_servers :
    Bytes → (Bytes → Option Bytes) → Option Bytes → Bytes → Harness → Result Fatal Harness
unfolding add_names str_eq split
add_servers only find unbound list h =
    add_names only find unbound
      (split (if str_eq list (codes "all") then all_servers else list) b',') h
