-- ===== src/Experiment/Matrix.antt =====
-- bench/cmd/rrlexp: the arms of the experiment, their settings in server.go and main.go, and runMatrix.
--
-- Which addresses a socket can be bound to, what `net.ParseIP` makes of a text, and what an arm that runs
-- brings are input. Times are nanoseconds. The text of a template is the text between its verbs.
use elodin.Common.{
  ℕ, Bool, false, not, ◌||◌, Option, none, some, List, [], ◌∷◌, ◌++◌, ltb, if◌then◌else◌, Bytes,
  codes, take, Result, ok, err,
}
use elodin.Text.{str_eq, contains, decimal}
use elodin.Experiment.Client.{ClientSpec, Stats}
use elodin.Experiment.Mock.{Mode}
use elodin.Experiment.Recovery.{Sample}

-- the upstream that an arm takes away, and how
pub record FailSpec : Type 0 where
  pub mode : Mode
  pub strategy : Bytes
  pub alone : Bool
  pub stale : Bool
  pub ttl : ℕ

pub record Arm : Type 0 where
  pub name : Bytes
  pub question : Bytes
  pub dur : ℕ
  pub sample : ℕ
  pub fail : Option FailSpec
  pub listen : Bytes
  pub limiter : Bool
  pub rps : ℕ
  pub slip : ℕ
  pub max_conns : ℕ
  pub per_prefix : ℕ
  pub client_timeout : ℕ
  pub max_pending : ℕ
  pub readers : ℕ
  pub cache_entries : ℕ
  pub attacker : Option ClientSpec
  pub victim : ClientSpec

pub record Row : Type 0 where
  pub arm : Arm
  pub victim : Stats
  pub attacker : Option Stats
  pub elapsed : ℕ
  pub cpu : ℕ
  pub peak_rss : ℕ
  pub srv : List (Bytes × ℕ)
  pub samples : List Sample
  pub down_at : ℕ
  pub up_at : ℕ

pub record Skip : Type 0 where
  pub name : Bytes
  pub why : Bytes

unfoldable pub arm_listen : Arm → Bytes
unfolding str_eq
arm_listen a = if str_eq a.listen [] then codes "127.0.0.1" else a.listen

-- `ip.To4() != nil` of the 16 bytes of an address
unfoldable pub to4 : Bytes → Bool
unfolding str_eq
to4 ip = str_eq (take 12 ip) (0 ∷ 0 ∷ 0 ∷ 0 ∷ 0 ∷ 0 ∷ 0 ∷ 0 ∷ 0 ∷ 0 ∷ 255 ∷ 255 ∷ [])

unfoldable pub is_v6 : (Bytes → Option Bytes) → Bytes → Bool
unfolding to4
is_v6 parse_ip addr = elim (parse_ip addr) [ none ↦ false | some ip ↦ not (to4 ip) ]

unfoldable pub probe_src_for : (Bytes → Option Bytes) → Bytes → Bytes
unfolding is_v6
probe_src_for parse_ip listen = if is_v6 parse_ip listen then codes "::1" else codes "127.8.0.1"

unfoldable pub bind_hint : (Bytes → Option Bytes) → Bytes → Bytes
unfolding is_v6
bind_hint parse_ip addr =
    if not (is_v6 parse_ip addr)
    then codes "no local address"
    else codes "sudo ip -6 addr add " ++ addr ++ codes "/128 dev lo"

unfoldable pub arm_cache : Arm → ℕ
arm_cache a = if ltb 0 a.cache_entries then a.cache_entries else 400000

unfoldable pub arm_duration : ℕ → Arm → ℕ
arm_duration flag a = if ltb 0 a.dur then a.dur else flag

unfoldable pub rate_limit_block : Arm → Bytes
unfolding decimal
rate_limit_block a =
    if not a.limiter
    then codes "    enabled: false"
    else codes "    enabled: true\n    responses_per_second: "
      ++ decimal a.rps
      ++ codes "\n    slip: "
      ++ decimal a.slip

-- a setting of an arm, written only where the arm sets it; `show` is the text of its value
abbrev pub setting : Bytes → (ℕ → Bytes) → ℕ → Bytes
setting key show v = if ltb 0 v then codes "  " ++ key ++ codes ": " ++ show v ++ codes "\n" else []

-- `connectionBlock`, where `duration_text` is the text of a time
unfoldable pub connection_block : (ℕ → Bytes) → Arm → Bytes
unfolding decimal
connection_block duration_text a =
    setting (codes "max_connections") decimal a.max_conns
    ++ setting (codes "max_connections_per_prefix") decimal a.per_prefix
    ++ setting (codes "client_timeout") duration_text a.client_timeout
    ++ setting (codes "max_pending") decimal a.max_pending

unfoldable pub readers_line : Arm → Bytes
unfolding decimal
readers_line a =
    if ltb 0 a.readers then codes "    readers: " ++ decimal a.readers ++ codes "\n" else []

-- the addresses that an arm needs
unfoldable pub needed : Arm → List Bytes
unfolding arm_listen
needed a = arm_listen a ∷ a.victim.src ∷ elim a.attacker [ none ↦ [] | some c ↦ c.src ∷ [] ]

-- the loop of `unusable`: the first address that no socket can be bound to
unfoldable pub unusable_loop : (Bytes → Bool) → List Bytes → Option Bytes
unfolding str_eq
unusable_loop bindable [] = none
unusable_loop bindable (addr ∷ addrs) =
    let later = unusable_loop bindable addrs in
    if str_eq addr [] || bindable addr then later else some addr

unfoldable pub unusable : (Bytes → Option Bytes) → (Bytes → Bool) → Arm → Bytes
unfolding unusable_loop needed bind_hint
unusable parse_ip bindable a = elim (unusable_loop bindable (needed a)) [
  | none ↦ []
  | some addr ↦
      codes "this machine cannot send from "
      ++ addr
      ++ codes " ("
      ++ bind_hint parse_ip addr
      ++ codes ")"
]

-- an arm that `-only` selects
unfoldable pub is_selected : Bytes → Arm → Bool
unfolding str_eq contains
is_selected only a = str_eq only [] || contains a.name only

-- `runMatrix`, with the rows and the skips so far: an arm that fails ends the program
unfoldable pub matrix_loop {ℓ} :
    {E : Type ℓ}
    → Bytes
    → (Arm → Bytes)
    → (Arm → Result E Row)
    → List Arm
    → List Row
    → List Skip
    → Result (Bytes × E) (List Row × List Skip)
unfolding is_selected str_eq
matrix_loop only why_not run_arm [] rows skips = ok (rows, skips)
matrix_loop {E = E} only why_not run_arm (a ∷ arms) rows skips =
    let passed = matrix_loop only why_not run_arm arms rows skips in
    let skipped =
      matrix_loop only why_not run_arm arms rows
        (skips ++ record { name = a.name; why = why_not a } ∷ []) in
    let ran = elim (run_arm a) as (λ _. Result (Bytes × E) (List Row × List Skip)) [
      | err e ↦ err (a.name, e)
      | ok r ↦ matrix_loop only why_not run_arm arms (rows ++ r ∷ []) skips
    ] in
    if not (is_selected only a)
    then passed
    else if not (str_eq (why_not a) [])
    then skipped
    else ran

unfoldable pub run_matrix {ℓ} :
    {E : Type ℓ}
    → Bytes
    → (Bytes → Option Bytes)
    → (Bytes → Bool)
    → (Arm → Result E Row)
    → List Arm
    → Result (Bytes × E) (List Row × List Skip)
unfolding matrix_loop unusable
run_matrix only parse_ip bindable run_arm arms =
    matrix_loop only (unusable parse_ip bindable) run_arm arms [] []
