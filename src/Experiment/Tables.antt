-- ===== src/Experiment/Tables.antt =====
-- bench/cmd/rrlexp/report.go: which rows each table of the report has, and the figures in them.
--
-- A rate is a count and the length of the arm; a table is nothing where the report leaves it out.
use elodin.Common.{
  ℕ, ◌+◌, ◌-◌, Bool, true, false, not, ◌&&◌, ◌||◌, Option, none, some, List, [], ◌∷◌, ◌++◌, ltb,
  is_none, if◌then◌else◌, Bytes, codes,
}
use elodin.Text.{str_eq, has_prefix, decimal}
use elodin.Experiment.Client.{ClientSpec, Stats, is_doh}
use elodin.Experiment.Matrix.{Arm, Row}

-- the loop of `onlyFail`
unfoldable pub all_fail : List Row → Bool
all_fail [] = true
all_fail (r ∷ rows) = let rest = all_fail rows in if is_none r.arm.fail then false else rest

abbrev is_empty : List Row → Bool
is_empty [] = true
is_empty (r ∷ rows) = false

unfoldable pub only_fail : List Row → Bool
unfolding all_fail
only_fail rows = all_fail rows && not (is_empty rows)

abbrev pub on_attacker : (ClientSpec → Bool) → Arm → Bool
on_attacker p a = elim a.attacker [ none ↦ false | some c ↦ p c ]

unfoldable pub has_doh : List Row → Bool
unfolding is_doh
has_doh [] = false
has_doh (r ∷ rows) =
    let rest = has_doh rows in
    if is_doh r.arm.victim
    then true
    else if on_attacker (λ a. is_doh a && not a.handshake) r.arm
    then true
    else rest

unfoldable pub has_idle : List Row → Bool
has_idle [] = false
has_idle (r ∷ rows) =
    let rest = has_idle rows in if on_attacker (λ a. a.idle) r.arm then true else rest

unfoldable pub has_handshake_flood : List Row → Bool
has_handshake_flood [] = false
has_handshake_flood (r ∷ rows) =
    let rest = has_handshake_flood rows in
    if on_attacker (λ a. a.handshake) r.arm then true else rest

-- a row with a flood of queries
unfoldable pub is_query_flood : Row → Bool
is_query_flood r =
    not (is_none r.attacker) && (on_attacker (λ a. not a.handshake) r.arm && is_none r.arm.fail)

unfoldable pub has_query_flood : List Row → Bool
unfolding is_query_flood
has_query_flood [] = false
has_query_flood (r ∷ rows) =
    let rest = has_query_flood rows in if is_query_flood r then true else rest

-- the figures of a row
pub record Cells : Type 0 where
  pub name : Bytes
  pub via : Bytes
  pub counts : List ℕ

abbrev cells : Row → ClientSpec → List ℕ → Cells
cells r c counts = record { name = r.arm.name; via = c.transport; counts = counts }

-- `dohRow`: offered, answered, refused, failed and connections
unfoldable pub doh_row : Row → ClientSpec → Option Stats → List Cells
unfolding is_doh
doh_row r c none = []
doh_row r c (some st) =
    if not (is_doh c) || c.handshake
    then []
    else cells r c (st.offered ∷ st.full ∷ st.refused ∷ st.failed ∷ st.dials ∷ []) ∷ []

-- `dohRow` of the flood, if the arm has one: the empty client is no DoH client
abbrev pub doh_flood : Row → List Cells
doh_flood r = elim r.arm.attacker [ none ↦ [] | some c ↦ doh_row r c r.attacker ]

unfoldable pub doh_cells : List Row → List Cells
unfolding doh_row
doh_cells [] = []
doh_cells (r ∷ rows) = doh_flood r ++ (doh_row r r.arm.victim (some r.victim) ++ doh_cells rows)

unfoldable pub doh_table : List Row → Option (List Cells)
unfolding has_doh doh_cells
doh_table rows = if not (has_doh rows) then none else some (doh_cells rows)

-- the row of the flood table: offered, answered, truncated, and the bytes in and out
abbrev pub flood_row : Row → List Cells
flood_row r = elim r.attacker [
  | none ↦ []
  | some st ↦ elim r.arm.attacker [
    | none ↦ []
    | some c ↦
        if c.handshake || not (is_none r.arm.fail)
        then []
        else cells r c (st.offered ∷ st.full ∷ st.truncated ∷ st.bytes_in ∷ st.bytes_out ∷ []) ∷ []
  ]
]

unfoldable pub flood_cells : List Row → List Cells
flood_cells [] = []
flood_cells (r ∷ rows) = flood_row r ++ flood_cells rows

unfoldable pub flood_table : List Row → Option (List Cells)
unfolding has_query_flood flood_cells
flood_table rows = if not (has_query_flood rows) then none else some (flood_cells rows)

-- `c[name]` of the counters
unfoldable pub counter : List (Bytes × ℕ) → Bytes → ℕ
unfolding str_eq
counter [] name = 0
counter ((k, v) ∷ c) name = let later = counter c name in if str_eq k name then v else later

-- the share that an arm pins, if it is below the table
unfoldable pub share_of : Arm → Bytes
unfolding decimal
share_of a =
    if ltb 0 a.per_prefix && ltb a.per_prefix a.max_conns
    then decimal a.per_prefix
    else codes "none"

-- the row of the connection table: opened, held, refused, the server's refusals, answered, offered
unfoldable pub conn_row : Row → List Cells
unfolding counter
conn_row r = elim r.arm.attacker [
  | none ↦ []
  | some c ↦ if not c.idle then [] else elim r.attacker [
    | none ↦ []
    | some a ↦
        cells r c (
          a.dials
          ∷ (a.dials - a.closed)
          ∷ a.closed
          ∷ counter r.srv (codes "elodin_connections_refused_total")
          ∷ r.victim.full
          ∷ r.victim.offered
          ∷ [])
        ∷ []
  ]
]

unfoldable pub conn_cells : List Row → List Cells
unfolding conn_row
conn_cells [] = []
conn_cells (r ∷ rows) = conn_row r ++ conn_cells rows

unfoldable pub conn_table : List Row → Option (List Cells)
unfolding has_idle conn_cells
conn_table rows = if not (has_idle rows) then none else some (conn_cells rows)

-- the row of a handshake flood: attempted, completed, refused, not dialled, and the server's counters
unfoldable pub handshake_row : Row → List Cells
unfolding counter
handshake_row r = elim r.attacker [
  | none ↦ []
  | some a ↦ elim r.arm.attacker [
    | none ↦ []
    | some c ↦
        if not c.handshake
        then []
        else cells r c (
            a.offered
            ∷ a.full
            ∷ a.closed
            ∷ a.failed
            ∷ counter r.srv (codes "elodin_connections_refused_total")
            ∷ counter r.srv (codes "elodin_connections_rate_limited_total")
            ∷ counter r.srv (codes "elodin_tls_handshakes_total")
            ∷ r.victim.full
            ∷ r.victim.offered
            ∷ [])
          ∷ []
  ]
]

unfoldable pub handshake_cells : List Row → List Cells
unfolding handshake_row
handshake_cells [] = []
handshake_cells (r ∷ rows) = handshake_row r ++ handshake_cells rows

unfoldable pub handshake_table : List Row → Option (List Cells)
unfolding has_handshake_flood handshake_cells
handshake_table rows = if not (has_handshake_flood rows) then none else some (handshake_cells rows)

unfoldable pub figure : ℕ → Bytes
unfolding decimal
figure n = if not (ltb 0 n) then codes "shipped" else decimal n

-- `sumFamily`
unfoldable pub sum_family : List (Bytes × ℕ) → Bytes → ℕ
unfolding str_eq has_prefix
sum_family [] family = 0
sum_family ((k, v) ∷ c) family =
    let n = sum_family c family in
    if str_eq k family || has_prefix k (family ++ codes "{") then v + n else n

-- the row of a server: datagrams read and dropped, queries, limited, slipped, shed and forwarded
unfoldable pub server_row : Row → List ℕ
unfolding sum_family counter
server_row r =
    sum_family r.srv (codes "elodin_udp_datagrams_total")
    ∷ sum_family r.srv (codes "elodin_udp_receive_drops_total")
    ∷ counter r.srv (codes "elodin_queries_total")
    ∷ counter r.srv (codes "elodin_rate_limited_total")
    ∷ counter r.srv (codes "elodin_rate_limit_slipped_total")
    ∷ counter r.srv (codes "elodin_queries_dropped_total")
    ∷ counter r.srv (codes "elodin_answers_total{outcome=\"forwarded\"}")
    ∷ []

-- the row of a victim: closed, offered, answered, truncated and without a reply
unfoldable pub victim_row : Row → List ℕ
victim_row r =
    let v = r.victim in v.closed ∷ v.offered ∷ v.full ∷ v.truncated ∷ (v.offered - v.replies) ∷ []

unfoldable pub on_off : Bool → Bytes
on_off b = if b then codes "on" else codes "off"
