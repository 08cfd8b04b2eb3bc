-- ===== src/Experiment/Headings.antt =====
-- A table of the report is there exactly where it has a row.
use elodin.Common.{
  ◌≡◌, refl, sym, ap, ◌∙◌, Bool, true, false, not, ◌&&◌, ◌||◌, Option, none, some, List, [], ◌∷◌,
  ◌++◌, All, is_none, if◌then◌else◌,
}
use elodin.Experiment.Client.{ClientSpec, Stats, is_doh}
use elodin.Experiment.Matrix.{Row}
use elodin.Experiment.Tables.{
  Cells, on_attacker, has_doh, doh_row, doh_flood, doh_cells, doh_table, has_query_flood,
  is_query_flood, flood_row, flood_cells, flood_table, has_idle, conn_row, conn_cells, conn_table,
  has_handshake_flood, handshake_row, handshake_cells, handshake_table,
}

-- a row as an arm leaves it: there are figures of an attacker where the arm has one, and the victim asks
-- queries
abbrev pub IsRow : Row → Type 0
IsRow r = (is_none r.attacker ≡ is_none r.arm.attacker) × (r.arm.victim.handshake ≡ false)

abbrev pub has_cells : List Cells → Bool
has_cells [] = false
has_cells (c ∷ cs) = true

-- a table with a row, or none
abbrev pub shown : List Cells → Option (List Cells)
shown [] = none
shown (c ∷ cs) = some (c ∷ cs)

has_cells-append : (xs ys : List Cells) → has_cells (xs ++ ys) ≡ (has_cells xs || has_cells ys)
has_cells-append [] ys = refl
has_cells-append (x ∷ xs) ys = refl

guarded :
    (b : Bool) (cs : List Cells) → b ≡ has_cells cs → (if not b then none else some cs) ≡ shown cs
guarded b [] e = rw e refl
guarded b (c ∷ cs) e = rw e refl

if_or : (b c : Bool) → (if b then true else c) ≡ (b || c)
if_or true c = refl
if_or false c = refl

-- one row more, for a test of a row that says whether it has cells
one_more :
    (b c : Bool) (xs ys : List Cells)
    → b ≡ has_cells xs
    → c ≡ has_cells ys
    → (if b then true else c) ≡ has_cells (xs ++ ys)
one_more b c xs ys e e' =
    if_or b c ∙ ap (λ x. x || c) e ∙ ap (λ y. has_cells xs || y) e' ∙ sym (has_cells-append xs ys)

-- the rows of the tables, over what there is of the attacker
conn_cells_of :
    (f : ClientSpec → Stats → Cells) (st : Option Stats) (c : Option ClientSpec)
    → is_none st ≡ is_none c
    → elim c as (λ _. Bool) [ none ↦ false | some c ↦ c.idle ]
      ≡ has_cells (elim c as (λ _. List Cells) [
        | none ↦ []
        | some c ↦
            if not c.idle
            then []
            else elim st as (λ _. List Cells) [ none ↦ [] | some a ↦ f c a ∷ [] ]
      ])
conn_cells_of f st none e = refl
conn_cells_of f none (some c) e = absurd cc
conn_cells_of f (some a) (some c) e = step c.idle
  where
    step : (b : Bool) → b ≡ has_cells (if not b then [] else f c a ∷ [])
    step true = refl
    step false = refl

conn_row-has :
    (r : Row)
    → is_none r.attacker ≡ is_none r.arm.attacker
    → on_attacker (λ a. a.idle) r.arm ≡ has_cells (conn_row r)
unfolding conn_row
conn_row-has r e = conn_cells_of _ r.attacker r.arm.attacker e

handshake_cells_of :
    (f : ClientSpec → Stats → Cells) (st : Option Stats) (c : Option ClientSpec)
    → is_none st ≡ is_none c
    → elim c as (λ _. Bool) [ none ↦ false | some c ↦ c.handshake ]
      ≡ has_cells (elim st as (λ _. List Cells) [
        | none ↦ []
        | some a ↦ elim c as (λ _. List Cells) [
          | none ↦ []
          | some c ↦ if not c.handshake then [] else f c a ∷ []
        ]
      ])
handshake_cells_of f none none e = refl
handshake_cells_of f (some a) none e = absurd cc
handshake_cells_of f none (some c) e = absurd cc
handshake_cells_of f (some a) (some c) e = step c.handshake
  where
    step : (b : Bool) → b ≡ has_cells (if not b then [] else f c a ∷ [])
    step true = refl
    step false = refl

handshake_row-has :
    (r : Row)
    → is_none r.attacker ≡ is_none r.arm.attacker
    → on_attacker (λ a. a.handshake) r.arm ≡ has_cells (handshake_row r)
unfolding handshake_row
handshake_row-has r e = handshake_cells_of _ r.attacker r.arm.attacker e

flood_cells_of :
    (f : ClientSpec → Stats → Cells) (st : Option Stats) (c : Option ClientSpec) (counted : Bool)
    → is_none st ≡ is_none c
    → (not (is_none st)
        && (elim c as (λ _. Bool) [ none ↦ false | some c ↦ not c.handshake ] && counted))
      ≡ has_cells (elim st as (λ _. List Cells) [
        | none ↦ []
        | some a ↦ elim c as (λ _. List Cells) [
          | none ↦ []
          | some c ↦ if c.handshake || not counted then [] else f c a ∷ []
        ]
      ])
flood_cells_of f none none counted e = refl
flood_cells_of f (some a) none counted e = absurd cc
flood_cells_of f none (some c) counted e = absurd cc
flood_cells_of f (some a) (some c) counted e = step c.handshake counted
  where
    step : (b d : Bool) → (not b && d) ≡ has_cells (if b || not d then [] else f c a ∷ [])
    step true d = refl
    step false true = refl
    step false false = refl

flood_row-has :
    (r : Row)
    → is_none r.attacker ≡ is_none r.arm.attacker
    → is_query_flood r ≡ has_cells (flood_row r)
unfolding is_query_flood
flood_row-has r e = flood_cells_of _ r.attacker r.arm.attacker (is_none r.arm.fail) e

-- the row of the DoH table for a client with figures
doh_row-has :
    (r : Row) (c : ClientSpec) (st : Stats)
    → (is_doh c && not c.handshake) ≡ has_cells (doh_row r c (some st))
unfolding doh_row
doh_row-has r c st = step (is_doh c) c.handshake _
  where
    step : (b d : Bool) (x : Cells) → (b && not d) ≡ has_cells (if not b || d then [] else x ∷ [])
    step true true x = refl
    step true false x = refl
    step false d x = refl

doh_flood_of :
    (r : Row) (st : Option Stats) (c : Option ClientSpec)
    → is_none st ≡ is_none c
    → elim c as (λ _. Bool) [ none ↦ false | some c ↦ is_doh c && not c.handshake ]
      ≡ has_cells (elim c as (λ _. List Cells) [ none ↦ [] | some c ↦ doh_row r c st ])
doh_flood_of r st none e = refl
doh_flood_of r none (some c) e = absurd cc
doh_flood_of r (some st) (some c) e = doh_row-has r c st

victim_row-has :
    (r : Row)
    → r.arm.victim.handshake ≡ false
    → is_doh r.arm.victim ≡ has_cells (doh_row r r.arm.victim (some r.victim))
victim_row-has r e =
    sym (and_true (is_doh r.arm.victim) r.arm.victim.handshake e)
    ∙ doh_row-has r r.arm.victim r.victim
  where
    and_true : (b d : Bool) → d ≡ false → (b && not d) ≡ b
    and_true true d e = ap not e
    and_true false d e = refl

conn_has : (rows : List Row) → All IsRow rows → has_idle rows ≡ has_cells (conn_cells rows)
unfolding has_idle conn_cells
conn_has [] a = refl
conn_has (r ∷ rows) ((e, v), a) =
    one_more _ _ (conn_row r) (conn_cells rows) (conn_row-has r e) (conn_has rows a)

handshake_has :
    (rows : List Row) → All IsRow rows → has_handshake_flood rows ≡ has_cells (handshake_cells rows)
unfolding has_handshake_flood handshake_cells
handshake_has [] a = refl
handshake_has (r ∷ rows) ((e, v), a) =
    one_more _ _ (handshake_row r) (handshake_cells rows) (handshake_row-has r e)
      (handshake_has rows a)

flood_has : (rows : List Row) → All IsRow rows → has_query_flood rows ≡ has_cells (flood_cells rows)
unfolding has_query_flood flood_cells
flood_has [] a = refl
flood_has (r ∷ rows) ((e, v), a) =
    one_more _ _ (flood_row r) (flood_cells rows) (flood_row-has r e) (flood_has rows a)

doh_has : (rows : List Row) → All IsRow rows → has_doh rows ≡ has_cells (doh_cells rows)
unfolding has_doh doh_cells
doh_has [] a = refl
doh_has (r ∷ rows) ((e, v), a) =
    swap (is_doh r.arm.victim) (on_attacker (λ a. is_doh a && not a.handshake) r.arm) (has_doh rows)
    ∙ one_more _ _ (doh_flood r) _ (doh_flood_of r r.attacker r.arm.attacker e) (
        one_more _ _ (doh_row r r.arm.victim (some r.victim)) (doh_cells rows) (victim_row-has r v)
          (doh_has rows a))
  where
    swap :
        (b c d : Bool)
        → (if b then true else (if c then true else d))
          ≡ (if c then true else (if b then true else d))
    swap true true d = refl
    swap true false d = refl
    swap false c d = refl

-- For rows that have figures of an attacker exactly where their arm has one, and whose victims ask
-- queries, the tables of the DoH clients, of the floods of queries, of the connections held and of the
-- handshake floods are in the report exactly where they have a row, and with all their rows.
pub tables-shown :
    (rows : List Row)
    → All IsRow rows
    → (doh_table rows ≡ shown (doh_cells rows))
      × (flood_table rows ≡ shown (flood_cells rows))
      × (conn_table rows ≡ shown (conn_cells rows))
      × (handshake_table rows ≡ shown (handshake_cells rows))
unfolding doh_table flood_table conn_table handshake_table
tables-shown rows a = (
  guarded (has_doh rows) (doh_cells rows) (doh_has rows a),
  guarded (has_query_flood rows) (flood_cells rows) (flood_has rows a),
  guarded (has_idle rows) (conn_cells rows) (conn_has rows a),
  guarded (has_handshake_flood rows) (handshake_cells rows) (handshake_has rows a),
)
