-- ===== src/Experiment/Naming.antt =====
-- The names that the queries of a DoH client ask.
use elodin.Common.{
  ℕ, ◌≡◌, ◌≢◌, inl, inr, sym, ap, ◌∙◌, false, List, [], ◌∷◌, ◌++◌, map, All, if◌then◌else◌, Bytes,
  codes, arith,
}
use elodin.Text.{str_eq, decimal}
use elodin.Text.Numerals.{decimal_injective, decimal-mem_byte, append-split}
use elodin.Experiment.Client.{ClientSpec, name}
use elodin.Experiment.Doh.{no_queries, work_steps}
use elodin.Experiment.Numbering.{Differs, AllDiffer, work_steps-AllDiffer}

-- a name of its own for each number, behind the letter of all of them
abbrev own_name : ℕ → ℕ → Bytes → Bytes
own_name idx seq tag =
    decimal idx ++ (codes "-" ++ (decimal seq ++ (codes "." ++ (tag ++ codes ".rrl.test"))))

name-own_name :
    (c : ClientSpec) (idx seq : ℕ) (tag : Bytes)
    → str_eq c.qmode (codes "fixed") ≡ false
    → name c idx seq tag ≡ codes "q" ++ own_name idx seq tag
unfolding name
name-own_name c idx seq tag own =
    ap
      (λ b.
        if b
        then codes "cached." ++ (tag ++ codes ".rrl.test")
        else codes "q" ++ own_name idx seq tag)
      own

own_name_injective :
    (i j m n : ℕ) (tag : Bytes) → own_name i m tag ≡ own_name j n tag → (i ≡ j) × (m ≡ n)
own_name_injective i j m n tag e =
    let (idx, rest) =
      append-split b'-' (decimal i) (decimal j) _ _ (decimal-mem_byte b'-' i (omega arith))
        (decimal-mem_byte b'-' j (omega arith)) e in
    let (seq, _) =
      append-split b'.' (decimal m) (decimal n) _ _ (decimal-mem_byte b'.' m (omega arith))
        (decimal-mem_byte b'.' n (omega arith)) rest in
    (decimal_injective i j idx, decimal_injective m n seq)

name_apart :
    (c : ClientSpec) (tag : Bytes) (q r : ℕ × ℕ)
    → str_eq c.qmode (codes "fixed") ≡ false
    → Differs q r
    → name c q.0 q.1 tag ≢ name c r.0 r.1 tag
name_apart c tag q r own d e =
    let (same, same') =
      own_name_injective q.0 r.0 q.1 r.1 tag
        (tail_eq (sym (name-own_name c q.0 q.1 tag own) ∙ e ∙ name-own_name c r.0 r.1 tag own)) in
    elim d [ inl idx ↦ idx same | inr seq ↦ seq same' ]
  where
    tail_eq : {s t : Bytes} → b'q' ∷ s ≡ b'q' ∷ t → s ≡ t
    tail_eq h = cc

-- texts no two of which are the same
abbrev pub AllDistinct : List Bytes → Type 0
AllDistinct [] = Unit
AllDistinct (s ∷ texts) = All (λ t. s ≢ t) texts × AllDistinct texts

names-AllDistinct :
    (c : ClientSpec) (tag : Bytes) (queries : List (ℕ × ℕ))
    → str_eq c.qmode (codes "fixed") ≡ false
    → AllDiffer queries
    → AllDistinct (map (λ q. name c q.0 q.1 tag) queries)
names-AllDistinct c tag [] own a = tt
names-AllDistinct c tag (q ∷ queries) own (differ, a) =
    (others q queries differ, names-AllDistinct c tag queries own a)
  where
    others :
        (q : ℕ × ℕ) (rs : List (ℕ × ℕ))
        → All (λ r. Differs q r) rs
        → All (λ t. name c q.0 q.1 tag ≢ t) (map (λ r. name c r.0 r.1 tag) rs)
    others q [] h = tt
    others q (r ∷ rs) (h, hs) = (name_apart c tag q r own h, others q rs hs)

-- A DoH client that does not ask one fixed name asks no name twice, in whatever order its workers take
-- the steps of adding to their shared counter and of asking for the number they then read.
pub work_steps-AllDistinct :
    (c : ClientSpec) (tag : Bytes) (schedule : List ℕ)
    → str_eq c.qmode (codes "fixed") ≡ false
    → AllDistinct (map (λ q. name c q.0 q.1 tag) (work_steps schedule no_queries).asked)
work_steps-AllDistinct c tag schedule own =
    names-AllDistinct c tag (work_steps schedule no_queries).asked own
      (work_steps-AllDiffer schedule)
