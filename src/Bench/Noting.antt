-- ===== src/Bench/Noting.antt =====
-- The cells of the comparison that failed and the notes about them, for any servers `mine`.
use elodin.Common.{
  ℕ, suc, ◌+◌, ◌≡◌, refl, sym, ap, ◌∙◌, Bool, true, false, List, [], ◌∷◌, ◌++◌, count_if,
  count_if-append, ◌&&◌, Bytes, Result, ok, err, arith,
}
use elodin.Bench.Acts.{Trouble, Note, World, Act, pure, next, ◌>>=◌, for_each}
use elodin.Bench.Rivals.{fail_cell, cell_of}
use elodin.Bench.Cells.{Cell, Line, row, says, failures, server, line, is_failed, failed_cells}
use elodin.Bench.Keeping.{either}
use elodin.Bench.Quiet.{Quiet, attempt-Quiet}

module _ (mine : Bytes → Bool) where
  -- the notes about these servers
  abbrev pub noted_of : List Note → ℕ
  noted_of notes = count_if (λ n. mine n.server) notes

  -- the cells of a server that read "failed", if it is one of them, and those of the rows
  abbrev pub owed_cells : Bytes → List Cell → ℕ
  owed_cells kind cells = count_if (λ c. is_failed c && mine kind) cells

  abbrev pub owed_row : List Cell → ℕ
  owed_row (server kind ∷ cells) = owed_cells kind cells
  owed_row cells = failed_cells cells

  abbrev pub owed_lines : List Line → ℕ
  owed_lines [] = 0
  owed_lines (row cells ∷ lines) = owed_row cells + owed_lines lines
  owed_lines (l ∷ lines) = owed_lines lines

  -- with so many failures noted before, the failures in what is returned are those and the new notes
  abbrev pub Balances {ℓ} : {A : Type ℓ} → ℕ → (A → ℕ) → World → Result Trouble A × World → Type 0
  Balances before f w (ok x, v) = noted_of v.notes + before ≡ noted_of w.notes + f x
  Balances before f w (err e, v) = Unit

  pub record Owes {ℓ} {A : Type ℓ} (before : ℕ) (f : A → ℕ) (a : Act A) : Type 0 where
    pub owes : (w : World) → Balances before f w (a w)

  pub >>=-Owes {ℓ κ} :
      {A : Type ℓ} {B : Type κ} {a : Act A} {k : A → Act B} (f : A → ℕ) {before : ℕ} {g : B → ℕ}
      → Owes before f a
      → ((x : A) → Owes (f x) g (k x))
      → Owes before g (a >>= k)
  unfolding ◌>>=◌
  >>=-Owes {A = A} {B = B} {a = a} {k = k} f {before} {g} o later = record {
    owes = λ w. first w (a w).0 (a w).1 (o.owes w);
  }
    where
      second :
          (w v : World) (n : ℕ) (r : Result Trouble B) (u : World)
          → noted_of v.notes + before ≡ noted_of w.notes + n
          → Balances n g v (r, u)
          → Balances before g w (r, u)
      second w v n (ok y) u noted more = omega arith
      second w v n (err e) u noted more = tt

      first :
          (w : World) (r : Result Trouble A) (v : World)
          → Balances before f w (r, v)
          → Balances before g w (next k (r, v))
      first w (ok x) v noted = second w v (f x) (k x v).0 (k x v).1 noted ((later x).owes v)
      first w (err e) v noted = tt

  module _ {ℓ} {A : Type ℓ} where
    pub Quiet→Owes : (n : ℕ) {a : Act A} → Quiet a → Owes n (λ _. n) a
    Quiet→Owes n {a} q = record { owes = λ w. step w (a w).0 (a w).1 (q.quiet w) }
      where
        step :
            (w : World) (r : Result Trouble A) (v : World)
            → v.notes ≡ w.notes
            → Balances n (λ _. n) w (r, v)
        step w (ok x) v same = ap (λ notes. noted_of notes + n) same
        step w (err e) v same = tt

    pub pure-Owes : {n : ℕ} (f : A → ℕ) (x : A) → n ≡ f x → Owes n f (pure x)
    unfolding pure
    pure-Owes f x e = record { owes = λ w. ap (λ n. noted_of w.notes + n) e }

  -- one more failure if it is that of a cell
  abbrev pub also : Bytes → ℕ → Cell → ℕ
  also kind n c = n + owed_cells kind (c ∷ [])

  pub not_failed : (kind : Bytes) (n : ℕ) (c : Cell) → is_failed c ≡ false → n ≡ also kind n c
  not_failed kind n c e =
      let same : n ≡ n + 0 = omega arith in
      same ∙ ap (λ b. n + (elim (b && mine kind) as (λ _. ℕ) [ true ↦ suc 0 | false ↦ 0 ])) (sym e)

  pub fail_cell-Owes :
      (n : ℕ) (kind what : Bytes) (e : Trouble) → Owes n (also kind n) (fail_cell kind what e)
  unfolding fail_cell
  fail_cell-Owes n kind what e = record {
    owes = λ w.
        let more =
          count_if-append (λ n. mine n.server) w.notes
            (record { server = kind; what = what; why = e } ∷ []) in
        omega (arith, more);
  }

  pub cell_of-Owes {ℓ} :
      {A : Type ℓ} (n : ℕ) (kind what : Bytes) (show : A → Cell) {a : Act A}
      → Quiet a
      → ((x : A) → is_failed (show x) ≡ false)
      → Owes n (also kind n) (cell_of kind what show a)
  unfolding cell_of
  cell_of-Owes n kind what show q shown =
      >>=-Owes (λ _. n) (Quiet→Owes n (attempt-Quiet q))
        (either (Owes n (also kind n)) (fail_cell-Owes n kind what)
          (λ x. pure-Owes (also kind n) (show x) (not_failed kind n (show x) (shown x))))

  pub owed_lines-append :
      (ls ks : List Line) → owed_lines (ls ++ ks) ≡ owed_lines ls + owed_lines ks
  owed_lines-append [] ks = omega arith
  owed_lines-append (row cs ∷ ls) ks = let rest = owed_lines-append ls ks in omega arith
  owed_lines-append (says s ∷ ls) ks = owed_lines-append ls ks
  owed_lines-append (failures ns ∷ ls) ks = owed_lines-append ls ks

  -- the failures among cells, or in lines, and those before
  abbrev pub with_cells : Bytes → ℕ → List Cell → ℕ
  with_cells kind n cs = n + owed_cells kind cs

  abbrev pub with_lines : ℕ → List Line → ℕ
  with_lines n ls = n + owed_lines ls

  -- a loop whose rounds owe what they return, as counted by a measure
  for_each-Owes {ℓ κ} :
      {A : Type ℓ} {B : Type κ} (count : List B → ℕ)
      → count [] ≡ 0
      → ((xs ys : List B) → count (xs ++ ys) ≡ count xs + count ys)
      → {f : A → Act (List B)} → ((x : A) (n : ℕ) → Owes n (λ bs. n + count bs) (f x))
      → (xs : List A) (n : ℕ) → Owes n (λ bs. n + count bs) (for_each f xs)
  unfolding for_each
  for_each-Owes count empty joined each [] n =
      pure-Owes (λ bs. n + count bs) [] (omega (arith, empty))
  for_each-Owes count empty joined each (x ∷ xs) n =
      >>=-Owes (λ bs. n + count bs) (each x n)
        λ rows.
          >>=-Owes (λ bs. n + count rows + count bs)
            (for_each-Owes count empty joined each xs (n + count rows))
            λ more. pure-Owes (λ bs. n + count bs) (rows ++ more) (omega (arith, joined rows more))

  pub each_line {ℓ} :
      {A : Type ℓ} {f : A → Act (List Line)}
      → ((x : A) (n : ℕ) → Owes n (with_lines n) (f x))
      → (xs : List A) (n : ℕ) → Owes n (with_lines n) (for_each f xs)
  each_line each xs n = for_each-Owes owed_lines refl owed_lines-append each xs n

  -- the cells of a row, one after the other
  pub each_cell {ℓ} :
      {A : Type ℓ} (kind : Bytes) {f : A → Act Cell}
      → ((x : A) (n : ℕ) → Owes n (also kind n) (f x))
      → (xs : List A) (n : ℕ)
      → Owes n (with_cells kind n) (for_each (λ x. f x >>= λ c. pure (c ∷ [])) xs)
  each_cell kind each xs n =
      for_each-Owes (owed_cells kind) refl (count_if-append (λ c. is_failed c && mine kind))
        (λ x n. >>=-Owes (also kind n) (each x n) λ c. pure-Owes (with_cells kind n) (c ∷ []) refl)
        xs n

  -- a row of a server's cells
  pub row-Owes :
      (n : ℕ) (kind : Bytes) (cs : List Cell) (k : ℕ)
      → k ≡ n + owed_cells kind cs
      → Owes k (with_lines n) (pure (line (server kind ∷ cs)))
  row-Owes n kind cs k e = pure-Owes (with_lines n) (line (server kind ∷ cs)) (omega (arith, e))
