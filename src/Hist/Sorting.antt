-- ===== src/Hist/Sorting.antt =====
-- Sorting: the result is in order, holds the same samples, and does not depend on their order.
use mathlib.Core.List.{Perm, Permᴰ, flatten}
use mathlib.Core.Logic.{∥∥₁_elim}
use native.Mathlib.Decide.{ℕ_discrete}
use elodin.Common.{
  ℕ, suc, ◌≤◌, ◌≡◌, refl, sym, ap, ◌∙◌, List, [], ◌∷◌, ◌++◌, Bool, length, arith, All, count_if,
}
use elodin.Hist.{insert, sort}

abbrev pub IsSorted : List ℕ → Type 0
IsSorted [] = Unit
IsSorted (x ∷ xs) = All (λ y. x ≤ y) xs × IsSorted xs

All-insert : (b x : ℕ) (s : List ℕ) → b ≤ x → All (λ y. b ≤ y) s → All (λ y. b ≤ y) (insert x s)
unfolding insert
All-insert b x [] h a = (h, tt)
All-insert b x (y ∷ s) h a = ground (arith, All-insert b x s h a.1)

All-le : (x y : ℕ) (s : List ℕ) → x ≤ y → All (λ z. y ≤ z) s → All (λ z. x ≤ z) s
All-le x y [] h a = tt
All-le x y (z ∷ s) h a = (omega arith, All-le x y s h a.1)

insert-IsSorted : (x : ℕ) (s : List ℕ) → IsSorted s → IsSorted (insert x s)
unfolding insert
insert-IsSorted x [] h = (tt, tt)
insert-IsSorted x (y ∷ s) h =
    ground (arith, insert-IsSorted x s h.1, All-le x y s, All-insert y x s)

pub sort-IsSorted : (xs : List ℕ) → IsSorted (sort xs)
unfolding sort
sort-IsSorted [] = tt
sort-IsSorted (x ∷ xs) = insert-IsSorted x (sort xs) (sort-IsSorted xs)

count_if-insert : (p : ℕ → Bool) (x : ℕ) (s : List ℕ) → count_if p (insert x s) ≡ count_if p (x ∷ s)
unfolding insert
count_if-insert p x [] = refl
count_if-insert p x (y ∷ s) = ground (arith, count_if-insert p x s)

-- The sorted list passes any test as often as the list.
pub count_if-sort : (p : ℕ → Bool) (xs : List ℕ) → count_if p (sort xs) ≡ count_if p xs
unfolding sort
count_if-sort p [] = refl
count_if-sort p (x ∷ xs) = ground (arith, count_if-sort p xs, count_if-insert p x (sort xs))

insert_comm : (a b : ℕ) (s : List ℕ) → insert a (insert b s) ≡ insert b (insert a s)
unfolding insert
insert_comm a b [] = ground arith
insert_comm a b (y ∷ s) = ground (arith, insert_comm a b s)

length-insert : (x : ℕ) (s : List ℕ) → length (insert x s) ≡ suc (length s)
unfolding insert
length-insert x [] = refl
length-insert x (y ∷ s) = ground (arith, length-insert x s)

pub length-sort : (xs : List ℕ) → length (sort xs) ≡ length xs
unfolding sort
length-sort [] = refl
length-sort (x ∷ xs) = omega (arith, length-insert x (sort xs), length-sort xs)

insert_all : List ℕ → List ℕ → List ℕ
insert_all [] s = s
insert_all (x ∷ xs) s = insert x (insert_all xs s)

sort-append : (xs ys : List ℕ) → sort (xs ++ ys) ≡ insert_all xs (sort ys)
unfolding sort insert_all
sort-append [] ys = refl
sort-append (x ∷ xs) ys = ap (insert x) (sort-append xs ys)

insert-insert_all :
    (x : ℕ) (xs s : List ℕ) → insert_all xs (insert x s) ≡ insert x (insert_all xs s)
unfolding insert_all
insert-insert_all x [] s = refl
insert-insert_all x (y ∷ xs) s =
    ap (insert y) (insert-insert_all x xs s) ∙ insert_comm y x (insert_all xs s)

insert_all_comm :
    (xs ys s : List ℕ) → insert_all xs (insert_all ys s) ≡ insert_all ys (insert_all xs s)
unfolding insert_all
insert_all_comm [] ys s = refl
insert_all_comm (x ∷ xs) ys s =
    ap (insert x) (insert_all_comm xs ys s) ∙ sym (insert-insert_all x ys (insert_all xs s))

batches_of : {bs cs : List (List ℕ)} → Permᴰ bs cs → sort (flatten bs) ≡ sort (flatten cs)
unfolding flatten
batches_of Permᴰ.nil = refl
batches_of (Permᴰ.cons {a = a} {b = b} {l₁ = bs} {l₂ = cs} e d) =
    sort-append a (flatten bs)
    ∙ (ap (λ (x : List ℕ). insert_all x (sort (flatten bs))) e
        ∙ (ap (insert_all b) (batches_of d) ∙ sym (sort-append b (flatten cs))))
batches_of (Permᴰ.swap {a = a} {b = b} {a' = c} {b' = d} {l = l} e f) =
    two a b l ∙ (insert_all_comm a b (sort (flatten l)) ∙ (rw (e, f) (sym (two c d l))))
  where
    two :
        (x y : List ℕ) (l : List (List ℕ))
        → sort (x ++ (y ++ flatten l)) ≡ insert_all x (insert_all y (sort (flatten l)))
    two x y l = sort-append x (y ++ flatten l) ∙ ap (insert_all x) (sort-append y (flatten l))
batches_of (Permᴰ.trans d e) = batches_of d ∙ batches_of e

List-set : IsSet (List ℕ)
List-set = hlevel ℕ_discrete

-- The samples of batches sort alike in whatever order the batches came.
pub sort-flatten : {bs cs : List (List ℕ)} → Perm bs cs → sort (flatten bs) ≡ sort (flatten cs)
sort-flatten h = ∥∥₁_elim h (List-set _ _) batches_of
