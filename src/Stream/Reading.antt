-- ===== src/Stream/Reading.antt =====
-- What is read does not depend on how the bytes were cut into arrivals.
use mathlib.Core.List.{flatten}
use elodin.Common.{
  ℕ, zero, suc, ◌+◌, ◌-◌, ◌*◌, ◌<◌, ◌≤◌, ◌≡◌, refl, sym, ap, ◌∙◌, none, some, [], ◌∷◌, ◌++◌,
  append_assoc, append-nil, leb, Bytes, length, take, drop, length-append, arith, Bool-cases, inl,
  inr, take-append_self, drop-append_self, ◌/◌, ◌%◌,
}
use elodin.Stream.{Conn, read_loop, read_full, frame, read_frame}

take-append_le :
    (n : ℕ) (xs ys : Bytes) → length xs ≤ n → take n (xs ++ ys) ≡ xs ++ take (n - length xs) ys
take-append_le n [] ys h = ap (λ (k : ℕ). take k ys) (omega arith)
take-append_le zero (x ∷ xs) ys h = absurd (omega arith)
take-append_le (suc n) (x ∷ xs) ys h =
    let e : suc n - suc (length xs) ≡ n - length xs = omega arith in
    rw e (ap (◌∷◌ x) (take-append_le n xs ys (omega arith)))

drop-append_le :
    (n : ℕ) (xs ys : Bytes) → length xs ≤ n → drop n (xs ++ ys) ≡ drop (n - length xs) ys
drop-append_le n [] ys h = ap (λ (k : ℕ). drop k ys) (omega arith)
drop-append_le zero (x ∷ xs) ys h = absurd (omega arith)
drop-append_le (suc n) (x ∷ xs) ys h =
    let e : suc n - suc (length xs) ≡ n - length xs = omega arith in
    rw e (drop-append_le n xs ys (omega arith))

take-append_gt : (n : ℕ) (xs ys : Bytes) → n ≤ length xs → take n (xs ++ ys) ≡ take n xs
take-append_gt zero xs ys h = refl
take-append_gt (suc n) [] ys h = absurd (omega arith)
take-append_gt (suc n) (x ∷ xs) ys h = ap (◌∷◌ x) (take-append_gt n xs ys (omega arith))

drop-append_gt : (n : ℕ) (xs ys : Bytes) → n ≤ length xs → drop n (xs ++ ys) ≡ drop n xs ++ ys
drop-append_gt zero xs ys h = refl
drop-append_gt (suc n) [] ys h = absurd (omega arith)
drop-append_gt (suc n) (x ∷ xs) ys h = drop-append_gt n xs ys (omega arith)

-- What has arrived and not been read.
abbrev pub pending : Conn → Bytes
pending = flatten

read_loop-enough :
    (conn : Conn) (want : ℕ) (got : Bytes)
    → want ≤ length (pending conn)
    → (rest : Conn) × (read_loop conn want got ≡ some (got ++ take want (pending conn), rest))
      × (pending rest ≡ drop want (pending conn))
unfolding read_loop flatten
read_loop-enough conn zero got h = (conn, rw append-nil, refl)
read_loop-enough [] (suc want) got h = absurd (omega arith)
read_loop-enough (arrival ∷ conn) (suc want) got h =
    elim (Bool-cases (leb (length arrival) (suc want))) [
      | inl e ↦
          let fits : length arrival ≤ suc want = ground arith in
          let (rest, reads, left) =
            read_loop-enough conn (suc want - length arrival) (got ++ arrival)
              (omega (arith, length-append arrival (flatten conn))) in
          (
            rest,
            rw
                (
                  e,
                  take-append_le (suc want) arrival (flatten conn) fits,
                  ← append_assoc got arrival (take (suc want - length arrival) (flatten conn)),
                )
                reads,
            left ∙ sym (drop-append_le (suc want) arrival (flatten conn) fits),
          )
      | inr e ↦
          let long : suc want ≤ length arrival = ground arith in
          (
            drop (suc want) arrival ∷ conn,
            rw (e, take-append_gt (suc want) arrival (flatten conn) long),
            sym (drop-append_gt (suc want) arrival (flatten conn) long),
          )
    ]

read_loop-short :
    (conn : Conn) (want : ℕ) (got : Bytes)
    → length (pending conn) < want
    → read_loop conn want got ≡ none
unfolding read_loop flatten
read_loop-short conn zero got h = absurd (omega arith)
read_loop-short [] (suc want) got h = refl
read_loop-short (arrival ∷ conn) (suc want) got h =
    let sum : length arrival + length (flatten conn) < suc want =
      omega (arith, length-append arrival (flatten conn)) in
    ground (arith, sum, read_loop-short conn (suc want - length arrival) (got ++ arrival))

-- A full read depends on the bytes that arrive and not on how they are cut into arrivals: where `b` is
-- what arrives first it returns `b` and leaves the rest.
pub read_full-append :
    (conn : Conn) (b rest : Bytes)
    → pending conn ≡ b ++ rest
    → (conn' : Conn) × (read_full conn (length b) ≡ some (b, conn')) × (pending conn' ≡ rest)
unfolding read_full
read_full-append conn b rest h =
    let (conn', reads, left) =
      read_loop-enough conn (length b) [] (omega (arith, ap length h, length-append b rest)) in
    (
      conn',
      reads ∙ ap (λ (x : Bytes). some (x, conn')) (rw h (take-append_self b rest)),
      left ∙ rw h (drop-append_self b rest),
    )

-- It fails exactly where fewer bytes arrive than it wants.
pub read_full-short :
    (conn : Conn) (want : ℕ) → length (pending conn) < want → read_full conn want ≡ none
unfolding read_full
read_full-short conn want h = read_loop-short conn want [] h

read_frame_of :
    (conn conn1 conn2 : Conn) (hi lo : ℕ) (msg : Bytes)
    → read_full conn 2 ≡ some (hi ∷ lo ∷ [], conn1)
    → read_full conn1 (hi * 256 + lo) ≡ some (msg, conn2)
    → read_frame conn ≡ some (msg, conn2)
unfolding read_frame
read_frame_of conn conn1 conn2 hi lo msg h b = rw (h, read_frame) b

-- A framed message of less than 64 KiB is read back whole, and what follows it is left.
pub read_frame-frame :
    (conn : Conn) (msg rest : Bytes)
    → length msg < 65536
    → pending conn ≡ frame msg ++ rest
    → (conn' : Conn) × (read_frame conn ≡ some (msg, conn')) × (pending conn' ≡ rest)
unfolding frame
read_frame-frame conn msg rest small h =
    let n = length msg in
    let (conn1, hdr, left) =
      read_full-append conn ((n / 256 % 256) ∷ (n % 256) ∷ []) (msg ++ rest) h in
    let (conn2, body, left') = read_full-append conn1 msg rest left in
    let size : n / 256 % 256 * 256 + n % 256 ≡ n = omega arith in
    (conn2, read_frame_of conn conn1 conn2 (n / 256 % 256) (n % 256) msg hdr (rw size body), left')
