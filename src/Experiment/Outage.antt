-- ===== src/Experiment/Outage.antt =====
-- What holds of the experiment's mock through failures and restarts.
use elodin.Common.{
  ℕ, ◌+◌, ◌<◌, ◌≡◌, refl, Bool, true, false, not, ◌||◌, ◌&&◌, Option, none, some, List, [], ◌∷◌,
  Bytes, Result, ok, err, arith, sym, Bool-cases, inl, inr,
}
use mathlib.Core.Path.{subst}
use elodin.DnsWire.{Error}
use elodin.Experiment.Mock.{
  Mode, mock_up, mock_blackhole, mock_refused, is_refused, is_up, Mock, answer, count_served, reply,
  listen, release_holds, close_sockets, fail, restore, reset, is_current, serve_read,
  serve_datagram, Event, failed_to, restored, stopped, asked_over, asked_by_datagram, step, steps,
}

abbrev pub is_some : Option ℕ → Bool
is_some none = false
is_some (some n) = true

-- a listener's number is not used again
abbrev pub IsBelow : Option ℕ → ℕ → Type 0
IsBelow none next = Unit
IsBelow (some n) next = n < next

-- both sockets are open or both are closed, the port is held only while they are closed, and the
-- listener's number is not used again
abbrev pub IsConsistent : Mock → Type 0
IsConsistent m =
    (m.pc ≡ is_some m.ln) × (((m.hold || m.tcp_hold) && m.pc) ≡ false) × IsBelow m.ln m.next

abbrev serves : Mock → ℕ → Mock
serves m n = record m { served = n }

count_served-serves :
    (m : Mock) (r : Result Error Bytes) → (n : ℕ) × ((count_served m r).0 ≡ serves m n)
unfolding count_served
count_served-serves m (err e) = (m.served, refl)
count_served-serves m (ok resp) = (m.served + 1, refl)

-- a query changes no more of a mock than its counter
serve_read-serves :
    (m : Mock) (ln : ℕ) (query : Bytes) → (n : ℕ) × ((serve_read m ln query).0 ≡ serves m n)
unfolding serve_read reply
serve_read-serves m ln query = elim (Bool-cases (not (is_current m.ln ln) || is_refused m.mode)) [
  | inl h ↦ (m.served, rw (serve_read, h) refl)
  | inr h ↦ elim (Bool-cases (is_up m.mode)) [
    | inl up ↦ rw (serve_read, h, up) (count_served-serves m (answer query m.records m.ttl))
    | inr down ↦ (m.served, rw (serve_read, h, down) refl)
  ]
]

serve_datagram-serves :
    (m : Mock) (later : Mode) (query : Bytes)
    → (n : ℕ) × ((serve_datagram m later query).0 ≡ serves m n)
unfolding serve_datagram reply
serve_datagram-serves m later query = elim (Bool-cases (is_up m.mode)) [
  | inl up ↦ rw (serve_datagram, up) (count_served-serves m (answer query m.records m.ttl))
  | inr down ↦ (m.served, rw (serve_datagram, down) refl)
]

-- what holds of a mock whatever its counter, its mode and how it fails and comes back, holds after any
-- event
step-keeps :
    (P : Mock → Type 0) (m : Mock) (e : Event)
    → P m
    → ((n : ℕ) → P (serves m n))
    → ((mode : Mode) (udp tcp : Bool) → P (fail m mode udp tcp).0)
    → ((udp tcp : Bool) → P (restore m udp tcp).0)
    → P (close_sockets m)
    → P (step m e)
unfolding step
step-keeps P m (failed_to mode udp tcp) now counted failing back closed = failing mode udp tcp
step-keeps P m (restored udp tcp) now counted failing back closed = back udp tcp
step-keeps P m stopped now counted failing back closed = closed
step-keeps P m (asked_over ln query) now counted failing back closed =
    let (n, same) = serve_read-serves m ln query in subst P (sym same) (counted n)
step-keeps P m (asked_by_datagram later query) now counted failing back closed =
    let (n, same) = serve_datagram-serves m later query in subst P (sym same) (counted n)

fail-IsConsistent :
    (m : Mock) (mode : Mode) (udp tcp : Bool)
    → IsConsistent m
    → IsConsistent (fail m mode udp tcp).0
unfolding fail close_sockets release_holds
fail-IsConsistent m mock_up udp tcp v = v
fail-IsConsistent m mock_blackhole udp tcp v = v
fail-IsConsistent m mock_refused false tcp v = (refl, refl, tt)
fail-IsConsistent m mock_refused true false v = (refl, refl, tt)
fail-IsConsistent m mock_refused true true v = (refl, refl, tt)

listen-IsConsistent :
    (m : Mock) (udp tcp : Bool)
    → IsConsistent m
    → m.hold ≡ false
    → m.tcp_hold ≡ false
    → IsConsistent (listen m udp tcp).0
unfolding listen
listen-IsConsistent m false tcp v h k = v
listen-IsConsistent m true false v h k = v
listen-IsConsistent m true true v h k = (refl, rw (h, k) refl, omega arith)

release_holds-IsConsistent : (m : Mock) → IsConsistent m → IsConsistent (release_holds m)
unfolding release_holds
release_holds-IsConsistent m (open_both, held, below) = (open_both, refl, below)

restore-IsConsistent :
    (m : Mock) (udp tcp : Bool) → IsConsistent m → IsConsistent (restore m udp tcp).0
unfolding restore release_holds
restore-IsConsistent m udp tcp v = elim (Bool-cases (is_refused m.mode)) [
  | inl h ↦
      rw (restore, h)
        (listen-IsConsistent (release_holds (record m { mode = mock_up })) udp tcp
          (release_holds-IsConsistent (record m { mode = mock_up }) v) refl refl)
  | inr h ↦ rw (restore, h) v
]

-- Whatever happens to a mock in which both sockets are open or both closed, the port is held only while
-- they are closed, and its listener's number is not to be used again, the same holds afterwards.
pub steps-IsConsistent :
    (events : List Event) (m : Mock) → IsConsistent m → IsConsistent (steps m events)
unfolding steps close_sockets release_holds
steps-IsConsistent [] m v = v
steps-IsConsistent (e ∷ events) m v = steps-IsConsistent events (step m e) (
    step-keeps IsConsistent m e v (λ n. v) (λ mode udp tcp. fail-IsConsistent m mode udp tcp v)
      (λ udp tcp. restore-IsConsistent m udp tcp v) (refl, refl, tt))

-- a listener that is closed for good
abbrev IsGone : ℕ → Mock → Type 0
IsGone ln m = (ln < m.next) × (is_current m.ln ln ≡ false)

fail-IsGone :
    (ln : ℕ) (m : Mock) (mode : Mode) (udp tcp : Bool)
    → IsGone ln m
    → IsGone ln (fail m mode udp tcp).0
unfolding fail close_sockets release_holds
fail-IsGone ln m mock_up udp tcp v = v
fail-IsGone ln m mock_blackhole udp tcp v = v
fail-IsGone ln m mock_refused false tcp (old, gone) = (old, refl)
fail-IsGone ln m mock_refused true false (old, gone) = (old, refl)
fail-IsGone ln m mock_refused true true (old, gone) = (old, refl)

listen-IsGone : (ln : ℕ) (m : Mock) (udp tcp : Bool) → IsGone ln m → IsGone ln (listen m udp tcp).0
unfolding listen
listen-IsGone ln m false tcp v = v
listen-IsGone ln m true false v = v
listen-IsGone ln m true true (old, gone) = (omega arith, ground arith)

restore-IsGone :
    (ln : ℕ) (m : Mock) (udp tcp : Bool) → IsGone ln m → IsGone ln (restore m udp tcp).0
unfolding restore release_holds
restore-IsGone ln m udp tcp v = elim (Bool-cases (is_refused m.mode)) [
  | inl h ↦
      rw (restore, h) (listen-IsGone ln (release_holds (record m { mode = mock_up })) udp tcp v)
  | inr h ↦ rw (restore, h) v
]

steps-IsGone : (ln : ℕ) (events : List Event) (m : Mock) → IsGone ln m → IsGone ln (steps m events)
unfolding steps close_sockets release_holds
steps-IsGone ln [] m v = v
steps-IsGone ln (e ∷ events) m v = steps-IsGone ln events (step m e) (
    step-keeps (IsGone ln) m e v (λ n. v) (λ mode udp tcp. fail-IsGone ln m mode udp tcp v)
      (λ udp tcp. restore-IsGone ln m udp tcp v) (v.0, refl))

refused-IsGone :
    (ln : ℕ) (m : Mock) (udp tcp : Bool) → ln < m.next → IsGone ln (fail m mock_refused udp tcp).0
unfolding fail close_sockets release_holds
refused-IsGone ln m false tcp old = (old, refl)
refused-IsGone ln m true false old = (old, refl)
refused-IsGone ln m true true old = (old, refl)

-- A connection that any earlier listener of the mock accepted, the one it had when its upstream was
-- made to refuse among them, is reset at its next query, whatever else has happened since, a `restore`
-- among it; and the query changes nothing of the mock.
pub serve_read-outage :
    (m : Mock) (ln : ℕ) (udp tcp : Bool) (events : List Event) (query : Bytes)
    → ln < m.next
    → let later = steps (fail m mock_refused udp tcp).0 events in
      serve_read later ln query ≡ (later, reset)
unfolding serve_read
serve_read-outage m ln udp tcp events query old =
    let later = steps (fail m mock_refused udp tcp).0 events in
    let (kept, gone) =
      steps-IsGone ln events (fail m mock_refused udp tcp).0 (refused-IsGone ln m udp tcp old) in
    rw (serve_read, gone) refl

-- Made to fail in any mode, and then restored with both sockets granted, a mock that was up is up
-- again, with both sockets open and no port held, even if a hold was not granted; its counter, its
-- records and its ttl are as before.
pub restore-fail :
    (m : Mock) (mode : Mode) (udp tcp : Bool)
    → m.pc ≡ true
    → is_some m.ln ≡ true
    → m.hold ≡ false
    → m.tcp_hold ≡ false
    → let m' = (restore (fail m mode udp tcp).0 true true).0 in
      (m'.mode ≡ mock_up)
      × (m'.pc ≡ true)
      × (is_some m'.ln ≡ true)
      × (m'.hold ≡ false)
      × (m'.tcp_hold ≡ false)
      × (m'.served ≡ m.served)
      × (m'.records ≡ m.records)
      × (m'.ttl ≡ m.ttl)
unfolding restore fail listen close_sockets release_holds
restore-fail m mock_up udp tcp a b c d = (refl, a, b, c, d, refl, refl, refl)
restore-fail m mock_blackhole udp tcp a b c d = (refl, a, b, c, d, refl, refl, refl)
restore-fail m mock_refused false tcp a b c d = (refl, refl, refl, refl, refl, refl, refl, refl)
restore-fail m mock_refused true false a b c d = (refl, refl, refl, refl, refl, refl, refl, refl)
restore-fail m mock_refused true true a b c d = (refl, refl, refl, refl, refl, refl, refl, refl)
