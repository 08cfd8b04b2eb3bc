-- ===== src/Experiment/Mock.antt =====
-- bench/cmd/rrlexp/mock.go: the upstream that can be made to fail.
--
-- A listener is known by a number, a new one for each `net.Listen`; `next` is the number of the next.
-- Whether the kernel grants a socket is input. The delay, which changes no answer, the address and the
-- size of a sample answer are not modelled. A handler reads the mode when it has read a query, and a
-- datagram's handler again before it sends.
use elodin.Common.{
  ℕ, zero, suc, ◌+◌, ◌-◌, ◌%◌, Bool, true, false, not, ◌||◌, Option, none, some, List, [], ◌∷◌,
  ◌++◌, ◌==◌, if◌then◌else◌, Bytes, Result, ok, err, ◌>>=◌,
}
use elodin.DnsWire.{Error, answer_a, a_record, put_u16}
use elodin.Stream.{frame}

-- `mockUp`, `mockBlackhole` and `mockRefused`
pub data Mode : Type 0 where
  mock_up mock_blackhole mock_refused : Mode

abbrev pub is_up : Mode → Bool
is_up mock_up = true
is_up _ = false

abbrev pub is_refused : Mode → Bool
is_refused mock_refused = true
is_refused _ = false

pub record Mock : Type 0 where
  pub pc : Bool
  pub ln : Option ℕ
  pub hold : Bool
  pub tcp_hold : Bool
  pub records : ℕ
  pub ttl : ℕ
  pub served : ℕ
  pub mode : Mode
  pub next : ℕ

-- the records behind the first: `left` of them, from the `i`-th on
unfoldable pub more_records : ℕ → ℕ → ℕ → Bytes
more_records ttl i zero = []
more_records ttl i (suc left) =
    a_record (203 ∷ 0 ∷ 113 ∷ ((1 + i % 250) % 256) ∷ []) ttl ++ more_records ttl (i + 1) left

unfoldable pub answer : Bytes → ℕ → ℕ → Result Error Bytes
unfolding more_records
answer query records ttl = answer_a query (203 ∷ 0 ∷ 113 ∷ 1 ∷ []) ttl >>= λ out.
    put_u16 (out ++ more_records ttl 1 (records - 1)) 6 records

-- the answer and the mock that has counted it
unfoldable pub count_served : Mock → Result Error Bytes → Mock × Result Error Bytes
count_served m (err e) = (m, err e)
count_served m (ok resp) = (record m { served = m.served + 1 }, ok resp)

unfoldable pub reply : Mock → Bytes → Mock × Result Error Bytes
unfolding count_served
reply m query = count_served m (answer query m.records m.ttl)

-- `listen`, where the kernel grants the UDP socket or not, and then the TCP one
unfoldable pub listen : Mock → Bool → Bool → Mock × Bool
listen m udp tcp =
    if not udp || not tcp
    then (m, false)
    else (record m { pc = true; ln = some m.next; next = m.next + 1 }, true)

unfoldable pub release_holds : Mock → Mock
release_holds m = record m { hold = false; tcp_hold = false }

unfoldable pub close_sockets : Mock → Mock
unfolding release_holds
close_sockets m = release_holds (record m { pc = false; ln = none })

-- `fail`, where the kernel grants the UDP port's hold or not, and then the TCP port's; whether it
-- succeeded
unfoldable pub fail : Mock → Mode → Bool → Bool → Mock × Bool
unfolding close_sockets
fail m mode udp tcp =
    let failing = record m { mode = mode } in
    if not (is_refused mode)
    then (failing, true)
    else if not udp
    then (close_sockets failing, false)
    else if not tcp
    then (record (close_sockets failing) { hold = true }, false)
    else (record (close_sockets failing) { hold = true; tcp_hold = true }, true)

unfoldable pub restore : Mock → Bool → Bool → Mock × Bool
unfolding listen release_holds
restore m udp tcp =
    let up = record m { mode = mock_up } in
    if not (is_refused m.mode) then (up, true) else listen (release_holds up) udp tcp

-- what becomes of a connection once a query is read off it
pub data Served : Type 0 where
  reset : Served
  unanswered : Served
  ends : Served
  sent : Bytes → Served

abbrev pub is_current : Option ℕ → ℕ → Bool
is_current none ln = false
is_current (some now) ln = now == ln

-- one round of `serveConn` after its query is read, on a connection that `ln` accepted
unfoldable pub serve_read : Mock → ℕ → Bytes → Mock × Served
unfolding reply
serve_read m ln query =
    if not (is_current m.ln ln) || is_refused m.mode
    then (m, reset)
    else if not (is_up m.mode)
    then (m, unanswered)
    else (let (m', resp) = reply m query in
        (m', elim resp [ err e ↦ ends | ok out ↦ sent (frame out) ]))

-- a datagram of `serveUDP`: what is sent back, if any; `later` is the mode when the answer is ready
unfoldable pub serve_datagram : Mock → Mode → Bytes → Mock × Option Bytes
unfolding reply
serve_datagram m later query =
    if not (is_up m.mode)
    then (m, none)
    else (let (m', resp) = reply m query in
        (m', elim resp [ err e ↦ none | ok out ↦ if is_up later then some out else none ]))

-- what may happen to a mock
pub data Event : Type 0 where
  failed_to : Mode → Bool → Bool → Event
  restored : Bool → Bool → Event
  stopped : Event
  asked_over : ℕ → Bytes → Event
  asked_by_datagram : Mode → Bytes → Event

unfoldable pub step : Mock → Event → Mock
unfolding fail restore close_sockets serve_read serve_datagram
step m (failed_to mode udp tcp) = (fail m mode udp tcp).0
step m (restored udp tcp) = (restore m udp tcp).0
step m stopped = close_sockets m
step m (asked_over ln query) = (serve_read m ln query).0
step m (asked_by_datagram later query) = (serve_datagram m later query).0

unfoldable pub steps : Mock → List Event → Mock
unfolding step
steps m [] = m
steps m (e ∷ events) = steps (step m e) events
