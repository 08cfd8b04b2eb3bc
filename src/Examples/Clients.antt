-- ===== src/Examples/Clients.antt =====
-- The experiment's clients at concrete inputs.
use elodin.Common.{
  ℕ, ◌+◌, ◌-◌, ◌≡◌, refl, true, false, List, [], ◌∷◌, Bytes, codes, some, none, min, arith, ok,
  ◌==◌, Bool, not,
}
use elodin.DnsWire.{Reply, parse_reply, u16_at}
use elodin.Stream.{Conn, frame, read_full}
use elodin.Text.{str_eq}
use elodin.Experiment.Client.{
  run_client, run_udp, count_closed, sent_at, delete, ClientSpec, no_stats, Tracker, put, took,
  receive, tcp_reader, eof, held, ended, not_dialled, Held,
}
use elodin.Experiment.Tracking.{took-put}
use elodin.Experiment.Pace.{pace, spend, sends, Writer, socket_rate, tcp_writer}
use elodin.Experiment.Due.{due, IsDue}
use elodin.Experiment.Paced.{pace-sends}
use elodin.Experiment.Offered.{Wrote, queries, tcp_writer-Wrote}
use elodin.Experiment.Redial.{Attempt, no_connection, connected}

-- a NOERROR reply of id 7, and a truncated one
abbrev pub noerror : Bytes
noerror = 0 ∷ 7 ∷ 0x81 ∷ 0x80 ∷ 0 ∷ 0 ∷ 0 ∷ 1 ∷ 0 ∷ 0 ∷ 0 ∷ 0 ∷ []

abbrev slip : Bytes
slip = 0 ∷ 8 ∷ 0x83 ∷ 0x80 ∷ 0 ∷ 0 ∷ 0 ∷ 0 ∷ 0 ∷ 0 ∷ 0 ∷ 0 ∷ []

abbrev asked : Tracker
asked = record { sent = (7, 100) ∷ (8, 200) ∷ []; on = true }

-- two replies in three pieces, and then the server closes the connection
abbrev pieces : Conn
pieces =
    (0 ∷ 12 ∷ 0 ∷ [])
    ∷ (7 ∷ 0x81 ∷ 0x80 ∷ 0 ∷ 0 ∷ 0 ∷ 1 ∷ 0 ∷ 0 ∷ 0 ∷ 0 ∷ 0 ∷ [])
    ∷ (12 ∷ slip)
    ∷ []

pieces_counted :
    let st = (tcp_reader (150 ∷ 250 ∷ 300 ∷ []) pieces eof false no_stats asked).0 in
    (st.full ≡ 1) × (st.truncated ≡ 1) × (st.lat ≡ 50 ∷ []) × (st.closed ≡ 1) × (st.bytes_in ≡ 28)
unfolding tcp_reader receive took read_full count_closed parse_reply u16_at sent_at delete
pieces_counted = (refl, refl, refl, refl, refl)

took-put_example :
    ((took (put asked 9 300) 9 340).1 ≡ some (340 - 300))
    × ((took (took (put asked 9 300) 9 340).0 9 400).1 ≡ none)
    × ((took (put asked 9 300) 7 340).1 ≡ (took asked 7 340).1)
    × ((took (took (put asked 9 300) 9 340).0 7 400).1 ≡ (took asked 7 400).1)
took-put_example = took-put asked 9 7 300 340 400 refl (omega arith)

abbrev noerror_reply : Reply
noerror_reply = record { id = 7; rcode = 0; an_count = 1; truncated = false; ad = false }

noerror-parsed : parse_reply noerror ≡ ok noerror_reply
unfolding parse_reply u16_at
noerror-parsed = refl

abbrev pub spec : ClientSpec
spec = record {
  src = codes "127.0.0.2";
  transport = codes "udp";
  rate = 3000;
  sockets = 2;
  inflight = 0;
  qmode = codes "fixed";
  idle = false;
  redial = false;
  handshake = false;
}

spec_runs_udp : run_client spec ≡ run_udp
unfolding run_client str_eq
spec_runs_udp = refl

abbrev writer : Writer
writer = record {
  seq = 65534;
  stats = no_stats;
  tracker = asked;
  clock = 1 ∷ 2 ∷ [];
  writes = 2;
  wrote = [];
}

tcp_writer-Wrote_example :
    Wrote
      (queries frame spec (codes "a") 0 65534 (min (due (socket_rate spec) 4) 2))
      writer
      (tcp_writer spec (codes "a") 0 4 writer)
    × IsDue (socket_rate spec) 4 (due (socket_rate spec) 4)
tcp_writer-Wrote_example = tcp_writer-Wrote spec (codes "a") 0 4 writer (omega arith) (omega arith)

-- three ticks at a rate of 1500, a send that fails once it has counted to 10
abbrev up_to_ten : ℕ → ℕ × Bool
up_to_ten n = (n + 1, not (n == 9))

paced : pace up_to_ten 1500 3 0 ≡ 4
unfolding pace spend
paced = refl

-- ten ticks at a rate of 100, whose credit rounds to less than 1
late : pace up_to_ten 100 10 0 ≡ 0
unfolding pace spend
late = refl

pace-sends_example :
    (pace up_to_ten 1500 3 0 ≡ (sends up_to_ten (due 1500 3) 0).0) × IsDue 1500 3 (due 1500 3)
pace-sends_example = pace-sends up_to_ten 1500 3 0 (omega arith) (omega arith)

abbrev attempts : List Attempt
attempts = no_connection ∷ connected true pieces 10 30 ∷ connected false [] 40 50 ∷ []

abbrev sockets : List Held
sockets = held ∷ not_dialled ∷ ended false ∷ ended true ∷ []
