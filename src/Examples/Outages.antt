-- ===== src/Examples/Outages.antt =====
-- The experiment's mock at concrete inputs.
use elodin.Common.{◌≡◌, refl, true, false, some, List, [], ◌∷◌, Bytes, arith, ok}
use elodin.DnsWire.{question, read_name, read_label, byte_at, u16_at, slice}
use elodin.Experiment.Mock.{
  mock_up, mock_refused, Mock, fail, reset, serve_read, Event, failed_to, restored, asked_over,
  asked_by_datagram, steps,
}
use elodin.Experiment.Outage.{IsConsistent, steps-IsConsistent, serve_read-outage}

abbrev root_query : Bytes
root_query = 0 ∷ 9 ∷ 1 ∷ 0 ∷ 0 ∷ 1 ∷ 0 ∷ 0 ∷ 0 ∷ 0 ∷ 0 ∷ 0 ∷ 0 ∷ 0 ∷ 1 ∷ 0 ∷ 1 ∷ []

root_asked : question root_query ≡ ok ([], 1)
unfolding question read_name read_label byte_at u16_at slice
root_asked = refl

abbrev upstream : Mock
upstream = record {
  pc = true;
  ln = some 0;
  hold = false;
  tcp_hold = false;
  records = 70;
  ttl = 300;
  served = 5;
  mode = mock_up;
  next = 1;
}

-- an outage, a restart and two queries after it
abbrev events : List Event
events = asked_by_datagram mock_up root_query ∷ restored true true ∷ asked_over 1 root_query ∷ []

steps-IsConsistent_example :
    IsConsistent (steps upstream (failed_to mock_refused true true ∷ events))
steps-IsConsistent_example =
    steps-IsConsistent (failed_to mock_refused true true ∷ events) upstream
      (refl, refl, omega arith)

serve_read-outage_example :
    serve_read (steps (fail upstream mock_refused true true).0 events) 0 root_query
    ≡ (steps (fail upstream mock_refused true true).0 events, reset)
serve_read-outage_example = serve_read-outage upstream 0 true true events root_query (omega arith)
