-- ===== src/Experiment/Plan.antt =====
-- bench/cmd/rrlexp: the arms over IPv6, those of the readers, of the soak and of an outage, and matrix.
use elodin.Common.{Bool, true, false, some, List, [], ◌∷◌, ◌++◌, ltb, if◌then◌else◌, Bytes, codes}
use elodin.Experiment.Client.{ClientSpec}
use elodin.Experiment.Matrix.{FailSpec, Arm}
use elodin.Experiment.Loads.{Flags, client, with_src, against, limited, udp_flood, udp_victim}
use elodin.Experiment.Mock.{Mode, mock_blackhole, mock_refused}
use elodin.Experiment.Tables.{on_off}
use elodin.Experiment.Loads.{baseline_arms, prefix_arms, transport_arms, volume_arms}
use elodin.Experiment.Holders.{doh_arms, connection_arms, handshake_arms}

-- `v6Listen`, `v6FloodSrc`, `v6SameSrc` and `v6OtherSrc`
abbrev v6_listen : Bytes
v6_listen = codes "::1"

abbrev v6_flood_src : Bytes
v6_flood_src = codes "fd00:1::2"

abbrev v6_same_src : Bytes
v6_same_src = codes "fd00:1::3"

abbrev v6_other_src : Bytes
v6_other_src = codes "fd00:2::1"

-- `v6Arms`
unfoldable pub v6_arms : Flags → List Arm
v6_arms f =
    record (limited f (
      against (codes "v6/other-prefix/limiter-on")
        (codes "does a flood from another /64 reach a victim's answers")
        (with_src (udp_flood f) v6_flood_src) (with_src (udp_victim f) v6_other_src))) {
          listen = v6_listen;
        }
    ∷ record (against (codes "v6/other-prefix/limiter-off")
        (codes "the same flood with no limiter, which is the control")
        (with_src (udp_flood f) v6_flood_src) (with_src (udp_victim f) v6_other_src)) {
          listen = v6_listen;
        }
    ∷ record (limited f (
        against (codes "v6/same-prefix/limiter-on")
          (codes "a victim inside the flooded /64, where the budget is shared by design")
          (with_src (udp_flood f) v6_flood_src) (with_src (udp_victim f) v6_same_src))) {
            listen = v6_listen;
          }
    ∷ []

abbrev reader_flood : ClientSpec
reader_flood = client (codes "127.0.0.1") (codes "udp") 0 4

-- `readerArms`
unfoldable pub reader_arms : Flags → List Arm
reader_arms f =
    record (limited f (
      against (codes "readers/one")
        (codes "what a bystander loses when one thread has to read every datagram") reader_flood
        (client (codes "127.1.0.1") (codes "udp") f.victim_rate 1))) { readers = 1 }
    ∷ record (limited f (
        against (codes "readers/two")
          (codes "the same flood with a second reader, on a server pinned to two CPUs") reader_flood
          (client (codes "127.1.0.1") (codes "udp") f.victim_rate 1))) { readers = 2 }
    ∷ record (limited f (
        against (codes "readers/four")
          (codes "and with more readers than the server has CPUs, which is where they contend")
          reader_flood (client (codes "127.1.0.1") (codes "udp") f.victim_rate 1))) { readers = 4 }
    ∷ []

-- `soakArms`
unfoldable pub soak_arms : Flags → List Arm
soak_arms f =
    record (limited f (
      against (codes "soak/other-prefix")
        (codes
          "what an hour of flooding does to the memory, the cache and the connection table around a limiter that is holding")
        (client (codes "127.0.0.2") (codes "udp") f.flood_rate 4)
        (record (client (codes "127.1.0.1") (codes "tcp") f.victim_rate 1) { redial = true }))) {
          max_conns = 512;
          per_prefix = 256;
          cache_entries = 10000;
          client_timeout = 10000000000;
          dur = f.soak;
          sample = f.soak_sample;
        }
    ∷ []

-- the clients of `upstreamFailArms`
abbrev fail_misses : ClientSpec
fail_misses = client (codes "127.0.0.2") (codes "udp") 200 1

abbrev fail_victim : Flags → ClientSpec
fail_victim f = record (client (codes "127.1.0.1") (codes "udp") f.victim_rate 1) {
  qmode = codes "fixed";
}

-- an arm with an outage: `failArm` long, read every second
abbrev failing_arm : Flags → Bytes → Bytes → FailSpec → Arm
failing_arm f name question spec = record (against name question fail_misses (fail_victim f)) {
  dur = 30000000000;
  sample = 1000000000;
  fail = some spec;
}

-- an arm of `upstreamFailArms` with two upstreams
unfoldable pub strategy_arm : Flags → Bytes × Mode → Bytes → Arm
strategy_arm f (name, mode) strategy =
    failing_arm f (codes "upstream-fail/" ++ (name ++ (codes "/" ++ strategy)))
      (codes "what clients see while the first of two upstreams is "
        ++ (name ++ (codes ", under " ++ strategy)))
      (record { mode = mode; strategy = strategy; alone = false; stale = false; ttl = 300 })

-- one with a single upstream
unfoldable pub stale_arm : Flags → Bytes × Mode → Bool → Arm
unfolding on_off
stale_arm f (name, mode) stale =
    failing_arm f
      (codes "upstream-fail/" ++ (name ++ (codes "/only-upstream/stale-" ++ on_off stale)))
      (codes "the only upstream "
        ++ (name ++ (codes ", with answers expiring during it and serve_stale " ++ on_off stale)))
      (record { mode = mode; strategy = codes "failover"; alone = true; stale = stale; ttl = 2 })

abbrev strategy_arms : Flags → Bytes × Mode → List Arm
strategy_arms f m =
    strategy_arm f m (codes "failover")
    ∷ strategy_arm f m (codes "round-robin")
    ∷ strategy_arm f m (codes "race")
    ∷ []

abbrev blackhole : Bytes × Mode
blackhole = (codes "blackhole", mock_blackhole)

abbrev refused : Bytes × Mode
refused = (codes "refused", mock_refused)

-- `upstreamFailArms`
unfoldable pub upstream_fail_arms : Flags → List Arm
unfolding strategy_arm stale_arm
upstream_fail_arms f =
    strategy_arms f blackhole
    ++ (strategy_arms f refused
        ++ (stale_arm f blackhole false
            ∷ stale_arm f blackhole true
            ∷ stale_arm f refused false
            ∷ stale_arm f refused true
            ∷ record (failing_arm f (codes "upstream-fail/blackhole/only-upstream/pending-full")
                (codes
                  "whether cache hits are turned away once misses held by a blackhole fill server.max_pending (pinned to 256)")
                (record {
                  mode = mock_blackhole;
                  strategy = codes "failover";
                  alone = true;
                  stale = false;
                  ttl = 300;
                })) { max_pending = 256 }
            ∷ []))

-- the arms of `matrix` that are not the soak's
unfoldable pub all_arms : Flags → List Arm
unfolding baseline_arms prefix_arms transport_arms volume_arms doh_arms connection_arms
    handshake_arms reader_arms v6_arms upstream_fail_arms
all_arms f =
    baseline_arms f
    ++ (prefix_arms f
        ++ (transport_arms f
            ++ (volume_arms f
                ++ (doh_arms f
                    ++ (connection_arms f
                        ++ (handshake_arms f
                            ++ (reader_arms f ++ (v6_arms f ++ upstream_fail_arms f))))))))

-- `matrix`
unfoldable pub matrix : Flags → List Arm
unfolding all_arms soak_arms
matrix f = let every = all_arms f in if ltb 0 f.soak then soak_arms f else every
