-- ===== src/Experiment/Holders.antt =====
-- bench/cmd/rrlexp/main.go: the arms over DoH, and those that hold connections or make handshakes.
use elodin.Common.{ℕ, ◌+◌, true, List, [], ◌∷◌, ◌++◌, Bytes, codes}
use elodin.Experiment.Client.{ClientSpec}
use elodin.Experiment.Matrix.{Arm}
use elodin.Experiment.Loads.{Flags, client, with_src, alone, against, limited, udp_victim}

-- one connection, sixty-four requests in the air
abbrev h2_flood : ClientSpec
h2_flood = record (client [] (codes "doh2") 0 1) { inflight = 64 }

-- `dohArms`
unfoldable pub doh_arms : Flags → List Arm
doh_arms f =
    limited f (
      against (codes "doh2/one-connection-flood")
        (codes
          "can one multiplexed connection reach the stream budget, where eight pipelined TCP ones could not")
        (with_src h2_flood (codes "127.0.0.2")) (with_src (udp_victim f) (codes "127.0.0.3")))
    ∷ limited f (
        against (codes "doh2/flood-vs-doh-victim")
          (codes
            "a DoH victim inside the flooded /24, where both clients spend the same stream budget")
          (with_src h2_flood (codes "127.0.0.2"))
          (record (client (codes "127.0.0.3") (codes "doh2") f.victim_rate 1) { inflight = 4 }))
    ∷ limited f (
        against (codes "doh2/flood-vs-doh-victim-other-prefix")
          (codes
            "and a DoH victim outside it, which is whether the stream budget's prefix is a boundary too")
          (with_src h2_flood (codes "127.0.0.2"))
          (record (client (codes "127.1.0.1") (codes "doh2") f.victim_rate 1) { inflight = 4 }))
    ∷ limited f (
        against (codes "doh2/flood-vs-other-prefix")
          (codes "what the 429-and-stay-open refusal costs a client in another /24")
          (with_src h2_flood (codes "127.0.0.1")) (with_src (udp_victim f) (codes "127.1.0.1")))
    ∷ against (codes "doh2/flood-vs-other-prefix/limiter-off")
        (codes
          "the same flood with no limiter, which is what makes the row above the limiter's doing")
        (with_src h2_flood (codes "127.0.0.1")) (with_src (udp_victim f) (codes "127.1.0.1"))
    ∷ limited f (
        against (codes "doh1/flood-reconnects")
          (codes
            "what an over-budget HTTP/1.1 client costs, and whether a refusal still costs a handshake")
          (record (client (codes "127.0.0.2") (codes "doh1") 0 64) { inflight = 64 })
          (with_src (udp_victim f) (codes "127.0.0.3")))
    ∷ []

-- `table` and `share` of `connectionArms`
abbrev table : ℕ
table = 64

abbrev share_of_table : ℕ
share_of_table = 32

abbrev slowloris : ClientSpec
slowloris = record (client [] (codes "tcp") 0 (table + 32)) { idle = true }

-- `arrivingVictim`
abbrev arriving_victim : Flags → ClientSpec
arriving_victim f = record (client (codes "127.1.0.1") (codes "tcp") f.victim_rate 1) {
  redial = true;
}

-- `connectionArms`
unfoldable pub connection_arms : Flags → List Arm
connection_arms f =
    record (limited f (
      against (codes "slowloris/no-share")
        (codes
          "what one client holding idle connections does to a client in another /24 when nothing bounds its share")
        (with_src slowloris (codes "127.0.0.2")) (arriving_victim f))) {
          max_conns = table;
          per_prefix = table;
          client_timeout = 60000000000;
        }
    ∷ record (limited f (
        against (codes "slowloris/share")
          (codes
            "the same load with a share of half the table, which is the shipped default in miniature")
          (with_src slowloris (codes "127.0.0.2")) (arriving_victim f))) {
            max_conns = table;
            per_prefix = share_of_table;
            client_timeout = 60000000000;
          }
    ∷ record (limited f (
        against (codes "slowloris/share-costs-a-normal-client-nothing")
          (codes "whether a share that bounds a holder is felt by a client holding one connection")
          (client (codes "127.0.0.2") (codes "udp") f.flood_rate 4) (arriving_victim f))) {
            max_conns = table;
            per_prefix = share_of_table;
            client_timeout = 60000000000;
          }
    ∷ []

-- `hsDialers`, `hsTable` and `hsShare`
abbrev hs_dialers : ℕ
hs_dialers = 32

abbrev hs_table : ℕ
hs_table = 64

abbrev hs_share : ℕ
hs_share = 32

-- `handshakeVictim`
abbrev handshake_victim : Flags → ClientSpec
handshake_victim f = client (codes "127.1.0.1") (codes "dot") f.victim_rate 1

-- `handshakeFlood`
abbrev handshake_flood : Bytes → Bytes → ℕ → ClientSpec
handshake_flood src transport n = record (client src transport 0 n) { handshake = true }

-- `handshakeDefaultArms`
unfoldable pub handshake_default_arms : Flags → List Arm
handshake_default_arms f =
    limited f (
      alone (codes "handshake-flood/quiet-baseline-dot")
        (codes
          "what a DoT victim's queries cost with the server to itself, which is what the handshake arms compare against")
        ((handshake_victim f)))
    ∷ limited f (
        against (codes "handshake-flood/dot")
          (codes "what a client doing only DoT handshakes does to a DoT client in another /24")
          (handshake_flood (codes "127.0.0.2") (codes "dot") hs_dialers) ((handshake_victim f)))
    ∷ limited f (
        against (codes "handshake-flood/dot/same-prefix")
          (codes
            "the same flood with the victim inside its /24, where they share a connection share as well as a budget")
          (handshake_flood (codes "127.0.0.2") (codes "dot") hs_dialers)
          (with_src (handshake_victim f) (codes "127.0.0.3")))
    ∷ limited f (
        against (codes "handshake-flood/doh")
          (codes
            "the same load against the DoH listener, which accepts a connection by its own code - the flood closes before any h2 frame, so this is the handshake alone")
          (handshake_flood (codes "127.0.0.2") (codes "doh2") hs_dialers) ((handshake_victim f)))
    ∷ limited f (
        against (codes "handshake-flood/arriving-client")
          (codes "whether a client turning up mid-flood can get a connection and an answer")
          (handshake_flood (codes "127.0.0.2") (codes "dot") hs_dialers) (arriving_victim f))
    ∷ limited f (
        against (codes "handshake-flood/udp-bystander")
          (codes
            "what a flood held to its arrival budget - and therefore dialling far faster - does to a UDP client in another /24")
          (handshake_flood (codes "127.0.0.2") (codes "dot") hs_dialers)
          (client (codes "127.1.0.1") (codes "udp") f.victim_rate 1))
    ∷ limited f (
        alone (codes "handshake-flood/quiet-baseline-udp")
          (codes "what that UDP client's queries cost with nobody else here")
          (client (codes "127.1.0.1") (codes "udp") f.victim_rate 1))
    ∷ []

-- `handshakeShareArms`
unfoldable pub handshake_share_arms : Flags → List Arm
handshake_share_arms f =
    record (limited f (
      against (codes "handshake-flood/no-share")
        (codes
          "a flood with as many workers as the table has slots, and nothing bounding its share of them")
        (handshake_flood (codes "127.0.0.2") (codes "dot") hs_table) (arriving_victim f))) {
          max_conns = hs_table;
          per_prefix = hs_table;
          client_timeout = 60000000000;
        }
    ∷ record (limited f (
        against (codes "handshake-flood/share")
          (codes
            "the same load held to half the table, which is what the share does and does not do about handshakes")
          (handshake_flood (codes "127.0.0.2") (codes "dot") hs_table) (arriving_victim f))) {
            max_conns = hs_table;
            per_prefix = hs_share;
            client_timeout = 60000000000;
          }
    ∷ []

-- `handshakeArms`
unfoldable pub handshake_arms : Flags → List Arm
unfolding handshake_default_arms handshake_share_arms
handshake_arms f = handshake_default_arms f ++ handshake_share_arms f
