-- ===== src/Experiment/Loads.antt =====
-- bench/cmd/rrlexp/main.go: the arms of the experiment over UDP and TCP, and what they are made of.
--
-- Times are nanoseconds. What an arm is asking is its question, printed with the row.
use elodin.Common.{ℕ, true, false, none, some, List, [], ◌∷◌, Bytes, codes}
use elodin.Experiment.Client.{ClientSpec}
use elodin.Experiment.Matrix.{Arm}

-- the flags that the arms read
pub record Flags : Type 0 where
  pub flood_rate : ℕ
  pub victim_rate : ℕ
  pub rps : ℕ
  pub slip : ℕ
  pub soak : ℕ
  pub soak_sample : ℕ

abbrev pub client : Bytes → Bytes → ℕ → ℕ → ClientSpec
client src transport rate sockets = record {
  src = src;
  transport = transport;
  rate = rate;
  sockets = sockets;
  inflight = 0;
  qmode = [];
  idle = false;
  redial = false;
  handshake = false;
}

-- `withSrc` and `withSrcP`
abbrev pub with_src : ClientSpec → Bytes → ClientSpec
with_src c src = record c { src = src }

-- an arm that leaves out all that it can
abbrev pub alone : Bytes → Bytes → ClientSpec → Arm
alone name question victim = record {
  name = name;
  question = question;
  dur = 0;
  sample = 0;
  fail = none;
  listen = [];
  limiter = false;
  rps = 0;
  slip = 0;
  max_conns = 0;
  per_prefix = 0;
  client_timeout = 0;
  max_pending = 0;
  readers = 0;
  cache_entries = 0;
  attacker = none;
  victim = victim;
}

-- one with an attacker
abbrev pub against : Bytes → Bytes → ClientSpec → ClientSpec → Arm
against name question attacker victim = record (alone name question victim) {
  attacker = some attacker;
}

-- one with the limiter on, as the flags set it
abbrev pub limited : Flags → Arm → Arm
limited f a = record a { limiter = true; rps = f.rps; slip = f.slip }

abbrev pub udp_flood : Flags → ClientSpec
udp_flood f = client [] (codes "udp") f.flood_rate 4

abbrev pub udp_victim : Flags → ClientSpec
udp_victim f = client [] (codes "udp") f.victim_rate 1

-- `baselineArms`
unfoldable pub baseline_arms : Flags → List Arm
baseline_arms f =
    limited f (
      alone (codes "quiet-baseline") (codes "what a victim's queries cost when nobody else is here")
        (with_src (udp_victim f) (codes "127.9.0.1")))
    ∷ limited f (
        alone (codes "quiet-baseline/tcp")
          (codes
            "what a victim's queries cost over TCP with nobody else here, which is what the TCP arms below compare against")
          (client (codes "127.9.0.1") (codes "tcp") f.victim_rate 1))
    ∷ []

-- `prefixArms`
unfoldable pub prefix_arms : Flags → List Arm
prefix_arms f =
    limited f (
      against (codes "other-prefix/limiter-on")
        (codes "does a flood from another /24 reach a victim's answers")
        (with_src (udp_flood f) (codes "127.0.0.1")) (with_src (udp_victim f) (codes "127.1.0.1")))
    ∷ against (codes "other-prefix/limiter-off")
        (codes "the same flood with no limiter, which is the control")
        (with_src (udp_flood f) (codes "127.0.0.1")) (with_src (udp_victim f) (codes "127.1.0.1"))
    ∷ limited f (
        against (codes "same-prefix/limiter-on")
          (codes "a victim inside the flooded /24, where the budget is shared by design")
          (with_src (udp_flood f) (codes "127.0.0.2"))
          (with_src (udp_victim f) (codes "127.0.0.3")))
    ∷ against (codes "same-prefix/limiter-off") (codes "the same, with no limiter")
        (with_src (udp_flood f) (codes "127.0.0.2")) (with_src (udp_victim f) (codes "127.0.0.3"))
    ∷ []

-- `transportArms`
unfoldable pub transport_arms : Flags → List Arm
transport_arms f =
    limited f (
      against (codes "same-prefix/victim-on-tcp")
        (codes "the slip's invitation: the victim retries over TCP, which is the other pool")
        (with_src (udp_flood f) (codes "127.0.0.2"))
        (client (codes "127.0.0.3") (codes "tcp") f.victim_rate 1))
    ∷ against (codes "same-prefix/victim-on-tcp/limiter-off")
        (codes
          "the same victim on TCP with no limiter, which is what makes the row above the limiter's doing")
        (with_src (udp_flood f) (codes "127.0.0.2"))
        (client (codes "127.0.0.3") (codes "tcp") f.victim_rate 1)
    ∷ limited f (
        against (codes "same-prefix/tcp-flood-udp-victim")
          (codes "the separation the other way round: a pipelined TCP flood against a UDP victim")
          (client (codes "127.0.0.2") (codes "tcp") f.flood_rate 8)
          (with_src (udp_victim f) (codes "127.0.0.3")))
    ∷ limited f (
        against (codes "same-prefix/tcp-flood-64-conns")
          (codes "a TCP flood with enough connections to actually reach the stream budget")
          (client (codes "127.0.0.2") (codes "tcp") 0 64)
          (with_src (udp_victim f) (codes "127.0.0.3")))
    ∷ []

-- `volumeArms`
unfoldable pub volume_arms : Flags → List Arm
volume_arms f =
    against (codes "cached-flood/limiter-off")
      (codes
        "the reflection an unlimited resolver delivers when the flood asks a name it already has")
      (record (client (codes "127.0.0.1") (codes "udp") 0 4) { qmode = codes "fixed" })
      (with_src (udp_victim f) (codes "127.1.0.1"))
    ∷ limited f (
        against (codes "cached-flood/limiter-on")
          (codes
            "the same flood against the shipped default, which is the bound the feature exists to put on it")
          (record (client (codes "127.0.0.1") (codes "udp") 0 4) { qmode = codes "fixed" })
          (with_src (udp_victim f) (codes "127.1.0.1")))
    ∷ record (limited f (
        against (codes "cached-flood/slip-0")
          (codes "what the reflected volume becomes with the slip turned off")
          (record (client (codes "127.0.0.1") (codes "udp") 0 4) { qmode = codes "fixed" })
          (with_src (udp_victim f) (codes "127.1.0.1")))) { slip = 0 }
    ∷ record (limited f (
        against (codes "same-prefix/slip-0")
          (codes "what a bystander in the flooded /24 loses when the slip is off")
          (with_src (udp_flood f) (codes "127.0.0.2"))
          (with_src (udp_victim f) (codes "127.0.0.3")))) { slip = 0 }
    ∷ limited f (
        against (codes "other-prefix/flat-out")
          (codes "the same isolation when the flood is not throttled at all")
          (client (codes "127.0.0.1") (codes "udp") 0 4)
          (with_src (udp_victim f) (codes "127.1.0.1")))
    ∷ []
