-- ===== src/Bench/Options.antt =====
-- bench/cmd/bench/server.go and competitors.go: what a row asks of a server, and the sizes it is given.
use elodin.Common.{
  ℕ, ◌+◌, ◌-◌, ◌*◌, ◌/◌, min, max, Bool, [], leb, ltb, ◌==◌, if◌then◌else◌, Bytes, codes,
}
use elodin.Text.{str_eq}

pub record ServerOpts : Type 0 where
  pub name : Bytes
  pub kind : Bytes
  pub loops : ℕ
  pub max_pending : ℕ
  pub max_connections : ℕ
  pub client_timeout : ℕ
  pub cpus : Bytes
  pub cache : Bool
  pub cache_entries : ℕ
  pub block_rules : ℕ
  pub cert_kind : Bytes
  pub log_queries : Bool
  pub log_level : Bytes
  pub no_upstream : Bool
  pub dnssec : Bool
  pub upstream_addr : Bytes
  pub attempts : ℕ

abbrev or_number : ℕ → ℕ → ℕ
or_number n d = if n == 0 then d else n

abbrev pub or_text : Bytes → Bytes → Bytes
or_text s d = if str_eq s [] then d else s

-- the defaults that `start` fills in; the time is in nanoseconds
unfoldable pub with_defaults : ServerOpts → ServerOpts
unfolding str_eq
with_defaults o = record o {
  max_connections = or_number o.max_connections 512;
  client_timeout = or_number o.client_timeout 10000000000;
  cache_entries = or_number o.cache_entries 10000;
  cert_kind = or_text o.cert_kind (codes "ecdsa");
  log_level = or_text o.log_level (codes "warn");
  attempts = or_number o.attempts 1;
}

-- `unboundThreads` on a machine with so many CPUs
unfoldable pub unbound_threads : ℕ → ℕ → ℕ
unbound_threads cpus loops = if ltb 0 loops then loops else min cpus 8

-- the handlers of each thread in `unboundConfig`
unfoldable pub per_thread_tcp : ℕ → ℕ → ℕ
per_thread_tcp connections threads = 3 * ((connections + threads - 1) / threads) + 64

unfoldable pub cache_bytes : ServerOpts → ℕ → ℕ
cache_bytes o per =
    let b = o.cache_entries * per in if leb 10000 o.cache_entries then max b 33554432 else b

unfoldable pub inflight_bound : ServerOpts → ℕ
inflight_bound o = max 4096 o.max_pending
