-- ===== src/LoadGen.antt =====
-- bench/cmd/loadgen/main.go: the load generator.
--
-- Clients holds one query on each transport, Runs the loops that ask and what they count. The other
-- modules prove what they mean. Clocks, dials and TLS are input: a round of a loop is given by how it
-- went, and floating-point rates are not modelled.
pub mod Clients
pub mod Runs
pub mod Exchange
pub mod Accounts
pub mod Extremes
