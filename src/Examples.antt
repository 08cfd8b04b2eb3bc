-- ===== src/Examples.antt =====
-- Tests of the definitions on small inputs, and the theorems at inputs that meet their hypotheses.
mod Clients
mod Arms
mod Runner
mod Matrix
mod Patterns
mod Processes
mod Outages
mod Wire
mod Services
mod Figures
mod Units
mod Sections
mod Plans
mod Counters
