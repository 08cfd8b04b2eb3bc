-- ===== src/Bench.antt =====
-- bench/cmd/bench: the runner, which starts servers, measures them, and compares what it measured.
--
-- Survey is the DNSSEC survey, Load the repeated runs of the generator and Runs one of them, Ladder the
-- rates that a server climbs, Competitors which servers are compared, and Options, Servers and Wrappers
-- how one is started, found and stopped. Acts, Machine and Cells are what the sections of a run are made
-- of: those are in Tables, Scaling, Weighing, Rivals and Sections. The other modules prove what they mean.
-- Processes, sockets, clocks and files are input.
pub mod Survey
pub mod Surveyed
pub mod Load
pub mod Medians
pub mod Ladder
pub mod Climbing
pub mod Competitors
pub mod Options
pub mod Servers
pub mod Wrappers
pub mod Searches
pub mod Lifetimes
pub mod Startup
pub mod Compared
pub mod Acts
pub mod Machine
pub mod Cells
pub mod Tables
pub mod Scaling
pub mod Weighing
pub mod Rivals
pub mod Sections
pub mod Keeping
pub mod Stopping
pub mod Winding
pub mod Leaving
pub mod Ending
pub mod Giving
pub mod Titles
pub mod Reported
pub mod Quiet
pub mod Noting
pub mod Noted
pub mod Measured
pub mod Runs
