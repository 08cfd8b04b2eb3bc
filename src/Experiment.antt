-- ===== src/Experiment.antt =====
-- bench/cmd/rrlexp: the experiment that puts hostile and well-behaved clients against a server.
--
-- Client holds the counters, the tracker and the readers; Pace the loops that send, by the credit of Credit,
-- and the clients that write, Redial the clients that open connections, Doh those over HTTP and those that only shake hands,
-- Mock the upstream that fails, Recovery the readings of an arm, Matrix and Arms which arms run and how,
-- Loads, Holders and Plan what the arms are, Metrics the counters that the server shows and the summaries
-- of codes, and Tables and Series what the report has of them. The other modules prove what they mean.
-- Dials, TLS, clocks and the sockets that the kernel grants are input.
pub mod Client
pub mod Doh
pub mod Recovery
pub mod Matrix
pub mod Headings
pub mod Series
pub mod Baselines
pub mod Arms
pub mod Releases
pub mod Tables
pub mod Selected
pub mod Readings
pub mod Verdicts
pub mod Numbering
pub mod Naming
pub mod Mock
pub mod Records
pub mod Outage
pub mod Credit
pub mod Rounding
pub mod Due
pub mod Pace
pub mod Paced
pub mod Offered
pub mod Redial
pub mod Counts
pub mod Exchanges
pub mod Tracking
pub mod Loads
pub mod Holders
pub mod Plan
pub mod Pairing
pub mod Placing
pub mod Planned
pub mod Metrics
