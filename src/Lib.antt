-- ===== src/Lib.antt =====
-- The measurement tools of the repository: the Go programs under bench/, which build DNS messages,
-- offer load, answer as an upstream, start servers and report what they measure, and the one under
-- scripts/re2diff, which compares two readings of regular expressions. The DNS server
-- itself is written in Odin and is not modelled here.
--
-- How the parts fit together. The load generator (bench/cmd/loadgen) and the rate-limit experiment
-- (bench/cmd/rrlexp) build queries and read replies with bench/internal/dnswire, frame them on streams,
-- and hand latencies to bench/internal/hist. The mock upstreams (bench/cmd/mockdns and the mock of
-- rrlexp) read the same queries with dnswire and answer them. bench/internal/unitenv gives the
-- environment that a server is started with, which the runner (bench/cmd/bench) starts and checks.
--
-- Files:
--   Common, Text       shared lists, results and tests; Go's `strings` functions over bytes
--   DnsWire            bench/internal/dnswire: query, ParseReply, Question, questionEnd, AnswerA,
--                      AnswerEmpty; Labels, RoundTrip, Agreement, Parsed, Answers and Safety prove
--   Stream             readFull, io.ReadFull and the length prefix of a stream
--   MockDns            bench/cmd/mockdns: answer and serveTCP
--   Hist               bench/internal/hist: Recorder
--   UnitEnv            bench/internal/unitenv: Parse, Shipped and Check
--   LoadGen            bench/cmd/loadgen: the clients, and the loops of run, runOnce and runHandshake
--   Experiment         bench/cmd/rrlexp: Client (client.go and the counters of main.go), Pace and
--                      Credit (pace, the writers), Redial (runStream, runTCPRedial), Mock (mock.go),
--                      Doh (doh.go, tls.go),
--                      Recovery (soak.go, arms_upstream.go), Matrix (runMatrix, the settings of an arm),
--                      Loads, Holders and Plan (the arms), Arms (runArm, startServer, the outage),
--                      Metrics (counters, the summaries of codes), Tables (report.go), Series (the
--                      series of soak.go and arms_upstream.go); Counts,
--                      Tracking, Paced, Offered, Records, Outage, Exchanges, Numbering, Naming,
--                      Readings, Verdicts, Selected, Releases, Headings, Baselines, Placing,
--                      Pairing, Rounding, Due and Planned prove
--   Bench              bench/cmd/bench: Survey (survey.go), Load (load and what is said of a result),
--                      Runs (loadOnce, once), Options, Servers and Wrappers (server.go), Competitors
--                      (competitors.go, addServers), Ladder and Rivals (compare.go), Acts and Machine
--                      (the harness as the sections use it), Cells (what a report holds), Tables,
--                      Scaling and Weighing (the sections of scenarios.go), Sections (compareHeld,
--                      compare, runAll); Surveyed, Medians, Climbing, Lifetimes, Searches, Startup,
--                      Compared, Keeping, Stopping, Winding, Ending, Leaving, Giving, Titles,
--                      Reported, Measured, Quiet, Noting and Noted prove
--   ProcStat           bench/internal/procstat: RSSBytes, CPUTime, ThreadCount and Sampler
--   Re2Diff            scripts/re2diff: compare, report and the reading of the driver; Tallied proves
--   Examples           tests, and the theorems at concrete inputs
--
-- A Go string or slice is a list of bytes (numbers below 256 where a statement says so), an error is a
-- value, an index out of range is the error `out_of_range`. A function that changes its receiver
-- returns the new value. The loops over the labels of a message run on fuel, one more than its length:
-- each round passes a byte. The inner loop of paceAt has the whole part of its credit as fuel, which
-- a round lowers by 1, and a lemma shows that this is enough. The credit is a float64, rounded as IEEE
-- 754 says. A connection is the list of what arrives on it. Rounds of a loop that waits on a clock or
-- a peer are given by how they went. The loop of serverPid runs on a number of wrappers, and a theorem
-- says which is enough. What floating point compares is compared exactly, over thousandths.
--
-- Not modelled: processes, sockets, TLS, clocks, files and flags, which are input and output;
-- the other floating-point rates; the templates of configurations and the text of reports, whose cells
-- are held as what they are printed from. Nor are the patterns that scripts/re2diff draws.
pub mod Common
pub mod Text
pub mod DnsWire
pub mod Hist
pub mod UnitEnv
pub mod Stream
pub mod MockDns
pub mod LoadGen
pub mod ProcStat
pub mod Experiment
pub mod Examples
pub mod Bench
pub mod Re2Diff
