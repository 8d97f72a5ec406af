-- ===== src/Lib.antt =====
-- weggli-enhance searches C and C++ sources for a pattern. A query is compiled into a tree of
-- tree-sitter queries, which is matched against the syntax tree of a file; partial matches are
-- merged where their variables agree, and the remaining ones are reported with their positions.
--
-- The parts and their files:
--   Common    helpers: tests on native numbers, lists, association lists (maps), code that panics
--             (`Outcome`), integers.
--   Text      Rust's `str` as a list of UTF-8 bytes, with the slices that panic off a boundary.
--   Result    src/result.rs: `QueryResult` with `value`, `merge`, `chainable`, `get_capture_result`
--             and `merge_results`. `Result/Bindings` has the invariant and the assignment of texts to
--             variables that a result stands for; `Result/Adopt`, `Result/Merge`, `Result/Chain` and
--             `Result/Products` compare the code with operations on assignments.
--   Number    src/util.rs: `parse_number_literal`. `Number/Notation` describes the literals of C apart
--             from the program, `Number/Digits` and `Number/Parse` compare the parser with it.
--   Query     src/query.rs and src/capture.rs: `Query/Tree` has the data, `Query/Engine`
--             `process_match`, `Query/Match` `match_internal` and `matches`. The cache is passed from
--             call to call. `Query/Agreement` and `Query/Memo` compare it with a matcher without one;
--             `Query/Progress`, `Query/Safe`, `Query/Patterns` and `Query/Total` carry the invariant.
--   Rules     src/rules.rs: `process_regexes`.
--   Pipeline  src/pipeline.rs on one file: the test of the identifiers, the queries, `--unique` and
--             `--limit`, and what is sent to the collector.
--   Chaining  `filter_chainable_results` of src/main.rs: `Chaining/Groups` has the groups,
--             `Chaining/Agreement` the tests on one result, `Chaining/Marks` the vector `keep`, and
--             `Chaining/Survivors` what is returned.
--   Sarif     src/output/sarif.rs and the line of src/output/terminal.rs.
--   Cluster   examples/cluster.c, one of the sample inputs: how a node of a Redis cluster sees the
--             others. `State` has the data; memory is a function from addresses. `Slots` and
--             `Table` have the hash slots and their owners, `Nodes` and `Handshake` the table of
--             nodes, `Reports` and `Failing` the failure reports, `Epochs` and `Votes` the epochs
--             and the votes, `Roles` and `Failover` the roles and the election of a slave, `Health`
--             whether the cluster is up, and `Rebind` the slots under a newer configuration.
--             `Packet`, `Pings`, `Configs`, `Gossip` and `Dispatch` are `clusterProcessPacket`;
--             `Routing` is `getNodeByQuery`, with `Routing/Stable` on slots that are not being
--             moved and `Routing/Crossing` on keys of several slots. `Table/Agreement`,
--             `Roles/Table`, `Rebind/Slot`, `Rebind/Loop` and `Rebind/Owners` are about the table
--             of the slots and the bitmaps of the nodes, as are `Takeover`, `Takeover/Master` and
--             `Takeover/Election` for a slave that replaces its master. `Quiet` and its children
--             compare the epochs and the votes before and after an operation, for `Voting`. `Newest` and
--             `Collisions` are about epochs, `Suspects` about failing nodes, `Forgotten` about the
--             black list, and `Lengths` about the checks of a packet. What is sent, saved or closed
--             is a list of events. `Runs`, `Ballots` and `Trials` run the code on small clusters.
--
-- The parts meet in five places: `process_match` of Query calls `merge_results` of Result and
-- `parse_number_literal` of Number, the sub queries share one cache, Pipeline filters what `matches`
-- returns, Chaining calls `chainable` on what Pipeline sent, and Sarif reads the ranges of the
-- results.
--
-- Numbers are natural numbers; offsets and counts of the program stay below the length of a file.
-- The conversion of a capture's index to a `u32` wraps around, a literal's value is kept in an
-- `i128`. In Cluster an increment of an epoch wraps around at 2^64 and the expected length of a
-- packet at 2^32; a difference of times is compared with its terms on both sides. No definition
-- takes fuel: the recursion follows the query tree and the lists.
--
-- tree-sitter and fancy-regex are the parameters of the record `TreeSitter`; `IsSane` says that a
-- node's range is a slice of its source, `IsCompiled` that the matches of a query have the captures
-- it was compiled with. A regular expression may give an error, on which `process_match` panics:
-- `Query/Regexes` names the expressions of a query tree and that failure, which the results on the
-- matcher state as their other case. A hash map is an association list, iterated in its order. The
-- modules called `Tests` hold runs of the code.
--
-- Not modelled: the query builder (src/builder.rs), the threads of src/pipeline.rs, the rest of
-- src/main.rs, the command line (src/cli.rs), the display of results with colours, the SARIF
-- document's builders, the search for rule files, and the rest of the sample inputs under examples/.
-- Of examples/cluster.c, the sockets, nodes.conf, the CLUSTER commands and the cron job.
pub mod Common
pub mod Text
pub mod Result
pub mod Number
pub mod Query
pub mod Rules
pub mod Pipeline
pub mod Chaining
pub mod Sarif
pub mod Cluster
