-- ===== src/Query.antt =====
-- src/query.rs and src/capture.rs: query trees, and how they are matched against a syntax tree.
-- `Tree` has the data, `Engine` and `Match` the matcher, the other modules the proofs about it.
pub mod Tests
pub mod Tree
pub mod Engine
pub mod Match
pub mod Agreement
pub mod Memo
pub mod Ensures
pub mod Regexes
pub mod Progress
pub mod Safe
pub mod Patterns
pub mod Compiled
pub mod Total
pub mod Matches
