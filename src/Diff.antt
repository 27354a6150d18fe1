-- ===== src/Diff.antt =====
-- libs/core/src/lib/diff: the comparison of the answers that two sides give.
pub mod Tabular
pub mod Keys
pub mod Rdf
