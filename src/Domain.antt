-- ===== src/Domain.antt =====
-- internal/domain: the evidence vocabulary, the evidence graph, summaries and run reports.
pub mod Vocabulary
pub mod Names
pub mod Evidence
pub mod Recommendation
pub mod Finding
pub mod Graph
pub mod Meta
pub mod Summary
pub mod Report
pub mod RunReport
