-- ===== src/Diagnosis.antt =====
-- internal/diagnosis: the engine that runs the rules over an evidence graph and merges what they
-- conclude.
pub mod RuleId
pub mod Basis
pub mod Confidence
pub mod Groups
pub mod Merge
pub mod Converge
pub mod Registry
pub mod Validate
pub mod Queries
pub mod Siblings
pub mod Boundary
pub mod FailureBoundary
pub mod Engine
pub mod ActionText
pub mod Advice
