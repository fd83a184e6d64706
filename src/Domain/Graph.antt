-- ===== src/Domain/Graph.antt =====
-- internal/domain/graphbuilder.go and graph.go: the evidence graph and its builder.
pub mod Relation
pub mod Walk
pub mod Reachable
pub mod Acyclic
pub mod FindCycle
pub mod Builder
