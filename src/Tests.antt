-- ===== src/Tests.antt =====
-- Runs of the model on small inputs, and the theorems applied to them.
mod Graph
mod Values
mod Rabbitmq
mod Redis
mod Reports
mod Fleet
mod Boundaries
mod Scram
mod Advice
mod Diagnosis
