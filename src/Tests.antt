-- ===== src/Tests.antt =====
-- Runs of the models at concrete inputs, with integers as the amounts, and the theorems there.
mod Mcp
mod Runner
mod Paths
mod Api
mod Breaker
mod Evaluation
mod Gateway
mod Store
mod Service
mod Guard
mod Roi
