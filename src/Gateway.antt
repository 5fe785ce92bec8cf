-- ===== src/Gateway.antt =====
-- backend/src/roiconsole/gateway: the model gateway, a module for each of its files.
pub mod Breaker
pub mod Router
pub mod Pricing
pub mod Store
pub mod Budgets
pub mod RateLimit
pub mod Calls
pub mod Planning
pub mod Service
pub mod Streaming
