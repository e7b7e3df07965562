-- ===== src/Resilience.antt =====
-- packages/model_gateway/resilience.py: the policies around a model call, one module each, and the
-- executor that puts them together.
pub mod Errors
pub mod RateLimiter
pub mod CircuitBreaker
pub mod JobBudget
pub mod Executor
mod Examples
