-- ===== src/OpenRouter.antt =====
-- The OpenRouter provider's admission components (reverso/protocols/adapters/openrouter/*.py).
pub mod Decimal
pub mod Budget
pub mod Grants
pub mod Policy
pub mod Identity
pub mod Runtime
pub mod Continuation
