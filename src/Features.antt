-- ===== src/Features.antt =====
-- The features of a request and the tests of them against a backend's capabilities.
pub mod Table
pub mod Anthropic
pub mod Responses
