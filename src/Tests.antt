-- ===== src/Tests.antt =====
-- Runs of the modelled code at concrete inputs, and the theorems applied there.
mod Streams
mod Translation
mod Gateway
mod Deepseek
mod OpenRouter
mod Features
mod Incremental
mod Daemon
mod Prompts
mod Mutations
mod Wrapped
mod Claude
mod Stripped
