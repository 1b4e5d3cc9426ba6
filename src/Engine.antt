-- ===== src/Engine.antt =====
-- python/src/edge0/engine and python/src/edge0/prerouter: the loops that every engine shares, and the
-- qwen engine's staging around a forward pass.
pub mod Loop
pub mod Prerouter
pub mod Qwen
pub mod Hooks
pub mod Ling
