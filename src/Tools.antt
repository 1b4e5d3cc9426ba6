-- ===== src/Tools.antt =====
-- The tools that repack the weights of a checkpoint for other platforms.
pub mod Decimal
pub mod Experts
pub mod Gguf
pub mod R3
