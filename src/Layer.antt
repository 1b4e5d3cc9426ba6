-- ===== src/Layer.antt =====
-- python/src/edge0/streaming/layer.py: StreamingSwitchGLU, one routed-expert block whose experts are
-- read from storage on demand.
pub mod State
pub mod Build
pub mod Bundles
pub mod Incr
pub mod Staging
pub mod Pins
pub mod Forward
pub mod Step
pub mod Async
