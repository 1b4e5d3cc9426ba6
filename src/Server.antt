-- ===== src/Server.antt =====
-- python/src/edge0/server: the text that the HTTP layer and the tool-call parser work on, the streamed
-- reply, and the parsers.
pub mod Text
pub mod Stream
pub mod Json
pub mod ToolCalls
pub mod Request
pub mod Routes
pub mod Session
