-- ===== src/Frame.antt =====
-- src/ws/wsutil.cpp and include/ws/wsutil.h: websocket frames.
mod Handle
pub mod Mask
pub mod Reader
pub mod Decode
pub mod Parser
pub mod Generator
pub use Handle.*
