-- ===== src/Screen/Invariant.antt =====
-- The invariant of `ScreenBuffer` through the calls of its handler (src/terminal/screen_buffer.cpp).
pub mod Scroll
pub mod Edit
pub mod Modes
pub mod Calls
pub mod Handler
