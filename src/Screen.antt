-- ===== src/Screen.antt =====
-- src/terminal/screen_buffer.h and src/terminal/screen_buffer.cpp: the terminal's screen, the handler
-- that `VtParser` calls.
pub mod Fields
pub mod State
pub mod Scroll
pub mod Edit
pub mod Sgr
pub mod Modes
pub mod Dispatch
pub mod Strings
pub mod Reflow
pub mod Resize
pub mod Search
pub mod Select
pub mod Url
pub mod Fits
pub mod WellFormed
pub mod Invariant
pub mod Lines
pub mod Scrolled
pub mod Rows
pub mod History
pub mod Terminal
pub mod Kept
pub mod Resized
pub mod Rewrapped
pub mod Turned
pub mod Found
pub mod Located
pub mod Output
pub mod Scan
mod Examples
