-- ===== src/Vt.antt =====
-- src/terminal/vt_parser.h and src/terminal/vt_parser.cpp: the parser that turns the output of a
-- pane into calls of a `VtHandler`.
pub mod Params
pub mod Parser
pub mod Feed
pub mod Chunks
pub mod Scan
pub mod Invariant
pub mod Text
pub mod Strings
pub mod Decimal
pub mod Csi
pub mod Sequences
pub mod Osc
mod Examples
