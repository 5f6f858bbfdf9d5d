-- ===== src/Layout.antt =====
-- src/core/layout.h and src/core/layout.cpp: the tree of split panes of a tab.
pub mod Tree
pub mod Panes
pub mod Undo
pub mod Geometry
pub mod Tiling
pub mod Dividers
pub mod Clamping
pub mod Navigation
mod Examples
