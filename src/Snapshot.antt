-- ===== src/Snapshot.antt =====
-- src/proto/snapshot.cpp: the encoding of one line of a pane, which snapshots and scrollback chunks
-- share; and the cells and lines of src/core/types.h.
pub mod Cells
pub mod Line
pub mod RoundTrip
pub mod Bounds
mod Examples
