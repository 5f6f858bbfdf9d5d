-- ===== src/Lib.antt =====
-- rivt is a terminal emulator with a daemon that keeps panes alive. Output of a pane's program runs
-- through a parser (src/terminal/vt_parser.cpp) that calls a handler; the panes of a tab are laid out
-- in a tree (src/core/layout.cpp). Daemon and client speak a protocol of frames (src/proto/frame.h)
-- whose payloads are written and read field by field (src/proto/wire.h); the contents of a pane travel
-- as snapshots and scrollback chunks, line by line (src/proto/snapshot.cpp). The handler of the parser
-- is the screen of a pane (src/terminal/screen_buffer.cpp).
--
-- Files and the code that they model:
--   Base      helpers: lists over the native numbers, bytes, little-endian numbers, signed integers
--   Wire      src/proto/wire.h. Wire/Writer and Wire/Reader hold `struct Writer` and `struct Reader`;
--             Wire/Fields makes any sequence of their calls a value, which the theorems speak of.
--   Frame     src/proto/frame.h, and the loop of Daemon::process_client in src/daemon/rivtd.cpp, over
--             any state of the receiver and any handler of a frame.
--   Vt        src/terminal/vt_parser.h and .cpp. Vt/Params is the parameter loop of
--             VtParser::action_csi_dispatch, Vt/Parser the state and the other actions, Vt/Feed the
--             `switch` and the loop of VtParser::feed. The calls of the `VtHandler` are a list, in
--             order.
--   Screen    ScreenBuffer of src/terminal/screen_buffer.h and .cpp. Screen/State: the fields; Scroll:
--             scrolling, scrollback and viewport; Edit: put_char, erasing, insert_chars, delete_chars and
--             their kin; Sgr: handle_sgr; Modes: set_mode; Dispatch: print, execute, csi_dispatch;
--             Strings: osc_dispatch, esc_dispatch, and the calls of the handler in order; Reflow and
--             Resize: reflow, resize; Search: SearchState and find_matches; Select: Selection,
--             get_selection_text, find_command_output; Url: detect_url_at; Terminal: Pane::feed_data of
--             src/core/pane.cpp, the parser, the screen and the search together. The calls of callbacks and of the
--             image store are a list in the state, and whether a callback is set is a flag.
--   Snapshot  Snapshot::encode_line and Snapshot::decode_line of src/proto/snapshot.cpp, on the cells
--             and lines of src/core/types.h.
--   Layout    LayoutTree of src/core/layout.h and .cpp. Layout/Tree: init, split, remove, collect_panes;
--             Layout/Geometry: compute_layout and pane_at; Layout/Dividers: drag_divider and
--             resize_edge; Layout/Navigation: navigate. A pane is a number; a ratio is of any type, and
--             the `float` operations on it are parameters. An `int` of the geometry is an integer without a bound.
--   Resume    the re-attach of a client to a pane: the ring of recent output (wire_pane) and the answer
--             to Attach in src/daemon/rivtd.cpp, and the offsets of RemoteClient::process_buffer and
--             RemoteClient::attach in src/remote/remote_client.cpp; one pane and one client, within
--             one lifetime of the daemon. What happens is a list of events, in any order: the pane
--             writes, a frame arrives, the connection breaks, the client dials, the daemon answers.
--             A new Attach is sent on a new connection. Snapshot::serialize is a parameter there.
-- Each of them has a module Examples with runs on concrete input.
--
-- Bounds and fuel. A C++ integer of w bits is a number below 2 ^ w, with its wrap-around written out;
-- an overflow of `int` in the digit loops, which C++ leaves undefined, wraps. The loop over the
-- parameters of a control sequence has a round of fuel for each byte and one more; `none` means that
-- it does not end. The frame loop takes eight bytes in each round, and its fuel is the number of
-- bytes and one more. The loops of encode_line and decode_line take a cell in each round and have a
-- round for each cell. In Screen, the sums of a cursor position and a count are ints that wrap
-- around, which C++ leaves undefined; where insert_chars then writes outside of its row, the field
-- `faulted` of the state says so. Other rows and columns are numbers without a bound, and absolute line
-- numbers are integers without one; widths and heights are positive. A scrollback limit below 0,
-- with which push_scrollback takes from an empty deque, counts as 0. The loop that trims the scrollback
-- has a round for each line, the binary search of match_type one for each match, and the loop of
-- detect_url_at over the positions one for each code point, with `none` where that is not enough. The theorems on re-attaching hold below 2 ^ 64 bytes of output.
--
-- Not modelled: the sections of a snapshot other than lines, LayoutTree::divider_at, ScreenBuffer's
-- apc_dispatch (Kitty graphics, a parameter of Screen), the handlers of messages, and what stands on
-- sockets, processes, timers, graphics, cryptography or third-party code.
pub mod Base
pub mod Wire
pub mod Frame
pub mod Vt
pub mod Snapshot
pub mod Layout
pub mod Resume
pub mod Screen
