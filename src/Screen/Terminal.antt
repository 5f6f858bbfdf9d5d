-- ===== src/Screen/Terminal.antt =====
-- Pane::feed_data of src/core/pane.cpp, without the rendering: the parser reads a chunk of output and calls
-- the screen, and the search goes on.
use rivt.Base.{not, ◌&&◌, if◌then◌else◌, ℕ, Option, none, some}
use rivt.Base.Bytes.{Bytes, All}
use rivt.Vt.Parser.{Parser}
use rivt.Vt.Feed.{feed}
use rivt.Vt.Invariant.{IsValid}
use rivt.Vt.Chunks.{Fed}
use rivt.Screen.State.{Screen}
use rivt.Screen.Strings.{handle_all}
use rivt.Screen.Search.{is_empty_query, find_matches_incremental}
use rivt.Screen.Fits.{IsScreen}
use rivt.Screen.Invariant.Handler.{InsertFits}

-- That each ICH of the calls fits the ints of a screen of `cols` columns.
abbrev pub InsertsFit : ℕ → Fed → Type 0
InsertsFit cols none = Unit
InsertsFit cols (some (p, calls)) = All (InsertFits cols) calls

module _ (apc_dispatch : Bytes → Screen → Screen) where
  -- The search goes on in what is new.
  abbrev pub search_new : Screen → Screen
  search_new s =
      if s.search.active && not (is_empty_query s.search.query)
      then find_matches_incremental s
      else s

  abbrev pub apply : Screen → Fed → Option (Parser × Screen)
  apply s none = none
  apply s (some (p, calls)) = some (p, search_new (handle_all apc_dispatch calls s))

  unfoldable pub feed_data : Parser → Screen → Bytes → Option (Parser × Screen)
  unfolding feed find_matches_incremental
  feed_data p s bytes = apply s (feed p bytes)

  module _ (cols rows : ℕ)
      (apc_dispatch-IsScreen : (payload : Bytes) (s : Screen)
        → IsScreen cols rows s
        → IsScreen cols rows (apc_dispatch payload s)) where
    -- A state that is reached, and well formed.
    abbrev pub IsTerminal : Option (Parser × Screen) → Type 0
    IsTerminal none = ⊥
    IsTerminal (some (p, s)) = IsValid p × IsScreen cols rows s
