-- ===== src/Format/Zone66/Mapping.antt =====
-- The table of the tiles that a Zone 66 level uses, which `write` builds while it fills the
-- background.
use libgamemaps.Prelude.{
  ℕ, ◌+◌, ◌*◌, ◌%◌, not, ◌||◌, Option, none, some, List, [], ◌∷◌, ◌++◌, length, ltb, leb, ◌==◌,
  if◌then◌else◌,
}
use libgamemaps.Result.{Result, ok, check, tile_outside_map, too_many_unique, ◌>>=◌, ◌>>◌}
use libgamemaps.Map2D.{Item}
use libgamemaps.Grid.{store}

abbrev pub map_width : ℕ
map_width = 256

abbrev pub map_height : ℕ
map_height = 256

-- The loop that looks for an existing mapping, from entry `m` on.
unfoldable pub find_mapping : ℕ → List ℕ → ℕ → Option ℕ
find_mapping code [] m = none
find_mapping code (c ∷ map_bg) m = if c == code then some m else find_mapping code map_bg (m + 1)

-- The entries of mapBG that are set, and the background.
pub record Mapping : Type 0 where
  pub map_bg : List ℕ
  pub bg : List ℕ

-- The body of the loop over the items: a new tile takes two entries.
unfoldable pub put_tile : Item → Mapping → Result Mapping
put_tile item s = do
  check (not (ltb map_width item.x || ltb map_height item.y)) tile_outside_map
  elim (find_mapping item.code s.map_bg 0) [
    | some m ↦ do
      bg' ← store s.bg (item.y * map_width + item.x) (m % 256)
      ok (record s { bg = bg' })
    | none ↦ do
      check (not (leb 256 (length s.map_bg))) too_many_unique
      bg' ← store s.bg (item.y * map_width + item.x) (length s.map_bg % 256)
      ok (record { map_bg = s.map_bg ++ item.code ∷ item.code ∷ []; bg = bg' })
  ]

unfoldable pub put_tiles : List Item → Mapping → Result Mapping
put_tiles [] s = ok s
put_tiles (item ∷ items) s = do s' ← put_tile item s; put_tiles items s'
