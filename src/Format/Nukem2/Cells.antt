-- ===== src/Format/Nukem2/Cells.antt =====
-- The cells of a Duke Nukem II level, src/fmt-map-nukem2.cpp: a word each, which holds a background
-- tile, a foreground tile or both, and the extra bits of the foreground tile in the latter case.
use libgamemaps.Prelude.{
  ℕ, zero, suc, ◌+◌, ◌-◌, ◌*◌, ◌/◌, ◌%◌, ◌^◌, bit_or, Option, none, some, List, [], ◌∷◌, ltb, ◌==◌,
  if◌then◌else◌,
}
use libgamemaps.Result.{Result, ok, undefined, ◌>>=◌}
use libgamemaps.Stream.{Streams}
use libgamemaps.Map2D.{Item, default_item}

abbrev pub num_solid_tiles : ℕ
num_solid_tiles = 1000

-- `(uint16_t)-1`, what a cell without a foreground tile holds.
abbrev pub no_tile : ℕ
no_tile = 0xFFFF

-- The word that `write` puts out for the background and the foreground tile of a cell.
unfoldable pub cell_word : ℕ → ℕ → ℕ
cell_word bg fg =
    if fg == no_tile
    then bg * 8
    else if bg == 0
    then (fg * 5 + num_solid_tiles) * 8
    else bit_or (bit_or 0x8000 bg) (fg % 32 * 2 ^ 10)

-- What `write` saves in the array `extra`. `& 0x60` keeps the bits 5 and 6.
unfoldable pub cell_extra : ℕ → ℕ → ℕ
cell_extra bg fg = if fg == no_tile then 0 else if bg == 0 then 0 else fg / 2 ^ 5 % 4 * 2 ^ 5

-- The loops of `write` over the cells.
unfoldable pub cell_words : List ℕ → List ℕ → List ℕ
cell_words (b ∷ bg) (f ∷ fg) = cell_word b f ∷ cell_words bg fg
cell_words _ _ = []

unfoldable pub cell_extras : List ℕ → List ℕ → List ℕ
cell_extras (b ∷ bg) (f ∷ fg) = cell_extra b f ∷ cell_extras bg fg
cell_extras _ _ = []

-- `if (t->code != DN2_DEFAULT_BGTILE)`
unfoldable pub bg_tile : ℕ → Option ℕ
bg_tile code = if code == 0x00 then none else some code

-- The background and the foreground tile that `open` takes from a word and its extra bits.
unfoldable pub read_cell : ℕ → ℕ → Option ℕ × Option ℕ
unfolding bg_tile
read_cell v extra =
    if v / 2 ^ 15 % 2 == 1
    then (bg_tile (v % 2 ^ 10), some (bit_or (v / 2 ^ 10 % 32) extra))
    else if ltb v (num_solid_tiles * 8)
    then (bg_tile (v / 2 ^ 3), none)
    else (none, some ((v / 2 ^ 3 - num_solid_tiles) / 5))

-- An item at cell `i`, if there is a tile.
unfoldable pub tile_items : ℕ → ℕ → Option ℕ → List Item → List Item
tile_items width i none items = items
tile_items width i (some code) items = default_item (i % width) (i / width) code ∷ items

-- The loop of `open` from cell `i` on: the items of the background and of the foreground. Each cell
-- divides by the width, also one whose tile is dropped.
unfoldable pub cell_items : ℕ → ℕ → List ℕ → List ℕ → Result (List Item × List Item)
cell_items width i (v ∷ vs) (extra ∷ extras) =
    let (bg, fg) = read_cell v extra in
    let later = cell_items width (i + 1) vs extras in
    if width == 0 then undefined else do
      (tiles_bg, tiles_fg) ← later
      ok (tile_items width i bg tiles_bg, tile_items width i fg tiles_fg)
cell_items width i _ _ = ok ([], [])

module _ (lib : Streams) where
  open lib use {Input, Output, read_u16le}

  -- The loop of `open` that reads `n` words.
  unfoldable pub read_words : ℕ → Input → Result (List ℕ × Input)
  read_words zero input = ok ([], input)
  read_words (suc n) input = do
    (v, input') ← read_u16le input
    (vs, left) ← read_words n input'
    ok (v ∷ vs, left)
