-- ===== src/Format/Vinyl.antt =====
-- src/fmt-map-vinyl.cpp: Vinyl Goddess From Mars levels, two 16-bit dimensions, a grid of words
-- and a grid of bytes.
pub mod Map
pub mod RoundTrip
pub mod Instance
mod Tests
use libgamemaps.Prelude.{
  ℕ, zero, suc, ◌+◌, ◌*◌, ◌/◌, ◌%◌, ◌^◌, not, Option, none, List, [], ◌∷◌, replicate, ltb, ◌==◌,
  if◌then◌else◌,
}
use libgamemaps.Result.{
  Result, ok, throw, undefined, assertion_failed, check, not_implemented, wrong_layer_count, ◌>>=◌,
  ◌>>◌,
}
use Prim.Native.String.{String}
use libgamemaps.Stream.{Streams}
use libgamemaps.Map2D.{
  Item, Layer, Map2D, ImageType, Certainty, definitely_no, definitely_yes, background_tileset1,
}
use libgamemaps.Map2D.MapCaps
use libgamemaps.Map2D.LayerCaps
use libgamemaps.Map2D.Generic.{new_map2d, get_map_size, get_layer_count, get_layer, cast_map2d}
use libgamemaps.Grid.{grid_items, paint}
use libgamemaps.Grid.Words.{read_cells, write_words}
use libgamemaps.Graphics.{Graphics, TilesetCollection, image_at}
use libgamemaps.Format.{MapTypeInfo, valid_items_from, keep_all, keep_other_than}

abbrev pub max_valid_bgtilecode : ℕ
max_valid_bgtilecode = 481

abbrev pub max_valid_fgtilecode : ℕ
max_valid_fgtilecode = 255

abbrev pub default_tile_fg : ℕ
default_tile_fg = 0x00

abbrev pub info : MapTypeInfo
info = record {
  map_code = "map-vinyl";
  friendly_name = "Vinyl Goddess From Mars level";
  file_extensions = "m" ∷ [];
  game_list = "Vinyl Goddess From Mars" ∷ [];
}

-- The codes from 0 to 481, and those from 1 to 255.
pub valid_bg_items : List Item
valid_bg_items = valid_items_from 0 (max_valid_bgtilecode + 1)

pub valid_fg_items : List Item
valid_fg_items = valid_items_from (default_tile_fg + 1) max_valid_fgtilecode

-- Layer_VinylMap, which serves for both layers
unfoldable pub vinyl_layer : String → List Item → List Item → Layer
vinyl_layer name items valid_items = record {
  title = name;
  caps = LayerCaps.no_caps;
  width = 0;
  height = 0;
  tile_width = 0;
  tile_height = 0;
  items = items;
  valid_items = valid_items;
}

-- Layer_VinylMap::imageFromCode()
unfoldable pub image_from_code :
    (g : Graphics) → Item → TilesetCollection g → Result (ImageType × Option g.Image)
image_from_code g item tilesets = image_at g background_tileset1 item.code tilesets

-- `width * height` of unsigned ints
abbrev pub map_len : ℕ → ℕ → ℕ
map_len width height = width * height % 2 ^ 32

-- `memset(bg, 0, n)` on an array of 16-bit words, of which it clears the first `n` bytes.
unfoldable pub clear_bytes : ℕ → List ℕ → List ℕ
clear_bytes n [] = []
clear_bytes zero (v ∷ vs) = v ∷ vs
clear_bytes (suc zero) (v ∷ vs) = v / 256 * 256 ∷ vs
clear_bytes (suc (suc n)) (v ∷ vs) = 0 ∷ clear_bytes n vs

module _ (lib : Streams) where
  open lib use {Input, Output, size, seek_get, read, read_u16le, write, write_u16le, flush}

  -- The loop of `isInstance` over `n` words. An exception of the read means that the file is none.
  unfoldable pub scan_words : ℕ → Input → Result Certainty
  scan_words zero input = ok definitely_yes
  scan_words (suc n) input = elim (read_u16le input) [
    | ok (code, input') ↦
        if ltb max_valid_bgtilecode code then ok definitely_no else scan_words n input'
    | throw e ↦ ok definitely_no
    | assertion_failed ↦ assertion_failed
    | undefined ↦ undefined
  ]

  unfoldable pub is_instance : Input → Result Certainty
  is_instance input = if ltb (size input) 4 then ok definitely_no else do
    input' ← seek_get 0 input
    (height, input'') ← read_u16le input'
    (width, input''') ← read_u16le input''
    if not (size input == (4 + width * height * 3) % 2 ^ 32)
        then ok definitely_no
        else scan_words (map_len width height) input'''

  unfoldable pub create : Result Map2D
  create = throw not_implemented

  unfoldable pub open_map : Input → Result Map2D
  open_map input = do
    input' ← seek_get 0 input
    (height, input'') ← read_u16le input'
    (width, input''') ← read_u16le input''
    (bgtiles, left) ← read_cells lib keep_all width (map_len width height) 0 input'''
    (fg, _) ← read (map_len width height) left
    let fgtiles = grid_items (keep_other_than default_tile_fg) width 0 fg
    new_map2d [] [] MapCaps.has_viewport 320 159 width height 16 16
        (vinyl_layer "Background" bgtiles valid_bg_items
          ∷ vinyl_layer "Foreground" fgtiles valid_fg_items
          ∷ [])
        none

  -- `heap n` is what a new array of `n` words holds before anything is stored in it.
  unfoldable pub write_map : (ℕ → List ℕ) → Option Map2D → Output → Result Output
  write_map heap map output = do
    m ← cast_map2d map
    check (get_layer_count m == 2) wrong_layer_count
    let (width, height) = get_map_size m
    output' ← write_u16le height output
    output'' ← write_u16le width output'
    let len = map_len width height
    bg_layer ← get_layer m 0
    bg ← paint (2 ^ 16) width height bg_layer.items (clear_bytes len (heap len))
    output''' ← write_words lib bg output''
    fg_layer ← get_layer m 1
    fg ← paint 256 width height fg_layer.items (replicate len default_tile_fg)
    output'''' ← write fg output'''
    flush output''''
