-- ===== src/Format/Zone66.antt =====
-- src/fmt-map-zone66.cpp: Zone 66 levels, a grid of bytes and a table of tiles in a second file.
pub mod Mapping
pub mod Shown
mod Tests
use libgamemaps.Prelude.{
  ℕ, zero, suc, ◌+◌, ◌-◌, ◌*◌, ◌/◌, ◌%◌, ◌^◌, not, ◌&&◌, Option, none, some, List, [], ◌∷◌, ◌++◌,
  length, get_elem?, take, replicate, ltb, ◌==◌, if◌then◌else◌,
}
use libgamemaps.Result.{
  Result, ok, throw, undefined, check, not_implemented, missing_supp, wrong_layer_count,
  wrong_map_dimensions, ◌>>=◌, ◌>>◌,
}
use libgamemaps.Stream.{Streams}
use libgamemaps.Map2D.{
  Item, default_item, Layer, Map2D, ImageType, Certainty, definitely_no, possibly_yes,
  background_tileset1,
}
use libgamemaps.Map2D.MapCaps
use libgamemaps.Map2D.LayerCaps
use libgamemaps.Map2D.Generic.{new_map2d, get_map_size, get_layer_count, get_layer, cast_map2d}
use libgamemaps.Graphics.{Graphics, TilesetCollection, image_at}
use libgamemaps.Format.{MapTypeInfo, valid_items_from}
use Mapping.{map_width, map_height, put_tiles}

abbrev pub map_bg_len : ℕ
map_bg_len = map_width * map_height

abbrev pub default_bgtile : ℕ
default_bgtile = 0x00

abbrev pub info : MapTypeInfo
info = record {
  map_code = "map-zone66";
  friendly_name = "Zone 66 level";
  file_extensions = "z66" ∷ [];
  game_list = "Zone 66" ∷ [];
}

pub valid_items : List Item
valid_items = valid_items_from 0 300

-- Layer_Zone66Background
unfoldable pub background_layer : List Item → Layer
background_layer items = record {
  title = "Background";
  caps = LayerCaps.no_caps;
  width = 0;
  height = 0;
  tile_width = 0;
  tile_height = 0;
  items = items;
  valid_items = valid_items;
}

-- Layer_Zone66Background::imageFromCode()
unfoldable pub image_from_code :
    (g : Graphics) → Item → TilesetCollection g → Result (ImageType × Option g.Image)
image_from_code g item tilesets = image_at g background_tileset1 item.code tilesets

-- `v[i]`, undefined outside the array.
unfoldable pub entry : List ℕ → ℕ → Result ℕ
entry v i = elim (get_elem? v i) [ none ↦ undefined | some x ↦ ok x ]

-- The loop over the cells, from cell `i` on.
unfoldable pub mapped_tiles : List ℕ → ℕ → List ℕ → Result (List Item)
mapped_tiles tilemap i [] = ok []
mapped_tiles tilemap i (b ∷ bg) = do
  code ← entry tilemap b
  tiles ← mapped_tiles tilemap (i + 1) bg
  ok (default_item (i % map_width) (i / map_width) code ∷ tiles)

module _ (lib : Streams) where
  open lib use {
    Input, Output, size, seek_get, try_read, read_u16le, seek_put, write, write_u16le,
    write_null_padded, flush,
  }

  unfoldable pub is_instance : Input → Result Certainty
  is_instance input =
      if not (size input == map_width * map_height) then ok definitely_no else ok possibly_yes

  unfoldable pub create : Result Map2D
  create = throw not_implemented

  -- The loop that reads the table, `n` entries.
  unfoldable pub read_tilemap : ℕ → Input → Result (List ℕ × Input)
  read_tilemap zero input = ok ([], input)
  read_tilemap (suc n) input = do
    (code, input') ← read_u16le input
    (codes, input'') ← read_tilemap n input'
    ok (code ∷ codes, input'')

  -- A null pointer for the table of tiles is none.
  unfoldable pub open_map : Input → Option Input → Result Map2D
  open_map input supp = do
    input' ← seek_get 0 input
    (read_bytes, _) ← try_read map_bg_len input'
    let bg = read_bytes ++ replicate (map_bg_len - length read_bytes) default_bgtile
    table ← elim supp [ none ↦ throw missing_supp | some t ↦ ok t ]
    table' ← seek_get 0 table
    (num, table'') ← read_u16le table'
    (unknown, table''') ← read_u16le table''
    let len_tilemap = if ltb 256 num then 256 else num
    (codes, _) ← read_tilemap len_tilemap table'''
    let tilemap = codes ++ replicate (256 - len_tilemap) default_bgtile
    tiles ← mapped_tiles tilemap 0 bg
    new_map2d [] [] MapCaps.has_viewport 320 200 map_width map_height 32 32
        (background_layer tiles ∷ []) none

  -- The loop that writes the table, `n` turns from entry `i` on: two entries in each.
  unfoldable pub write_tilemap : List ℕ → ℕ → ℕ → Output → Result Output
  write_tilemap map_bg i zero output = ok output
  write_tilemap map_bg i (suc n) output = do
    normal ← entry map_bg (i * 2)
    output' ← write_u16le normal output
    destroyed ← entry map_bg (i * 2 + 1)
    output'' ← write_u16le destroyed output'
    write_tilemap map_bg (i + 1) n output''

  -- `stack` is what the entries of mapBG hold that are not set; together there are 256. A stream
  -- for the table is given, as the caller of `write` makes one for each supplementary item.
  unfoldable pub write_map : List ℕ → Option Map2D → Output → Output → Result (Output × Output)
  write_map stack map output data_map_bg = do
    m ← cast_map2d map
    check (get_layer_count m == 1) wrong_layer_count
    let (width, height) = get_map_size m
    check (width == map_width && height == map_height) wrong_map_dimensions
    layer ← get_layer m 0
    mapping ←
        put_tiles layer.items (record { map_bg = []; bg = replicate map_bg_len default_bgtile })
    output' ← seek_put 0 output
    output'' ← write mapping.bg output'
    output''' ← flush output''
    let num_tile_mappings = length mapping.map_bg
    let whole_map_bg = mapping.map_bg ++ stack
    table ← seek_put 0 data_map_bg
    table' ← write_u16le num_tile_mappings table
    table'' ← write_u16le 0 table'
    table3 ← write_tilemap (take 256 whole_map_bg) 0 num_tile_mappings table''
    table4 ← write_null_padded [] num_tile_mappings table3
    table5 ← write_null_padded [] num_tile_mappings table4
    table6 ← flush table5
    ok (output''', table6)
