-- ===== src/Format/Nukem2.antt =====
-- src/fmt-map-nukem2.cpp: Duke Nukem II levels, filenames and flags, a list of actors, a grid of
-- 32750 words, and the run-length encoded extra bits of the foreground tiles.
pub mod Attributes
pub mod Extra
pub mod Rle
pub mod Cells
pub mod Packing
pub mod Ends
pub mod Tiles
pub mod Aborts
pub mod RoundTrip
mod Tests
use libgamemaps.Prelude.{
  ℕ, zero, suc, ◌+◌, ◌-◌, ◌*◌, ◌/◌, ◌%◌, ◌^◌, ◌&&◌, Option, none, some, List, [], ◌∷◌, ◌++◌, length,
  replicate, ltb, leb, ◌==◌, if◌then◌else◌,
}
use libgamemaps.Result.{
  Result, ok, throw, undefined, assert, check, not_implemented, wrong_layer_count, map_truncated,
  ◌>>=◌, ◌>>◌,
}
use libgamemaps.Stream.{Streams}
use libgamemaps.Map2D.{
  Item, default_item, Layer, Map2D, ImageType, unknown, Certainty, definitely_no, possibly_yes,
  definitely_yes, Attribute, blank_attribute, background_tileset1, sprite_tileset1,
}
use libgamemaps.Map2D.MapCaps
use libgamemaps.Map2D.LayerCaps
use libgamemaps.Map2D.Generic.{new_map2d, get_map_size, get_layer_count, get_layer, cast_map2d}
use libgamemaps.Grid.Asserting.{paint_asserting}
use libgamemaps.Grid.Words.{write_words}
use libgamemaps.Graphics.{Graphics, TilesetCollection, image_at, image_in, tileset_entry}
use libgamemaps.Format.{MapTypeInfo, valid_items_from}
use Attributes.{
  flag_attributes, attribute_flags, attribute_entry, graphics_files, read_filename, write_filename,
  write_unpadded,
}
use Extra.{raw_extra, filled, read_extra}
use Rle.{rle_encode}
use Cells.{cell_items, cell_words, cell_extras, no_tile, num_solid_tiles, read_words}

abbrev pub layer_len_bg : ℕ
layer_len_bg = 65500

abbrev pub num_tiles_bg : ℕ
num_tiles_bg = layer_len_bg / 2

abbrev pub num_masked_tiles : ℕ
num_masked_tiles = 160

-- 2+13+13+13+1+1+2+2, the bytes in front of the actors
abbrev pub header_len : ℕ
header_len = 47

abbrev pub info : MapTypeInfo
info = record {
  map_code = "map-nukem2";
  friendly_name = "Duke Nukem II level";
  file_extensions = "mni" ∷ [];
  game_list = "Duke Nukem II" ∷ [];
}

pub valid_bg_items : List Item
valid_bg_items = valid_items_from 0 num_solid_tiles

pub valid_fg_items : List Item
valid_fg_items = valid_items_from 0 num_masked_tiles

-- Layer_Nukem2Actor
unfoldable pub actor_layer : List Item → Layer
actor_layer items = record {
  title = "Actors";
  caps = LayerCaps.no_caps;
  width = 0;
  height = 0;
  tile_width = 0;
  tile_height = 0;
  items = items;
  valid_items = [];
}

-- Layer_Nukem2Background
unfoldable pub background_layer : List Item → Layer
background_layer items = record {
  title = "Background";
  caps = LayerCaps.no_caps;
  width = 0;
  height = 0;
  tile_width = 0;
  tile_height = 0;
  items = items;
  valid_items = valid_bg_items;
}

-- Layer_Nukem2Foreground
unfoldable pub foreground_layer : List Item → Layer
foreground_layer items = record {
  title = "Foreground";
  caps = LayerCaps.no_caps;
  width = 0;
  height = 0;
  tile_width = 0;
  tile_height = 0;
  items = items;
  valid_items = valid_fg_items;
}

module _ (g : Graphics) where
  open g use {Tileset, Image, count}

  unfoldable pub actor_image : Item → TilesetCollection g → Result (ImageType × Option Image)
  actor_image item tilesets = image_at g sprite_tileset1 item.code tilesets

  -- imageFromCode() of the two layers of tiles: the tileset has one tileset for each.
  unfoldable pub czone_image : ℕ → Item → TilesetCollection g → Result (ImageType × Option Image)
  czone_image czone_target item tilesets = elim (tilesets background_tileset1) [
    | none ↦ ok (unknown, none)
    | some t ↦
        if leb (count t) czone_target
        then ok (unknown, none)
        else do ts ← tileset_entry g t czone_target; image_in g ts item.code
  ]

  unfoldable pub background_image_from_code :
      Item → TilesetCollection g → Result (ImageType × Option Image)
  background_image_from_code = czone_image 0

  unfoldable pub foreground_image_from_code :
      Item → TilesetCollection g → Result (ImageType × Option Image)
  foreground_image_from_code = czone_image 1

-- The constructor Map2D_Nukem2, on a width that is not 0.
unfoldable pub new_nukem2 : List Attribute → ℕ → List Layer → Result Map2D
new_nukem2 attributes width layers = do
  assert (ltb 0 (length attributes))
  czone ← attribute_entry attributes 0
  backdrop ← attribute_entry attributes 1
  new_map2d attributes (graphics_files czone backdrop) MapCaps.has_viewport 256 160 width
      (num_tiles_bg / width) 8 8 layers none

-- The number of turns of the loop that reads the words, with `n` bytes left.
unfoldable pub bg_words : ℕ → ℕ
bg_words n = if ltb (n / 2) num_tiles_bg then n / 2 else num_tiles_bg

-- `bgOffset + 2 + DN2_LAYER_LEN_BG + lenExtra + 2`, where the extra data ends
abbrev extra_end : ℕ → ℕ → ℕ
extra_end bg_offset len_extra = bg_offset + 2 + layer_len_bg + len_extra + 2

module _ (lib : Streams) where
  open lib use {
    Input, Output, size, seek_get, skip, read_u8, read_u16le, write, write_u8, write_u16le, flush,
  }

  unfoldable pub is_instance : Input → Result Certainty
  is_instance input =
      let len_map = size input in
      if ltb len_map (header_len + 2 + layer_len_bg) then ok definitely_no else do
        input1 ← seek_get 0 input
        (bg_offset, input2) ← read_u16le input1
        if ltb (len_map - (2 + layer_len_bg)) bg_offset then ok definitely_no else do
          input3 ← skip (13 * 3 + 4) input2
          (num_actor_ints, input4) ← read_u16le input3
          if ltb len_map (header_len + num_actor_ints * 2 + 2 + layer_len_bg)
              then ok definitely_no
              else do
                input5 ← seek_get (bg_offset + 2 + layer_len_bg) input4
                (len_extra, _) ← read_u16le input5
                if ltb len_map (extra_end bg_offset len_extra)
                    then ok definitely_no
                    else if extra_end bg_offset len_extra + 13 * 3 == len_map
                    then ok definitely_yes
                    else ok possibly_yes

  unfoldable pub create : Result Map2D
  create = throw not_implemented

  -- The loop that reads the actors.
  unfoldable pub read_actors : ℕ → Input → Result (List Item × Input)
  read_actors zero input = ok ([], input)
  read_actors (suc n) input = do
    (code, input') ← read_u16le input
    (x, input'') ← read_u16le input'
    (y, input''') ← read_u16le input''
    (actors, left) ← read_actors n input'''
    ok (default_item x y code ∷ actors, left)

  -- The part of `open` that makes the extra bits, with enough fuel for the loop.
  unfoldable pub open_extra : Input → Result (List ℕ × Input)
  open_extra input = do
    (len_extra, input') ← read_u16le input
    extra ← read_extra lib num_tiles_bg len_extra len_extra 0 0 input'
    elim extra [ none ↦ undefined | some (values, left) ↦ ok (filled num_tiles_bg values, left) ]

  -- The reads of the header throw where the stream has fewer than 47 bytes, so that the first
  -- subtraction does not stop at 0.
  unfoldable pub open_map : Input → Result Map2D
  open_map input = do
    input0 ← seek_get 0 input
    (bg_offset, input1) ← read_u16le input0
    (czone, input2) ←
        read_filename lib blank_attribute "CZone tileset"
          "Filename of the tileset to use for drawing the foreground and background layers" "mni"
          input1
    (backdrop, input3) ←
        read_filename lib czone "Backdrop" "Filename of the backdrop to draw behind the map" "mni"
          input2
    (music, input4) ←
        read_filename lib backdrop "Music" "File to play as background music" "imf" input3
    (flags, input5) ← read_u8 input4
    (alt_back, input6) ← read_u8 input5
    (unk, input7) ← read_u16le input6
    (num_actor_ints, input8) ← read_u16le input7
    let (settings, alt) = flag_attributes music flags alt_back
    let len_map = size input - header_len
    let num_actors = num_actor_ints / 3
    if ltb len_map (num_actors * 6) then throw map_truncated else do
      (actors, input9) ← read_actors num_actors input8
      input10 ← seek_get bg_offset input9
      (map_width, input11) ← read_u16le input10
      let words = bg_words (len_map - 6 * num_actors)
      (values, input12) ← read_words lib words input11
      (extra, input13) ← open_extra input12
      (tiles_bg, tiles_fg) ←
          cell_items map_width 0 (values ++ replicate (num_tiles_bg - words) 0) extra
      (zone_attr, input14) ←
          read_filename lib alt "Zone attribute (unused)"
            "Filename of the zone tile attributes (unused)" "mni" input13
      (zone_tset, input15) ←
          read_filename lib zone_attr "Zone tileset (unused)"
            "Filename of the zone solid tileset (unused)" "mni" input14
      (zone_mset, _) ←
          read_filename lib zone_tset "Zone masked tileset (unused)"
            "Filename of the zone masked tileset (unused)" "mni" input15
      new_nukem2 (czone ∷ backdrop ∷ music ∷ settings ++ zone_attr ∷ zone_tset ∷ zone_mset ∷ [])
          map_width
          (background_layer tiles_bg ∷ foreground_layer tiles_fg ∷ actor_layer actors ∷ [])

  -- The loop that writes the actors.
  unfoldable pub write_actors : ℕ → ℕ → List Item → Output → Result Output
  write_actors width height [] output = ok output
  write_actors width height (item ∷ items) output = do
    assert (ltb item.x width && ltb item.y height)
    output' ← write_u16le item.code output
    output'' ← write_u16le item.x output'
    output''' ← write_u16le item.y output''
    write_actors width height items output'''

  -- The loop that writes bytes one by one.
  unfoldable pub write_bytes : List ℕ → Output → Result Output
  write_bytes [] output = ok output
  write_bytes (byte ∷ bytes) output = do output' ← write_u8 byte output; write_bytes bytes output'

  -- `write`, up to the actors.
  unfoldable pub write_header : Map2D → List Item → Output → Result Output
  write_header m actors output = do
    output1 ← write_u16le (header_len + 6 * length actors) output
    output2 ← write_filename lib m.attributes 0 output1
    output3 ← write_filename lib m.attributes 1 output2
    output4 ← write_filename lib m.attributes 2 output3
    flags ← attribute_flags m.attributes
    output5 ← write_u8 flags output4
    alt_back ← attribute_entry m.attributes 7
    output6 ← write_u8 alt_back.integer_value output5
    output7 ← write_u16le 0 output6
    write_u16le (length actors * 3 % 2 ^ 16) output7

  -- `write`, from the arrays of the two layers of tiles on to the extra bits.
  unfoldable pub write_cells : ℕ → ℕ → List ℕ → List ℕ → Output → Result Output
  write_cells map_width map_height bg fg output = do
    output1 ← write_u16le map_width output
    assert (ltb (map_width * map_height % 2 ^ 32) num_tiles_bg)
    output2 ← write_words lib (cell_words bg fg) output1
    rle_extra ← rle_encode (raw_extra (num_tiles_bg / 4) (cell_extras bg fg))
    output3 ← write_u16le (length rle_extra) output2
    write_bytes rle_extra output3

  unfoldable pub write_map : Option Map2D → Output → Result Output
  write_map map output = do
    m ← cast_map2d map
    check (get_layer_count m == 3) wrong_layer_count
    actors ← get_layer m 2
    output1 ← write_header m actors.items output
    let (map_width, map_height) = get_map_size m
    output2 ← write_actors map_width map_height actors.items output1
    bg_layer ← get_layer m 0
    bg ← paint_asserting (2 ^ 16) map_width map_height bg_layer.items (replicate num_tiles_bg 0x00)
    fg_layer ← get_layer m 1
    fg ←
        paint_asserting (2 ^ 16) map_width map_height fg_layer.items
          (replicate num_tiles_bg no_tile)
    output3 ← write_cells map_width map_height bg fg output2
    output4 ← write_unpadded lib m.attributes 8 output3
    output5 ← write_unpadded lib m.attributes 9 output4
    output6 ← write_unpadded lib m.attributes 10 output5
    flush output6
