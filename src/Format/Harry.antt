-- ===== src/Format/Harry.antt =====
-- src/fmt-map-harry.cpp: Halloween Harry levels, a header, a list of actors and two grids of bytes.
pub mod Actors
pub mod Storing
pub mod Map
pub mod RoundTrip
pub mod Instance
mod Tests
use libgamemaps.Prelude.{
  ℕ, zero, suc, ◌+◌, ◌-◌, ◌*◌, ◌/◌, ◌%◌, ◌^◌, Bool, true, false, not, ◌&&◌, ◌||◌, Option, none,
  some, List, [], ◌∷◌, ◌++◌, length, replicate, ltb, leb, ◌==◌, if◌then◌else◌,
}
use libgamemaps.Result.{
  Result, ok, throw, undefined, check, assert, not_implemented, wrong_layer_count,
  wrong_attribute_count, wrong_attribute_type, ◌>>=◌, ◌>>◌,
}
use Prim.Native.String.{String}
use libgamemaps.Stream.{Streams}
use libgamemaps.Map2D.{
  blank_attribute, Item, default_item, Layer, Map2D, ImageType, Certainty, definitely_no,
  definitely_yes, Attribute, enum, background_tileset1, sprite_tileset1,
}
use libgamemaps.Map2D.MapCaps
use libgamemaps.Map2D.LayerCaps
use libgamemaps.Map2D.Generic.{new_map2d, get_map_size, get_layer_count, get_layer, cast_map2d}
use libgamemaps.Grid.Asserting.{paint_asserting}
use libgamemaps.Grid.Rows.{read_rows}
use libgamemaps.Graphics.{Graphics, TilesetCollection, image_at}
use libgamemaps.Format.{MapTypeInfo, valid_items_from}
use Actors.{actor_len, player_item, find_player, search_start, read_actors, write_actors}

abbrev pub default_tile : ℕ
default_tile = 0xFE

abbrev pub max_valid_tilecode_bg : ℕ
max_valid_tilecode_bg = 0xFF

abbrev pub max_valid_tilecode_actor : ℕ
max_valid_tilecode_actor = 466

abbrev pub info : MapTypeInfo
info = record {
  map_code = "map-harry";
  friendly_name = "Halloween Harry level";
  file_extensions = "gmf" ∷ [];
  game_list = "Alien Carnage" ∷ "Halloween Harry" ∷ [];
}

-- "\x11SubZero Game File"
abbrev pub signature : List ℕ
signature =
    0x11 ∷ 83 ∷ 117 ∷ 98 ∷ 90 ∷ 101 ∷ 114 ∷ 111 ∷ 32 ∷ 71 ∷ 97 ∷ 109 ∷ 101 ∷ 32 ∷ 70 ∷ 105 ∷ 108
    ∷ 101 ∷ []

-- `strncmp(sig, "...", 0x12) == 0`: the text has no zero byte among its 18.
unfoldable pub same_bytes : List ℕ → List ℕ → Bool
same_bytes [] [] = true
same_bytes (x ∷ xs) (y ∷ ys) = x == y && same_bytes xs ys
same_bytes _ _ = false

-- `v[i] > max` for an array of (signed) chars: is there a char that exceeds the number?
unfoldable pub any_char_above : ℕ → List ℕ → Bool
any_char_above max [] = false
any_char_above max (b ∷ bytes) = (ltb max b && ltb b 128) || any_char_above max bytes

-- All sprites, and all tiles but the default one.
pub valid_actor_items : List Item
valid_actor_items = valid_items_from 0 (max_valid_tilecode_actor + 1)

pub valid_bg_items : List Item
valid_bg_items =
    valid_items_from 0 default_tile
    ++ valid_items_from (default_tile + 1) (max_valid_tilecode_bg - default_tile)

-- Layer_HarryActor
unfoldable pub actor_layer : List Item → Layer
actor_layer items = record {
  title = "Actors";
  caps = LayerCaps.use_image_dims;
  width = 0;
  height = 0;
  tile_width = 0;
  tile_height = 0;
  items = items;
  valid_items = valid_actor_items;
}

-- Layer_HarryBackground, which serves for both grids
unfoldable pub background_layer : String → List Item → Layer
background_layer name items = record {
  title = name;
  caps = LayerCaps.no_caps;
  width = 0;
  height = 0;
  tile_width = 0;
  tile_height = 0;
  items = items;
  valid_items = valid_bg_items;
}

-- imageFromCode() of the two classes of layers
unfoldable pub actor_image :
    (g : Graphics) → Item → TilesetCollection g → Result (ImageType × Option g.Image)
actor_image g item tilesets = image_at g sprite_tileset1 item.code tilesets

unfoldable pub image_from_code :
    (g : Graphics) → Item → TilesetCollection g → Result (ImageType × Option g.Image)
image_from_code g item tilesets = image_at g background_tileset1 item.code tilesets

-- The one attribute: does the background move with the player?
abbrev pub parallax : ℕ → Attribute
parallax map_flags = record blank_attribute {
  type = enum;
  name = "Background";
  desc =
      "How to position the background layer as the player moves (parallax is only visible in-game).";
  enum_value = if map_flags == 0 then 0 else 1;
  enum_value_names = "Fixed" ∷ "Parallax" ∷ [];
}

-- `write`, from the test of the number of attributes on: the byte of flags.
unfoldable pub parallax_flags : List Attribute → Result ℕ
parallax_flags (attr ∷ []) = elim attr.type [
  | enum ↦ ok (attr.enum_value % 256)
  | _ ↦ throw wrong_attribute_type
]
parallax_flags _ = throw wrong_attribute_count

module _ (lib : Streams) where
  open lib use {
    Input, Output, size, seek_get, skip, read, read_u8, read_u16le, write, write_u8, write_u16le,
    write_u32le, write_null_padded, flush,
  }

  -- The last tests of `isInstance`, `left` bytes before the end of the file. The product of the
  -- dimensions is an `int`, and undefined behaviour where it does not fit.
  unfoldable pub check_actors : ℕ → Input → Result Certainty
  check_actors left input = do
    assert (leb 6 left)
    (num_actors, input') ← read_u16le input
    let after = left - 2
    if ltb after (num_actors * actor_len + 4) then ok definitely_no else do
      input'' ← skip (num_actors * actor_len) input'
      let after_actors = after - num_actors * actor_len
      assert (leb 4 after_actors)
      (map_width, input''') ← read_u16le input''
      (map_height, _) ← read_u16le input'''
      let cells = map_width * map_height * 2
      if leb (2 ^ 31) cells
          then undefined
          else if not (after_actors - 4 == cells)
          then ok definitely_no
          else ok definitely_yes

  unfoldable pub is_instance : Input → Result Certainty
  is_instance input =
      if ltb (size input) (29 + 768 + 256 + 10 + 2 + 4) then ok definitely_no else do
        input0 ← seek_get 0 input
        (sig, input1) ← read 0x12 input0
        if not (same_bytes sig signature) then ok definitely_no else do
          input2 ← skip 11 input1
          (pal, input3) ← read 768 input2
          if any_char_above 0x40 pal then ok definitely_no else do
            (tile_flags, input4) ← read 256 input3
            if any_char_above 0x01 tile_flags then ok definitely_no else do
              input5 ← skip 10 input4
              check_actors (size input - 0x12 - 11 - 768 - 256 - 10) input5

  unfoldable pub create : Result Map2D
  create = throw not_implemented

  -- The header that `open` reads, up to the number of actors: the player's start, the flags and
  -- that number.
  unfoldable pub read_header : Input → Result ((ℕ × ℕ × ℕ × ℕ) × Input)
  read_header input = do
    input1 ← skip (0x12 + 4) input
    (start_x, input2) ← read_u16le input1
    (start_y, input3) ← read_u16le input2
    input4 ← skip 2 input3
    (map_flags, input5) ← read_u8 input4
    input6 ← skip 768 input5
    input7 ← skip 256 input6
    input8 ← skip 10 input7
    (num_actors, input9) ← read_u16le input8
    ok ((start_x, start_y, map_flags, num_actors), input9)

  unfoldable pub open_map : Input → Result Map2D
  open_map input = do
    input0 ← seek_get 0 input
    ((start_x, start_y, map_flags, num_actors), input9) ← read_header input0
    (actors, input10) ← read_actors lib num_actors input9
    (map_width, input11) ← read_u16le input10
    (map_height, input12) ← read_u16le input11
    (bgtiles, input13) ← read_rows lib default_tile map_width map_height 0 input12
    (fgtiles, _) ← read_rows lib default_tile map_width map_height 0 input13
    new_map2d (parallax map_flags ∷ []) [] MapCaps.has_viewport 288 144 map_width map_height 16 16
        (background_layer "Background" bgtiles
          ∷ background_layer "Foreground" fgtiles
          ∷ actor_layer (player_item start_x start_y ∷ actors)
          ∷ [])
        none

  -- The header that `write` writes, up to the number of actors.
  unfoldable pub write_header : ℕ → ℕ → ℕ → Output → Result Output
  write_header start_x start_y map_flags output = do
    output1 ← write_null_padded signature 0x12 output
    output2 ← write_u32le 0 output1
    output3 ← write_u16le start_x output2
    output4 ← write_u16le start_y output3
    output5 ← write_u16le 0 output4
    output6 ← write_u8 map_flags output5
    output7 ← write (replicate 768 0) output6
    output8 ← write (replicate 256 0) output7
    write (replicate 10 0) output8

  unfoldable pub write_map : Option Map2D → Output → Result Output
  write_map map output = do
    m ← cast_map2d map
    check (get_layer_count m == 3) wrong_layer_count
    map_flags ← parallax_flags m.attributes
    let (map_width, map_height) = get_map_size m
    actors ← get_layer m 2
    found ← find_player actors.items (search_start actors.items)
    output1 ← write_header found.start_x found.start_y map_flags output
    output2 ← write_u16le found.num_actors output1
    output3 ← write_actors lib map_width map_height actors.items output2
    output4 ← write_u16le map_width output3
    output5 ← write_u16le map_height output4
    let len = map_width * map_height % 2 ^ 32
    bg_layer ← get_layer m 0
    bg ← paint_asserting 256 map_width map_height bg_layer.items (replicate len default_tile)
    output6 ← write bg output5
    fg_layer ← get_layer m 1
    fg ← paint_asserting 256 map_width map_height fg_layer.items (replicate len default_tile)
    output7 ← write fg output6
    flush output7
