-- ===== src/Format/Got.antt =====
-- src/fmt-map-got.cpp: God of Thunder levels, 120 screens of 512 bytes, which open into one map.
pub mod Screens
pub mod Arrays
pub mod Images
pub mod Layout
mod Tests
use libgamemaps.Prelude.{
  ℕ, zero, suc, ◌+◌, ◌-◌, ◌*◌, ◌/◌, ◌%◌, ◌^◌, Bool, not, ◌&&◌, Option, none, some, List, [], ◌∷◌,
  ◌++◌, length, map, take, drop, get_elem?, replicate, ltb, leb, ◌==◌, if◌then◌else◌,
}
use libgamemaps.Result.{
  Result, ok, throw, undefined, check, not_implemented, wrong_layer_count, wrong_map_size, ◌>>=◌,
  ◌>>◌,
}
use Prim.Native.String.{String}
use libgamemaps.Stream.{Streams}
use libgamemaps.Map2D.{
  Item, default_item, Layer, Map2D, ImageType, supplied, unknown, digit0, digit1, digit2, digit3,
  digit4, digit5, digit6, digit7, digit8, digit9, Certainty, definitely_no, definitely_yes,
  background_tileset1, foreground_tileset1, foreground_tileset2,
}
use libgamemaps.Map2D.MapCaps
use libgamemaps.Map2D.LayerCaps
use libgamemaps.Map2D.Generic.{new_map2d, get_map_size, get_layer_count, get_layer, cast_map2d}
use libgamemaps.Graphics.{Graphics, TilesetCollection, image_at, image_entry, tileset_entry}
use libgamemaps.Grid.Words.{write_words}
use libgamemaps.Format.{MapTypeInfo, valid_items_from, any_above}
use Screens.{
  scr_len, scr_len_bg, scr_width, scr_height, num_actors, num_objects, map_numscreens, read_screens,
}
use Images.{max_songs}
use Arrays.{
  map_width, map_height, put_tiles, put_default, put_music, ActorEntry, ObjectEntry, put_actors,
  put_objects,
}

abbrev pub default_bgtile : ℕ
default_bgtile = 0xB0

abbrev pub max_valid_bg_tilecode : ℕ
max_valid_bg_tilecode = 229

abbrev pub max_valid_obj_tilecode : ℕ
max_valid_obj_tilecode = 32

abbrev pub max_valid_actor_tilecode : ℕ
max_valid_actor_tilecode = 76

abbrev pub info : MapTypeInfo
info = record {
  map_code = "map-got";
  friendly_name = "God of Thunder level";
  file_extensions = [];
  game_list = "God of Thunder" ∷ [];
}

-- The four lists of permitted tiles.
pub valid_bg_items : List Item
valid_bg_items = valid_items_from 0 (max_valid_bg_tilecode + 1)

pub valid_actor_items : List Item
valid_actor_items = valid_items_from 1 max_valid_actor_tilecode

pub valid_obj_items : List Item
valid_obj_items = valid_items_from 1 max_valid_obj_tilecode

pub valid_mus_items : List Item
valid_mus_items = valid_items_from 256 max_songs

-- The constructors of Layer_GOTBackground, Layer_GOTActor and Layer_GOTObject
unfoldable pub tile_layer : String → List Item → List Item → Layer
tile_layer name items valid_items = record {
  title = name;
  caps = LayerCaps.no_caps;
  width = 0;
  height = 0;
  tile_width = 0;
  tile_height = 0;
  items = items;
  valid_items = valid_items;
}

-- Layer_GOTFlags: a tile for each screen. The two bits of its capabilities are 0x04 and 0x20.
unfoldable pub flags_layer : String → List Item → List Item → Layer
flags_layer name items valid_items = record {
  title = name;
  caps = LayerCaps.has_own_tile_size + LayerCaps.use_image_dims;
  width = 0;
  height = 0;
  tile_width = scr_width * 16;
  tile_height = scr_height * 16;
  items = items;
  valid_items = valid_items;
}

-- The entries of a screen, with those that were not set, which are 0, up to the size of the array.
unfoldable pub padded : {E : Type 0} → ℕ → E → List E → List E
padded size empty entries = entries ++ replicate (size - length entries) empty

-- The entries of screen `s`.
unfoldable pub entries_of : {E : Type 0} → List (List E) → ℕ → Result (List E)
entries_of screens s = elim (get_elem? screens s) [ none ↦ undefined | some entries ↦ ok entries ]

unfoldable pub byte_of : List ℕ → ℕ → Result ℕ
byte_of bytes s = elim (get_elem? bytes s) [ none ↦ undefined | some b ↦ ok b ]

-- What `write` has gathered for the screens.
pub record Gathered : Type 0 where
  pub bg : List ℕ
  pub default_bg : List ℕ
  pub mus : List ℕ
  pub actor : List (List ActorEntry)
  pub obj : List (List ObjectEntry)

module _ (lib : Streams) where
  open lib use {
    Input, Output, size, seek_get, read, write, write_u8, write_u16le, write_null_padded, flush,
  }

  unfoldable pub is_instance : Input → Result Certainty
  is_instance input = if not (size input == scr_len * map_numscreens) then ok definitely_no else do
    input' ← seek_get 0 input
    (bg, _) ← read scr_len_bg input'
    if any_above max_valid_bg_tilecode bg then ok definitely_no else ok definitely_yes

  unfoldable pub create : Result Map2D
  create = throw not_implemented

  unfoldable pub open_map : Input → Result Map2D
  open_map input = do
    input' ← seek_get 0 input
    (items, _) ← read_screens lib map_numscreens 0 input'
    new_map2d [] [] MapCaps.has_viewport 320 192 map_width map_height 16 16
        (flags_layer "Music" items.tiles_mus valid_mus_items
          ∷ flags_layer "Default BG" items.tiles_default valid_bg_items
          ∷ tile_layer "Background" items.tiles valid_bg_items
          ∷ tile_layer "Actors" items.tiles_actor valid_actor_items
          ∷ tile_layer "Objects" items.tiles_obj valid_obj_items
          ∷ [])
        none

  -- The loops that write a byte for each entry.
  unfoldable pub write_bytes : List ℕ → Output → Result Output
  write_bytes [] output = ok output
  write_bytes (b ∷ bytes) output = do output' ← write_u8 b output; write_bytes bytes output'

  -- The body of the loop that writes the screens.
  unfoldable pub write_screen : Gathered → ℕ → Output → Result Output
  write_screen gathered s output = do
    output1 ← write (take scr_len_bg (drop (s * scr_len_bg) gathered.bg)) output
    default_tile ← byte_of gathered.default_bg s
    output2 ← write_u8 default_tile output1
    song ← byte_of gathered.mus s
    output3 ← write_u8 song output2
    actors ← entries_of gathered.actor s
    let all_actors = padded num_actors (0, 0) actors
    output4 ← write_bytes (map (λ (e : ActorEntry). e.0) all_actors) output3
    output5 ← write_bytes (map (λ (e : ActorEntry). e.1) all_actors) output4
    output6 ← write_null_padded [] (16 * 3) output5
    objects ← entries_of gathered.obj s
    let all_objects = padded num_objects (0, 0, 0) objects
    output7 ← write_bytes (map (λ (e : ObjectEntry). e.0) all_objects) output6
    output8 ← write_words lib (map (λ (e : ObjectEntry). e.1) all_objects) output7
    output9 ← write_words lib (map (λ (e : ObjectEntry). e.2) all_objects) output8
    write_null_padded [] 40 output9

  -- The loop over the screens, `n` of them from screen `s` on.
  unfoldable pub write_screens : Gathered → ℕ → ℕ → Output → Result Output
  write_screens gathered zero s output = ok output
  write_screens gathered (suc n) s output = do
    output' ← write_screen gathered s output
    write_screens gathered n (s + 1) output'

  -- The five loops that gather the items of the layers.
  unfoldable pub gather : Map2D → Result Gathered
  gather m = do
    bg_layer ← get_layer m 2
    bg ← put_tiles bg_layer.items (replicate (map_width * map_height) default_bgtile)
    default_layer ← get_layer m 1
    default_bg ← put_default default_layer.items (replicate map_numscreens default_bgtile)
    mus_layer ← get_layer m 0
    mus ← put_music mus_layer.items (replicate map_numscreens 0)
    actor_layer ← get_layer m 3
    actor ← put_actors actor_layer.items (replicate map_numscreens [])
    obj_layer ← get_layer m 4
    obj ← put_objects obj_layer.items (replicate map_numscreens [])
    ok (record { bg = bg; default_bg = default_bg; mus = mus; actor = actor; obj = obj })

  unfoldable pub write_map : Option Map2D → Output → Result Output
  write_map map output = do
    m ← cast_map2d map
    check (get_layer_count m == 5) wrong_layer_count
    let (width, height) = get_map_size m
    check (width == map_width && height == map_height) wrong_map_size
    gathered ← gather m
    output' ← write_screens gathered map_numscreens 0 output
    flush output'
