-- ===== src/Format/Cosmo.antt =====
-- src/fmt-map-cosmo.cpp: Cosmo's Cosmic Adventures levels, attributes in a word of flags, a width,
-- a list of actors and a grid of words.
pub mod Attributes
pub mod Actors
pub mod Flags
pub mod Storing
pub mod Map
pub mod RoundTrip
pub mod Instance
pub mod Images
mod Tests
use libgamemaps.Prelude.{
  ℕ, zero, suc, ◌+◌, ◌-◌, ◌*◌, ◌/◌, ◌%◌, ◌^◌, Option, none, some, List, [], ◌∷◌, ◌++◌, length,
  get_elem?, replicate, ltb, leb, ◌==◌, if◌then◌else◌,
}
use libgamemaps.Result.{
  Result, ok, throw, undefined, check, not_implemented, wrong_layer_count, map_truncated, ◌>>=◌,
  ◌>>◌,
}
use libgamemaps.Stream.{Streams}
use libgamemaps.Map2D.{
  Item, default_item, Layer, Map2D, ImageType, supplied, unknown, Certainty, definitely_no,
  definitely_yes, Attribute, background_tileset1, foreground_tileset1, sprite_tileset1,
}
use libgamemaps.Map2D.MapCaps
use libgamemaps.Map2D.LayerCaps
use libgamemaps.Map2D.Generic.{new_map2d, get_map_size, get_layer_count, get_layer, cast_map2d}
use libgamemaps.Grid.Asserting.{paint_asserting}
use libgamemaps.Grid.Words.{read_cells, write_words}
use libgamemaps.Graphics.{Graphics, TilesetCollection, image_at, image_entry, tileset_entry}
use libgamemaps.Format.{MapTypeInfo, keep_other_than}
use Attributes.{flag_attributes, backdrop_graphics, attribute_flags}
use Actors.{read_actors, write_actors}

abbrev pub max_width : ℕ
max_width = 512

abbrev pub max_actors : ℕ
max_actors = 512

abbrev pub layer_len_bg : ℕ
layer_len_bg = 65528

abbrev pub num_tiles_bg : ℕ
num_tiles_bg = layer_len_bg / 2

abbrev pub num_solid_tiles : ℕ
num_solid_tiles = 2000

abbrev pub num_masked_tiles : ℕ
num_masked_tiles = 1000

abbrev pub info : MapTypeInfo
info = record {
  map_code = "map-cosmo";
  friendly_name = "Cosmo's Cosmic Adventures level";
  file_extensions = "mni" ∷ [];
  game_list = "Cosmo's Cosmic Adventures" ∷ [];
}

-- The two loops that list the permitted tiles, `n` of them from tile `i` on.
solid_items_from : ℕ → ℕ → List Item
solid_items_from i zero = []
solid_items_from i (suc n) = default_item 0 0 (i * 8) ∷ solid_items_from (i + 1) n

masked_items_from : ℕ → ℕ → List Item
masked_items_from i zero = []
masked_items_from i (suc n) =
    default_item 0 0 ((num_solid_tiles + i * 5) * 8) ∷ masked_items_from (i + 1) n

pub valid_bg_items : List Item
valid_bg_items = solid_items_from 0 num_solid_tiles ++ masked_items_from 0 num_masked_tiles

-- Layer_CosmoActor
unfoldable pub actor_layer : List Item → Layer
actor_layer items = record {
  title = "Actors";
  caps = LayerCaps.use_image_dims;
  width = 0;
  height = 0;
  tile_width = 0;
  tile_height = 0;
  items = items;
  valid_items = [];
}

-- Layer_CosmoBackground
unfoldable pub background_layer : List Item → Layer
background_layer items = record {
  title = "Background";
  caps = LayerCaps.no_caps;
  width = 0;
  height = 0;
  tile_width = 0;
  tile_height = 0;
  items = items;
  valid_items = valid_bg_items;
}

module _ (g : Graphics) where
  open g use {Tileset, Image, count, is_sub_tileset}

  -- The loop that looks for the next actor that has images, with `n` tilesets left from `index` on;
  -- none where it runs out of range.
  unfoldable pub next_actor : Tileset → ℕ → ℕ → Option ℕ
  next_actor t zero index = none
  next_actor t (suc n) index =
      if is_sub_tileset t index then some index else next_actor t n (index + 1)

  -- The first image of the actor at `found`.
  unfoldable pub actor_frame : Tileset → ℕ → Result (ImageType × Option Image)
  actor_frame t found = do
    actor ← tileset_entry g t found
    if leb (count actor) 0
        then ok (unknown, none)
        else do image ← image_entry g actor 0; ok (supplied, some image)

  -- The body of Layer_CosmoActor::imageFromCode() from the tileset on.
  unfoldable pub actor_in : Tileset → ℕ → Result (ImageType × Option Image)
  actor_in t index =
      if leb (count t) index
      then ok (unknown, none)
      else elim (next_actor t (count t - index) index) [
        | none ↦ ok (unknown, none)
        | some found ↦ actor_frame t found
      ]

  -- Layer_CosmoActor::imageFromCode(). The subtraction of `unsigned int`s wraps around.
  unfoldable pub actor_image : Item → TilesetCollection g → Result (ImageType × Option Image)
  actor_image item tilesets = elim (tilesets sprite_tileset1) [
    | none ↦ ok (unknown, none)
    | some t ↦ actor_in t ((item.code + 2 ^ 32 - 31) % 2 ^ 32)
  ]

  -- Layer_CosmoBackground::imageFromCode()
  unfoldable pub background_image_from_code :
      Item → TilesetCollection g → Result (ImageType × Option Image)
  background_image_from_code item tilesets =
      let index = item.code / 8 in
      if leb num_solid_tiles index
      then image_at g foreground_tileset1 ((index - num_solid_tiles) / 5) tilesets
      else image_at g background_tileset1 index tilesets

-- The constructor Map2D_Cosmo, on a width that is not 0. The backdrop is the first attribute.
unfoldable pub new_cosmo : List Attribute → ℕ → List Layer → Result Map2D
new_cosmo attributes width layers = elim (get_elem? attributes 0) [
  | none ↦ undefined
  | some backdrop ↦
      new_map2d attributes (backdrop_graphics backdrop.enum_value) MapCaps.has_viewport 304 144
        width (32768 / width) 8 8 layers none
]

-- The number of turns of the loop that reads the background, with `n` bytes left.
unfoldable pub bg_cells : ℕ → ℕ
bg_cells n = if ltb (n / 2) num_tiles_bg then n / 2 else num_tiles_bg

module _ (lib : Streams) where
  open lib use {Input, Output, size, seek_get, read_u16le, write_u16le, flush}

  unfoldable pub is_instance : Input → Result Certainty
  is_instance input = if ltb (size input) (6 + layer_len_bg) then ok definitely_no else do
    input' ← seek_get 2 input
    (map_width, input'') ← read_u16le input'
    if ltb max_width map_width then ok definitely_no else do
      (num_actor_ints, _) ← read_u16le input''
      if ltb (max_actors * 3) num_actor_ints
          then ok definitely_no
          else if ltb (size input) (6 + num_actor_ints * 3)
          then ok definitely_no
          else ok definitely_yes

  unfoldable pub create : Result Map2D
  create = throw not_implemented

  -- The reads of the header throw where the stream has fewer than 6 bytes, and the test of the
  -- actors where it has too few for these, so that neither subtraction stops at 0. On a width of
  -- 0 both the loop over the background and the constructor of the map divide by it.
  unfoldable pub open_map : Input → Result Map2D
  open_map input = do
    input' ← seek_get 0 input
    (flags, input'') ← read_u16le input'
    (map_width, input''') ← read_u16le input''
    (num_actor_ints, body) ← read_u16le input'''
    let len_map = size input - 6
    let num_actors = num_actor_ints / 3
    if ltb len_map (num_actors * 6) then throw map_truncated else do
      (actors, left) ← read_actors lib num_actors body
      let len_bg = len_map - 6 * num_actors
      if map_width == 0 then undefined else do
        (tiles, _) ← read_cells lib (keep_other_than 0) map_width (bg_cells len_bg) 0 left
        new_cosmo (flag_attributes flags) map_width
            (background_layer tiles ∷ actor_layer actors ∷ [])

  unfoldable pub write_map : Option Map2D → Output → Result Output
  write_map map output = do
    m ← cast_map2d map
    check (get_layer_count m == 2) wrong_layer_count
    let (map_width, map_height) = get_map_size m
    flags ← attribute_flags m.attributes
    output' ← write_u16le flags output
    output'' ← write_u16le map_width output'
    actors ← get_layer m 1
    output''' ← write_u16le (length actors.items * 3 % 2 ^ 16) output''
    output4 ← write_actors lib map_width map_height actors.items output'''
    bg_layer ← get_layer m 0
    bg ←
        paint_asserting (2 ^ 16) map_width map_height bg_layer.items
          (replicate (map_width * map_height % 2 ^ 32) 0)
    output5 ← write_words lib bg output4
    flush output5
