-- ===== src/Map2D.antt =====
-- include/camoto/gamemaps/map.hpp and map2d.hpp: the data that every format opens into and writes
-- from. Objects behind shared pointers are values here: no modelled operation writes to one that
-- another still holds.
pub mod Caps
pub mod MapCaps
pub mod LayerCaps
pub mod Generic
pub mod LayerState
pub mod Dims
use libgamemaps.Prelude.{ℕ, ◌-◌, ◌^◌, Bool, false, List, [], ◌∷◌, Option}
use Prim.Native.Char.{code}
use Prim.Native.String.{String}

-- Map2D::Layer::Item; `x` and `y` count tiles. A
-- field that the bits of `type` say is not valid is 0 here, and no operation reads it.
pub record Item : Type 0 where
  pub type : ℕ
  pub x : ℕ
  pub y : ℕ
  pub code : ℕ
  pub player_number : ℕ
  pub player_facing_left : Bool
  pub text_font : ℕ
  pub text_content : List ℕ
  pub movement_flags : ℕ
  pub movement_dist_left : ℕ
  pub movement_dist_right : ℕ
  pub movement_dist_up : ℕ
  pub movement_dist_down : ℕ
  pub movement_speed_x : ℕ
  pub movement_speed_y : ℕ
  pub blocking_flags : ℕ
  pub general_flags : ℕ

-- An item of type Map2D::Layer::Item::Default.
abbrev pub default_item : ℕ → ℕ → ℕ → Item
default_item x y code = record {
  type = 0;
  x = x;
  y = y;
  code = code;
  player_number = 0;
  player_facing_left = false;
  text_font = 0;
  text_content = [];
  movement_flags = 0;
  movement_dist_left = 0;
  movement_dist_right = 0;
  movement_dist_up = 0;
  movement_dist_down = 0;
  movement_speed_x = 0;
  movement_speed_y = 0;
  blocking_flags = 0;
  general_flags = 0;
}

-- The members of GenericMap2D::Layer.
pub record Layer : Type 0 where
  pub title : String
  pub caps : ℕ
  pub width : ℕ
  pub height : ℕ
  pub tile_width : ℕ
  pub tile_height : ℕ
  pub items : List Item
  pub valid_items : List Item

-- A pair of `int`s, each as its 32-bit pattern.
abbrev pub Point : Type 0
Point = ℕ × ℕ

-- Map2D::Path
pub record Path2D : Type 0 where
  pub start : List Point
  pub fixed : Bool
  pub points : List Point
  pub max_points : ℕ
  pub force_closed : Bool

-- Map::Attribute::Type, with Text as `textual`
pub data AttributeType : Type 0 where
  integer enum filename textual : AttributeType

-- Map::Attribute. The fields for type Text, which no format makes, are left out. Integers are
-- 32-bit patterns, and the text of a filename is its bytes.
pub record Attribute : Type 0 where
  pub type : AttributeType
  pub name : String
  pub desc : String
  pub integer_value : ℕ
  pub integer_min_value : ℕ
  pub integer_max_value : ℕ
  pub enum_value : ℕ
  pub enum_value_names : List String
  pub filename_value : List ℕ
  pub filename_valid_extension : String

-- A new Map::Attribute; its numbers and its type are not set, and are read only after they are.
abbrev pub blank_attribute : Attribute
blank_attribute = record {
  type = integer;
  name = "";
  desc = "";
  integer_value = 0;
  integer_min_value = 0;
  integer_max_value = 0;
  enum_value = 0;
  enum_value_names = [];
  filename_value = [];
  filename_valid_extension = "";
}

-- The bytes of a text of the program.
abbrev pub codes : String → List ℕ
codes String.[] = []
codes (String.◌∷◌ c s) = code c ∷ codes s

-- Map::GraphicsFilename
pub record GraphicsFilename : Type 0 where
  pub filename : List ℕ
  pub type : String

-- The members of GenericMap2D and of its bases Map2D and Map. `paths` is none where the pointer is null.
pub record Map2D : Type 0 where
  pub attributes : List Attribute
  pub graphics_filenames : List (ℕ × GraphicsFilename)
  pub caps : ℕ
  pub viewport_x : ℕ
  pub viewport_y : ℕ
  pub width : ℕ
  pub height : ℕ
  pub tile_width : ℕ
  pub tile_height : ℕ
  pub layers : List Layer
  pub paths : Option (List Path2D)

-- Map2D::Layer::ImageType, without the count that ends it.
pub data ImageType : Type 0 where
  supplied blank unknown : ImageType
  digit0 digit1 digit2 digit3 digit4 digit5 digit6 digit7 digit8 digit9 : ImageType
  digit_a digit_b digit_c digit_d digit_e digit_f interactive : ImageType

-- MapType::Certainty of include/camoto/gamemaps/maptype.hpp.
pub data Certainty : Type 0 where
  definitely_no unsure possibly_yes definitely_yes : Certainty

-- Item::Type, Item::MovementFlags and Item::DistIndeterminate.
abbrev pub player : ℕ
player = 0x0001

abbrev pub text_item : ℕ
text_item = 0x0002

abbrev pub movement : ℕ
movement = 0x0004

abbrev pub distance_limit : ℕ
distance_limit = 0x0001

abbrev pub dist_indeterminate : ℕ
dist_indeterminate = 2 ^ 32 - 1

-- The members of ImagePurpose, include/camoto/gamemaps/map.hpp, that the formats use.
abbrev pub background_tileset1 : ℕ
background_tileset1 = 9

abbrev pub foreground_tileset1 : ℕ
foreground_tileset1 = 18

abbrev pub foreground_tileset2 : ℕ
foreground_tileset2 = 19

abbrev pub sprite_tileset1 : ℕ
sprite_tileset1 = 27

abbrev pub background_image : ℕ
background_image = 46
