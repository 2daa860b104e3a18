-- ===== src/Format/Got/Screens.antt =====
-- The 120 screens of a God of Thunder level, ten to a row: where a tile of the map lies, and the
-- items that the 512 bytes of a screen stand for.
use libgamemaps.Prelude.{
  ℕ, zero, suc, ◌+◌, ◌-◌, ◌*◌, ◌/◌, ◌%◌, none, some, List, [], ◌∷◌, ◌++◌, take, get_elem?, ◌==◌,
  if◌then◌else◌,
}
use libgamemaps.Result.{Result, ok, ◌>>=◌}
use libgamemaps.Stream.{Streams}
use libgamemaps.Map2D.{Item, default_item}

abbrev pub scr_len : ℕ
scr_len = 512

abbrev pub scr_len_bg : ℕ
scr_len_bg = 240

abbrev pub scr_width : ℕ
scr_width = 20

abbrev pub scr_height : ℕ
scr_height = 12

abbrev pub actor_offset : ℕ
actor_offset = scr_len_bg + 2

abbrev pub obj_offset : ℕ
obj_offset = actor_offset + 16 * 2 + 16 * 3

abbrev pub num_actors : ℕ
num_actors = 16

abbrev pub num_objects : ℕ
num_objects = 30

abbrev pub map_numscreens : ℕ
map_numscreens = 120

abbrev pub screencount_horiz : ℕ
screencount_horiz = 10

abbrev pub screencount_vert : ℕ
screencount_vert = map_numscreens / screencount_horiz

-- The tile of the map for tile `i` of screen `s`.
abbrev pub tile_x : ℕ → ℕ → ℕ
tile_x s i = s % screencount_horiz * scr_width + i % scr_width

abbrev pub tile_y : ℕ → ℕ → ℕ
tile_y s i = s / screencount_horiz * scr_height + i / scr_width

-- The screen of a tile of the map, and the place of the tile in it.
abbrev pub screen_of : ℕ → ℕ → ℕ
screen_of x y = y / scr_height * screencount_horiz + x / scr_width

abbrev pub offset_of : ℕ → ℕ → ℕ
offset_of x y = (y - y / scr_height * scr_height) * scr_width + (x - x / scr_width * scr_width)

-- `mapData[i]`, for `i` below 512.
unfoldable pub byte_at : List ℕ → ℕ → ℕ
byte_at map_data i = elim (get_elem? map_data i) [ none ↦ 0 | some b ↦ b ]

-- The loop over the background of screen `s`, from tile `i` on.
unfoldable pub screen_tiles : ℕ → ℕ → List ℕ → List Item
screen_tiles s i [] = []
screen_tiles s i (code ∷ codes) =
    default_item (tile_x s i) (tile_y s i) code ∷ screen_tiles s (i + 1) codes

-- The loop over the actors of a screen, `n` of them from actor `i` on.
unfoldable pub screen_actors : ℕ → List ℕ → ℕ → ℕ → List Item
screen_actors s map_data i zero = []
screen_actors s map_data i (suc n) =
    let actors = screen_actors s map_data (i + 1) n in
    let id = byte_at map_data (actor_offset + i) in
    let pos = byte_at map_data (actor_offset + 16 + i) in
    if id == 0 then actors else default_item (tile_x s pos) (tile_y s pos) (id - 1) ∷ actors

-- The loop over the objects of a screen.
unfoldable pub screen_objects : ℕ → List ℕ → ℕ → ℕ → List Item
screen_objects s map_data i zero = []
screen_objects s map_data i (suc n) =
    let objects = screen_objects s map_data (i + 1) n in
    let id = byte_at map_data (obj_offset + i) in
    let x =
      byte_at map_data (obj_offset + 30 + i * 2)
      + byte_at map_data (obj_offset + 30 + i * 2 + 1) * 256 in
    let y =
      byte_at map_data (obj_offset + 90 + i * 2)
      + byte_at map_data (obj_offset + 90 + i * 2 + 1) * 256 in
    if id == 0
    then objects
    else default_item (s % screencount_horiz * scr_width + x)
        (s / screencount_horiz * scr_height + y) (id - 1)
      ∷ objects

-- The items of the five layers.
pub record Items : Type 0 where
  pub tiles : List Item
  pub tiles_default : List Item
  pub tiles_mus : List Item
  pub tiles_actor : List Item
  pub tiles_obj : List Item

module _ (lib : Streams) where
  open lib use {Input, read}

  -- The loop of `open` over the screens, `n` of them from screen `s` on.
  unfoldable pub read_screens : ℕ → ℕ → Input → Result (Items × Input)
  read_screens zero s input = ok (
    record { tiles = []; tiles_default = []; tiles_mus = []; tiles_actor = []; tiles_obj = [] },
    input,
  )
  read_screens (suc n) s input = do
    (map_data, input') ← read scr_len input
    (later, input'') ← read_screens n (s + 1) input'
    let origin_x = s % screencount_horiz
    let origin_y = s / screencount_horiz
    ok (
      record {
        tiles = screen_tiles s 0 (take scr_len_bg map_data) ++ later.tiles;
        tiles_default =
            default_item origin_x origin_y (byte_at map_data scr_len_bg) ∷ later.tiles_default;
        tiles_mus =
            default_item origin_x origin_y (256 + byte_at map_data (scr_len_bg + 1))
            ∷ later.tiles_mus;
        tiles_actor = screen_actors s map_data 0 num_actors ++ later.tiles_actor;
        tiles_obj = screen_objects s map_data 0 num_objects ++ later.tiles_obj;
      },
      input'',
    )
