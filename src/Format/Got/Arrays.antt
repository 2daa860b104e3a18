-- ===== src/Format/Got/Arrays.antt =====
-- The arrays that `write` of a God of Thunder level fills from the layers.
use libgamemaps.Prelude.{
  ℕ, ◌+◌, ◌-◌, ◌*◌, ◌/◌, ◌%◌, ◌||◌, none, some, List, [], ◌∷◌, ◌++◌, length, set, get_elem?, ltb,
  if◌then◌else◌, not,
}
use libgamemaps.Result.{
  Result, ok, undefined, check, tile_outside_map, music_out_of_range, ◌>>=◌, ◌>>◌,
}
use libgamemaps.Map2D.{Item}
use libgamemaps.Grid.{store}
use libgamemaps.Format.Got.Screens.{
  scr_len_bg, scr_width, scr_height, screencount_horiz, screencount_vert, num_actors, num_objects,
  screen_of, offset_of,
}

abbrev pub map_width : ℕ
map_width = scr_width * screencount_horiz

abbrev pub map_height : ℕ
map_height = scr_height * screencount_vert

-- The guard of each of the loops.
unfoldable pub check_place : Item → Result (Unit {0})
check_place item = check (not (ltb map_width item.x || ltb map_height item.y)) tile_outside_map

-- The background: 240 bytes for each screen.
unfoldable pub put_tiles : List Item → List ℕ → Result (List ℕ)
unfolding check_place
put_tiles [] bg = ok bg
put_tiles (item ∷ items) bg = do
  check_place item
  bg' ← store bg (screen_of item.x item.y * scr_len_bg + offset_of item.x item.y) (item.code % 256)
  put_tiles items bg'

-- The default tile of each screen.
unfoldable pub put_default : List Item → List ℕ → Result (List ℕ)
unfolding check_place
put_default [] default_bg = ok default_bg
put_default (item ∷ items) default_bg = do
  check_place item
  default_bg' ← store default_bg (item.y * screencount_horiz + item.x) (item.code % 256)
  put_default items default_bg'

-- The song of each screen.
unfoldable pub put_music : List Item → List ℕ → Result (List ℕ)
unfolding check_place
put_music [] mus = ok mus
put_music (item ∷ items) mus = do
  check_place item
  check (not (ltb item.code 256)) music_out_of_range
  mus' ← store mus (item.y * screencount_horiz + item.x) ((item.code - 256) % 256)
  put_music items mus'

-- An actor: id and pos. An object: id, x and y.
abbrev pub ActorEntry : Type 0
ActorEntry = ℕ × ℕ

abbrev pub ObjectEntry : Type 0
ObjectEntry = ℕ × ℕ × ℕ

-- One more entry in the array of screen `s`, which has room for `room`; past it, and past the last
-- screen, the store is outside the array.
unfoldable pub add_entry : {E : Type 0} → ℕ → ℕ → E → List (List E) → Result (List (List E))
add_entry room s e screens = elim (get_elem? screens s) [
  | none ↦ undefined
  | some entries ↦
      if ltb (length entries) room then ok (set screens s (entries ++ e ∷ [])) else undefined
]

unfoldable pub put_actors : List Item → List (List ActorEntry) → Result (List (List ActorEntry))
unfolding check_place
put_actors [] actor = ok actor
put_actors (item ∷ items) actor = do
  check_place item
  let entry : ActorEntry = ((item.code + 1) % 256, offset_of item.x item.y % 256)
  actor' ← add_entry num_actors (screen_of item.x item.y) entry actor
  put_actors items actor'

unfoldable pub put_objects : List Item → List (List ObjectEntry) → Result (List (List ObjectEntry))
unfolding check_place
put_objects [] obj = ok obj
put_objects (item ∷ items) obj = do
  check_place item
  let entry : ObjectEntry = (
    (item.code + 1) % 256,
    item.x - item.x / scr_width * scr_width,
    item.y - item.y / scr_height * scr_height,
  )
  obj' ← add_entry num_objects (screen_of item.x item.y) entry obj
  put_objects items obj'
