-- ===== src/Format/Got/Layout.antt =====
-- Where the tiles of a God of Thunder level lie in its screens, and what `write` puts there.
use libgamemaps.Prelude.{
  ℕ, ◌+◌, ◌*◌, ◌%◌, ◌≤◌, ◌<◌, ◌≡◌, ◌≢◌, refl, sym, ap, ◌∙◌, true, false, ◌&&◌, some, List, [], ◌∷◌,
  length, set, get_elem?, length-set, get_elem?-set_self, get_elem?-set_ne, arith, lt→ltb, le→ltb,
  ◌==◌, Bool-cases, inl, inr,
}
use native.Mathlib.Decide.{ℕ_discrete}
use libgamemaps.Result.{ok}
use libgamemaps.Map2D.{Item}
use libgamemaps.Grid.{store}
use libgamemaps.Grid.View.{InGrid, tile_at}
use libgamemaps.Format.Got.Screens.{
  map_numscreens, scr_len_bg, screen_of, offset_of, tile_x, tile_y,
}
use libgamemaps.Format.Got.Arrays.{map_width, map_height, check_place, put_tiles}

-- Each tile of the map, of 200 x 144 tiles, lies in one of the 120 screens, at one of its 240
-- places, and `open` makes of that place of that screen the same tile. Each place of each screen is
-- a tile of the map that `write` puts at this place of this screen.
pub tile_places :
    ((x y : ℕ)
      → x < map_width
      → y < map_height
      → (screen_of x y < map_numscreens)
        × (offset_of x y < scr_len_bg)
        × (tile_x (screen_of x y) (offset_of x y) ≡ x)
        × (tile_y (screen_of x y) (offset_of x y) ≡ y))
    × ((s i : ℕ)
        → s < map_numscreens
        → i < scr_len_bg
        → (tile_x s i < map_width)
          × (tile_y s i < map_height)
          × (screen_of (tile_x s i) (tile_y s i) ≡ s)
          × (offset_of (tile_x s i) (tile_y s i) ≡ i))
tile_places = (
  λ x y px py. (omega arith, omega arith, omega arith, omega arith),
  λ s i ps pi. (omega arith, omega arith, omega arith, omega arith),
)

-- The index of a tile of the map in the array of the screens.
abbrev pub place : ℕ → ℕ → ℕ
place x y = screen_of x y * scr_len_bg + offset_of x y

place_lt : (x y : ℕ) → x < map_width → y < map_height → place x y < map_width * map_height
place_lt x y px py = omega arith

place_inj :
    (x y x' y' : ℕ)
    → x < map_width
    → y < map_height
    → x' < map_width
    → y' < map_height
    → place x y ≡ place x' y'
    → (x ≡ x') × (y ≡ y')
place_inj x y x' y' px py px' py' e =
    let (_, small, same_x, same_y) = tile_places.0 x y px py in
    let (_, small', same_x', same_y') = tile_places.0 x' y' px' py' in
    let screen : screen_of x y ≡ screen_of x' y' = omega arith in
    let offset : offset_of x y ≡ offset_of x' y' = omega arith in
    (sym same_x ∙ rw (screen, offset) same_x', sym same_y ∙ rw (screen, offset) same_y')

other_place : (x y x' y' : ℕ) → place x y ≢ place x' y' → (x == x' && y == y') ≡ false
other_place x y x' y' ne = elim (Bool-cases (x == x' && y == y')) [
  | inr differ ↦ differ
  | inl same ↦
      let same_x : x ≡ x' = ground arith in
      let same_y : y ≡ y' = ground arith in
      absurd (ne (ap (λ a. place a y) same_x ∙ ap (place x') same_y))
]

put_tiles_step :
    (item : Item) (items : List Item) (bg : List ℕ)
    → item.x < map_width
    → item.y < map_height
    → length bg ≡ map_width * map_height
    → put_tiles (item ∷ items) bg ≡ put_tiles items (set bg (place item.x item.y) (item.code % 256))
unfolding put_tiles check_place store
put_tiles_step item items bg px py len = rw (
  le→ltb map_width item.x (omega arith),
  le→ltb map_height item.y (omega arith),
  lt→ltb (place item.x item.y) (length bg) (omega (arith, place_lt item.x item.y px py)),
)

-- Items that lie in the map of 200 x 144 tiles can be put into an array of 28800 bytes. At every
-- tile of the map, the byte at its place in its screen is then the code of the last item there,
-- reduced to 8 bits, or where there is none, what the array held.
pub put_tiles-tile_at :
    (items : List Item) (bg : List ℕ)
    → InGrid map_width map_height items
    → length bg ≡ map_width * map_height
    → (bg' : List ℕ) × (put_tiles items bg ≡ ok bg')
      × (length bg' ≡ map_width * map_height)
      × ((x y d : ℕ)
          → x < map_width
          → y < map_height
          → get_elem? bg (place x y) ≡ some d
          → get_elem? bg' (place x y) ≡ some (tile_at 256 d items x y))
unfolding tile_at
put_tiles-tile_at [] bg inside len = (bg, unfold put_tiles in refl, len, λ x y d px py held. held)
put_tiles-tile_at (item ∷ items) bg ((p, q), inside) len =
    let at = place item.x item.y in
    let v = item.code % 256 in
    let (bg', runs, len', shows) =
      put_tiles-tile_at items (set bg at v) inside (length-set bg at v ∙ len) in
    (
      bg',
      put_tiles_step item items bg p q len ∙ runs,
      len',
      λ x y d px py held. elim (ℕ_discrete at (place x y)) [
        | yes same ↦
            let (same_x, same_y) = place_inj item.x item.y x y p q px py same in
            let here : (item.x == x && item.y == y) ≡ true = ground arith in
            rw here (
              shows x y v px py (
                rw (← same)
                  (get_elem?-set_self bg at v (omega (arith, place_lt item.x item.y p q)))))
        | no ne ↦
            let elsewhere : (item.x == x && item.y == y) ≡ false =
              other_place item.x item.y x y ne in
            rw elsewhere (shows x y d px py (get_elem?-set_ne bg at (place x y) v ne ∙ held))
      ],
    )

-- An item that the guard of `put_default` lets pass, and one of a screen.
abbrev pub IsPlaced : Item → Type 0
IsPlaced item = (item.x ≤ map_width) × (item.y ≤ map_height)

abbrev pub IsScreen : Item → Type 0
IsScreen item = item.y * 10 + item.x < map_numscreens
