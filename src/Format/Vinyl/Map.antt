-- ===== src/Format/Vinyl/Map.antt =====
-- The map that a Vinyl Goddess From Mars file opens into, and the bytes that a map is written as.
use libgamemaps.Prelude.{
  ℕ, zero, suc, ◌*◌, ◌/◌, ◌%◌, ◌^◌, ◌≤◌, ◌<◌, ◌≡◌, refl, ◌∙◌, ap, none, some, List, [], ◌∷◌, ◌++◌,
  length, replicate, lt→ltb, arith, get_elem?,
}
use libgamemaps.Result.{ok}
use libgamemaps.Stream.{Streams}
use libgamemaps.Stream.Bytes.{words_bytes}
use libgamemaps.Stream.Read.{from_start, read_to_end}
use libgamemaps.Stream.Write.{Holds, Holds-write, Holds-write_u16le, Holds-flush}
use native.Mathlib.Nat.{mod-eq_of_lt}
use libgamemaps.Map2D.{Layer, Map2D}
use libgamemaps.Map2D.MapCaps
use libgamemaps.Map2D.Generic.{new_map2d, get_map_size, get_layer_count, get_layer, cast_map2d}
use libgamemaps.Grid.{grid_items, paint}
use libgamemaps.Grid.Area.{area_le}
use libgamemaps.Grid.Words.{AllWords, read_word, read_cells-grid_items, Holds-write_words}
use libgamemaps.Format.{keep_all, keep_other_than}
use libgamemaps.Format.Vinyl.{
  default_tile_fg, valid_bg_items, valid_fg_items, vinyl_layer, map_len, clear_bytes, open_map,
  write_map,
}

-- The bytes of a file: the height, the width, and what follows them.
abbrev pub level_bytes : ℕ → ℕ → List ℕ → List ℕ
level_bytes w h body = h % 256 ∷ h / 256 % 256 ∷ w % 256 ∷ w / 256 % 256 ∷ body

-- The map of a level of this size with these codes.
abbrev pub level : ℕ → ℕ → List ℕ → List ℕ → Map2D
level w h bg fg = record {
  attributes = [];
  graphics_filenames = [];
  caps = MapCaps.has_viewport;
  viewport_x = 320;
  viewport_y = 159;
  width = w;
  height = h;
  tile_width = 16;
  tile_height = 16;
  layers =
      vinyl_layer "Background" (grid_items keep_all w 0 bg) valid_bg_items
      ∷ vinyl_layer "Foreground" (grid_items (keep_other_than default_tile_fg) w 0 fg)
          valid_fg_items
      ∷ [];
  paths = none;
}

pub map_len-word : (w h : ℕ) → w < 2 ^ 16 → h < 2 ^ 16 → map_len w h ≡ w * h
map_len-word w h pw ph = mod-eq_of_lt (omega (arith, area_le w h 65535 (omega arith) (omega arith)))

pub length-clear_bytes : (n : ℕ) (vs : List ℕ) → length (clear_bytes n vs) ≡ length vs
unfolding clear_bytes
length-clear_bytes n [] = refl
length-clear_bytes zero (v ∷ vs) = refl
length-clear_bytes (suc zero) (v ∷ vs) = refl
length-clear_bytes (suc (suc n)) (v ∷ vs) = ap suc (length-clear_bytes n vs)

pub clear_bytes-AllWords : (n : ℕ) (vs : List ℕ) → AllWords vs → AllWords (clear_bytes n vs)
unfolding clear_bytes
clear_bytes-AllWords n [] h = tt
clear_bytes-AllWords zero (v ∷ vs) h = h
clear_bytes-AllWords (suc zero) (v ∷ vs) (p, h) = (omega arith, h)
clear_bytes-AllWords (suc (suc n)) (v ∷ vs) (p, h) = (omega arith, clear_bytes-AllWords n vs h)

-- The words from half of `n` on keep what the memory held.
pub clear_bytes_beyond :
    (n i : ℕ) (vs : List ℕ) → n ≤ i * 2 → get_elem? (clear_bytes n vs) i ≡ get_elem? vs i
unfolding clear_bytes
clear_bytes_beyond n i [] h = refl
clear_bytes_beyond zero i (v ∷ vs) h = refl
clear_bytes_beyond (suc zero) zero (v ∷ vs) h = absurd (omega arith)
clear_bytes_beyond (suc zero) (suc i) (v ∷ vs) h = refl
clear_bytes_beyond (suc (suc n)) zero (v ∷ vs) h = absurd (omega arith)
clear_bytes_beyond (suc (suc n)) (suc i) (v ∷ vs) h = clear_bytes_beyond n i vs (omega arith)

-- A map of the format's shape: two layers, and a size that the file can hold.
pub record IsShaped (m : Map2D) (bg_layer fg_layer : Layer) : Type 0 where
  pub two_layers : m.layers ≡ bg_layer ∷ fg_layer ∷ []
  pub width_fits : m.width < 2 ^ 16
  pub height_fits : m.height < 2 ^ 16

module _ (lib : Streams) where
  open lib use {Input, Output, contents, rest, seek_get, read_u16le}

  -- The dimensions are read, and the body is left.
  pub read_dimensions :
      (input : Input) (w h : ℕ) (body : List ℕ)
      → w < 2 ^ 16
      → h < 2 ^ 16
      → contents input ≡ level_bytes w h body
      → (s s' s'' : Input) × (seek_get 0 input ≡ ok s)
        × (read_u16le s ≡ ok (h, s'))
        × (read_u16le s' ≡ ok (w, s''))
        × (rest s'' ≡ body)
  read_dimensions input w h body pw ph e =
      let (s, runs, _, left) = from_start lib input in
      let (s', reads, left') = read_word lib s h _ ph (left ∙ e) in
      let (s'', reads', left'') = read_word lib s' w body pw left' in
      (s, s', s'', runs, reads, reads', left'')

  pub open_map-level :
      (input : Input) (w h : ℕ) (bg fg : List ℕ)
      → w < 2 ^ 16
      → h < 2 ^ 16
      → 0 < w
      → 0 < h
      → contents input ≡ level_bytes w h (words_bytes bg ++ fg)
      → AllWords bg
      → length bg ≡ w * h
      → length fg ≡ w * h
      → open_map lib input ≡ ok (level w h bg fg)
  unfolding open_map new_map2d
  open_map-level input w h bg fg pw ph pos_w pos_h e words len len' =
      let (s, s', s'', runs, reads, reads', left) = read_dimensions input w h _ pw ph e in
      let (t, reads_bg, left') = read_cells-grid_items lib keep_all w 0 bg fg s'' words left in
      let (_, reads_fg, _, _) = read_to_end lib (w * h) t fg left' len' in
      rw (
        runs,
        reads,
        reads',
        map_len-word w h pw ph,
        rw len at reads_bg,
        reads_fg,
        lt→ltb 0 w pos_w,
        lt→ltb 0 h pos_h,
      )

  pub write_map-paint :
      {m : Map2D} {bg_layer fg_layer : Layer} (heap : ℕ → List ℕ) (bg fg : List ℕ) (o : Output)
      → IsShaped m bg_layer fg_layer
      → Holds lib [] o
      → paint
          (2 ^ 16)
          m.width
          m.height
          bg_layer.items
          (clear_bytes (m.width * m.height) (heap (m.width * m.height)))
        ≡ ok bg
      → paint 256 m.width m.height fg_layer.items (replicate (m.width * m.height) default_tile_fg)
        ≡ ok fg
      → (o' : Output) × (write_map lib heap (some m) o ≡ ok o')
        × Holds lib (level_bytes m.width m.height (words_bytes bg ++ fg)) o'
  unfolding write_map cast_map2d get_layer_count get_map_size get_layer
  write_map-paint {m} heap bg fg o shape fresh painted_bg painted_fg =
      let (o1, writes1, h1) = Holds-write_u16le lib m.height fresh in
      let (o2, writes2, h2) = Holds-write_u16le lib m.width h1 in
      let (o3, writes3, h3) = Holds-write_words lib bg _ o2 h2 in
      let (o4, writes4, h4) = Holds-write lib fg h3 in
      let (o5, flushes, h5) = Holds-flush lib h4 in
      (
        o5,
        rw
            (
              shape.two_layers,
              writes1,
              writes2,
              map_len-word m.width m.height shape.width_fits shape.height_fits,
              painted_bg,
              writes3,
              painted_fg,
              writes4,
            )
            flushes,
        h5,
      )
