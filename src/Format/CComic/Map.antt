-- ===== src/Format/CComic/Map.antt =====
-- The map that a Captain Comic file opens into, and the bytes that a map is written as.
use libgamemaps.Prelude.{
  ℕ, ◌*◌, ◌/◌, ◌%◌, ◌^◌, ◌<◌, ◌≡◌, ◌∙◌, ap, none, some, List, [], ◌∷◌, length, replicate, lt→ltb,
  le→ltb, arith,
}
use libgamemaps.Result.{ok, assertion_failed}
use libgamemaps.Stream.{Streams}
use libgamemaps.Stream.Bytes.{word_of_bytes}
use libgamemaps.Stream.Read.{from_start, read_to_end}
use libgamemaps.Stream.Write.{Holds, Holds-write, Holds-write_u16le, Holds-flush}
use native.Mathlib.Decide.{dec_lt}
use native.Mathlib.Nat.{mod-eq_of_lt}
use libgamemaps.Map2D.{Layer, Map2D}
use libgamemaps.Map2D.MapCaps
use libgamemaps.Map2D.Generic.{new_map2d, get_map_size, get_layer_count, get_layer, cast_map2d}
use libgamemaps.Grid.{grid_items, paint}
use libgamemaps.Grid.Area.{area_le, area_pos}
use libgamemaps.Format.{keep_all}
use libgamemaps.Format.CComic.{default_bgtile, background_layer, map_len, open_map, write_map}

-- The bytes of a level.
abbrev pub level_bytes : ℕ → ℕ → List ℕ → List ℕ
level_bytes w h codes = w % 256 ∷ w / 256 % 256 ∷ h % 256 ∷ h / 256 % 256 ∷ codes

-- The map of a level of this size with these codes.
abbrev pub level : ℕ → ℕ → List ℕ → Map2D
level w h codes = record {
  attributes = [];
  graphics_filenames = [];
  caps = MapCaps.has_viewport;
  viewport_x = 193;
  viewport_y = 160;
  width = w;
  height = h;
  tile_width = 16;
  tile_height = 16;
  layers = background_layer (grid_items keep_all w 0 codes) ∷ [];
  paths = none;
}

-- Dimensions that the file can hold: their product does not wrap.
pub map_len-word : (w h : ℕ) → w < 2 ^ 16 → h < 2 ^ 16 → map_len w h ≡ w * h
map_len-word w h pw ph = mod-eq_of_lt (omega (arith, area_le w h 65535 (omega arith) (omega arith)))

-- A map of the format's shape: one layer, and a size that the file can hold.
pub record IsShaped (m : Map2D) (layer : Layer) : Type 0 where
  pub one_layer : m.layers ≡ layer ∷ []
  pub width_fits : m.width < 2 ^ 16
  pub height_fits : m.height < 2 ^ 16

module _ (lib : Streams) where
  open lib use {
    Input, Output, contents, rest, seek_get, read_u16le, write, write_u16le, flush, read_u16le_lem,
  }

  -- The dimensions are read, and the codes are left.
  pub read_dimensions :
      (input : Input) (w h : ℕ) (codes : List ℕ)
      → w < 2 ^ 16
      → h < 2 ^ 16
      → contents input ≡ level_bytes w h codes
      → (s s' s'' : Input) × (seek_get 0 input ≡ ok s)
        × (read_u16le s ≡ ok (w, s'))
        × (read_u16le s' ≡ ok (h, s''))
        × (rest s'' ≡ codes)
  read_dimensions input w h codes pw ph e =
      let (s, runs, _, left) = from_start lib input in
      let (s', reads, _, left') = read_u16le_lem s (w % 256) (w / 256 % 256) _ (left ∙ e) in
      let (s'', reads', _, left'') = read_u16le_lem s' (h % 256) (h / 256 % 256) codes left' in
      (
        s,
        s',
        s'',
        runs,
        reads ∙ ap (λ (v : ℕ). ok (v, s')) (word_of_bytes w pw),
        reads' ∙ ap (λ (v : ℕ). ok (v, s'')) (word_of_bytes h ph),
        left'',
      )

  open_map-new :
      (input : Input) (w h : ℕ) (codes : List ℕ)
      → w < 2 ^ 16
      → h < 2 ^ 16
      → contents input ≡ level_bytes w h codes
      → length codes ≡ w * h
      → open_map lib input
        ≡ new_map2d [] [] MapCaps.has_viewport 193 160 w h 16 16
            (background_layer (grid_items keep_all w 0 codes) ∷ [])
            none
  unfolding open_map
  open_map-new input w h codes pw ph e len =
      let (s, s', s'', runs, reads, reads', left) = read_dimensions input w h codes pw ph e in
      let (_, reads'', _, _) = read_to_end lib (w * h) s'' codes left len in
      rw (runs, reads, reads', map_len-word w h pw ph, reads'')

  pub open_map-level :
      (input : Input) (w h : ℕ) (codes : List ℕ)
      → w < 2 ^ 16
      → h < 2 ^ 16
      → 0 < w
      → 0 < h
      → contents input ≡ level_bytes w h codes
      → length codes ≡ w * h
      → open_map lib input ≡ ok (level w h codes)
  unfolding new_map2d
  open_map-level input w h codes pw ph pos_w pos_h e len =
      open_map-new input w h codes pw ph e len ∙ rw (lt→ltb 0 w pos_w, lt→ltb 0 h pos_h)

  pub open_map_empty :
      (input : Input) (w h : ℕ)
      → w < 2 ^ 16
      → h < 2 ^ 16
      → w * h ≡ 0
      → contents input ≡ level_bytes w h []
      → open_map lib input ≡ assertion_failed
  unfolding new_map2d
  open_map_empty input w h pw ph no_area e =
      open_map-new input w h [] pw ph e (omega arith) ∙ elim (dec_lt 0 w) [
        | yes p ↦ elim (dec_lt 0 h) [
          | yes q ↦ absurd (omega (arith, area_pos w h p q))
          | no q ↦ rw (lt→ltb 0 w p, le→ltb 0 h (omega arith))
        ]
        | no p ↦ rw (le→ltb 0 w (omega arith))
      ]

  pub write_map-paint :
      {m : Map2D} {layer : Layer} (codes : List ℕ) (o : Output)
      → IsShaped m layer
      → Holds lib [] o
      → paint 256 m.width m.height layer.items (replicate (m.width * m.height) default_bgtile)
        ≡ ok codes
      → (o' : Output) × (write_map lib (some m) o ≡ ok o')
        × Holds lib (level_bytes m.width m.height codes) o'
  unfolding write_map cast_map2d get_layer_count get_map_size get_layer
  write_map-paint {m} codes o shape fresh painted =
      let (o1, writes1, h1) = Holds-write_u16le lib m.width fresh in
      let (o2, writes2, h2) = Holds-write_u16le lib m.height h1 in
      let (o3, writes3, h3) = Holds-write lib codes h2 in
      let (o4, flushes, h4) = Holds-flush lib h3 in
      (
        o4,
        rw
            (
              shape.one_layer,
              writes1,
              writes2,
              map_len-word m.width m.height shape.width_fits shape.height_fits,
              painted,
              writes3,
            )
            flushes,
        h4,
      )
