-- ===== src/Format/Duke1/Map.antt =====
-- The map that a Duke Nukem 1 file opens into, and the words that a map is written as.
use libgamemaps.Prelude.{
  ℕ, ◌^◌, ◌≡◌, sym, ◌∙◌, append-nil, none, some, List, [], ◌∷◌, length, replicate,
}
use libgamemaps.Result.{ok, ◌>>=◌}
use libgamemaps.Stream.{Streams}
use libgamemaps.Stream.Bytes.{words_bytes}
use libgamemaps.Stream.Read.{from_start}
use libgamemaps.Stream.Write.{Holds, Holds-flush}
use libgamemaps.Map2D.{Layer, Map2D}
use libgamemaps.Map2D.MapCaps
use libgamemaps.Map2D.Generic.{new_map2d, get_layer_count, get_layer, cast_map2d}
use libgamemaps.Grid.{grid_items, paint}
use libgamemaps.Grid.Words.{AllWords, read_cells-grid_items, write_words, Holds-write_words}
use libgamemaps.Format.{keep_other_than}
use libgamemaps.Format.Duke1.{
  map_width, map_height, layer_len, default_bgtile, background_layer, open_map, write_map,
}

-- The map of a level with these codes.
abbrev pub level : List ℕ → Map2D
level codes = record {
  attributes = [];
  graphics_filenames = [];
  caps = MapCaps.has_viewport;
  viewport_x = 208;
  viewport_y = 160;
  width = map_width;
  height = map_height;
  tile_width = 16;
  tile_height = 16;
  layers = background_layer (grid_items (keep_other_than default_bgtile) map_width 0 codes) ∷ [];
  paths = none;
}

-- A map of the format's shape: one layer.
pub record IsShaped (m : Map2D) (layer : Layer) : Type 0 where
  pub one_layer : m.layers ≡ layer ∷ []

module _ (lib : Streams) where
  open lib use {Input, Output, contents, flush}

  pub open_map-level :
      (input : Input) (codes : List ℕ)
      → contents input ≡ words_bytes codes
      → AllWords codes
      → length codes ≡ layer_len
      → open_map lib input ≡ ok (level codes)
  unfolding open_map new_map2d
  open_map-level input codes e small len =
      let (s, runs, same, left) = from_start lib input in
      let (s', reads, _) =
        read_cells-grid_items lib (keep_other_than default_bgtile) map_width 0 codes [] s small
          (left ∙ e ∙ sym (append-nil (words_bytes codes))) in
      rw (runs, rw len at reads)

  -- On a map of the right shape `write_map` comes down to painting and writing one array.
  pub write_map-shape :
      {m : Map2D} {layer : Layer} (o : Output)
      → IsShaped m layer
      → write_map lib (some m) o ≡ (do
        bg ← paint (2 ^ 16) map_width map_height layer.items (replicate layer_len default_bgtile)
        o' ← write_words lib bg o
        flush o')
  unfolding write_map cast_map2d get_layer_count get_layer
  write_map-shape o shape = rw shape.one_layer

  pub write_map-paint :
      {m : Map2D} {layer : Layer} (codes : List ℕ) (o : Output)
      → IsShaped m layer
      → Holds lib [] o
      → paint (2 ^ 16) map_width map_height layer.items (replicate layer_len default_bgtile)
        ≡ ok codes
      → (o' : Output) × (write_map lib (some m) o ≡ ok o') × Holds lib (words_bytes codes) o'
  write_map-paint codes o shape fresh painted =
      let (o', writes, h) = Holds-write_words lib codes [] o fresh in
      let (o'', flushes, h') = Holds-flush lib h in
      (o'', rw (write_map-shape o shape, painted, writes) flushes, h')
