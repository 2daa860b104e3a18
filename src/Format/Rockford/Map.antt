-- ===== src/Format/Rockford/Map.antt =====
-- The map that a Rockford file opens into, and the bytes that a Rockford map is written as.
use libgamemaps.Prelude.{ℕ, ◌*◌, ◌≡◌, none, some, List, [], ◌∷◌, length, replicate}
use libgamemaps.Result.{ok, ◌>>=◌}
use libgamemaps.Stream.{Streams}
use libgamemaps.Stream.Read.{from_start, read_to_end}
use libgamemaps.Stream.Write.{Holds, Holds-write, Holds-flush}
use libgamemaps.Map2D.{Layer, Map2D}
use libgamemaps.Map2D.MapCaps
use libgamemaps.Map2D.Generic.{new_map2d, get_map_size, get_layer_count, get_layer, cast_map2d}
use libgamemaps.Grid.{grid_items, paint}
use libgamemaps.Format.{keep_all}
use libgamemaps.Format.Rockford.{map_width, map_height, background_layer, open_map, write_map}

-- The map of a level with these codes.
abbrev pub level : List ℕ → Map2D
level codes = record {
  attributes = [];
  graphics_filenames = [];
  caps = MapCaps.has_viewport;
  viewport_x = 320;
  viewport_y = 176;
  width = map_width;
  height = map_height;
  tile_width = 16;
  tile_height = 16;
  layers = background_layer (grid_items keep_all map_width 0 codes) ∷ [];
  paths = none;
}

-- A map of the format's shape: one layer and the fixed size.
pub record IsShaped (m : Map2D) (layer : Layer) : Type 0 where
  pub one_layer : m.layers ≡ layer ∷ []
  pub width_fits : m.width ≡ map_width
  pub height_fits : m.height ≡ map_height

module _ (lib : Streams) where
  open lib use {Input, Output, contents, write, flush}

  pub open_map-level :
      (input : Input)
      → length (contents input) ≡ map_width * map_height
      → open_map lib input ≡ ok (level (contents input))
  unfolding open_map new_map2d
  open_map-level input len =
      let (s, runs, same, left) = from_start lib input in
      let (s', reads, _, _) =
        read_to_end lib (map_width * map_height) s (contents input) left len in
      rw (runs, reads)

  -- On a map of the right shape `write_map` comes down to painting and writing one array.
  pub write_map-shape :
      {m : Map2D} {layer : Layer} (o : Output)
      → IsShaped m layer
      → write_map lib (some m) o ≡ (do
        bg ← paint 256 map_width map_height layer.items (replicate (map_width * map_height) 0)
        o' ← write bg o
        flush o')
  unfolding write_map cast_map2d get_layer_count get_map_size get_layer
  write_map-shape o shape = rw (shape.one_layer, shape.width_fits, shape.height_fits)

  pub write_map-paint :
      {m : Map2D} {layer : Layer} (bytes : List ℕ) (o : Output)
      → IsShaped m layer
      → Holds lib [] o
      → paint 256 map_width map_height layer.items (replicate (map_width * map_height) 0) ≡ ok bytes
      → (o' : Output) × (write_map lib (some m) o ≡ ok o') × Holds lib bytes o'
  write_map-paint bytes o shape fresh painted =
      let (o', writes, h) = Holds-write lib bytes fresh in
      let (o'', flushes, h') = Holds-flush lib h in
      (o'', rw (write_map-shape o shape, painted, writes) flushes, h')
