-- ===== src/Format/DDave/Map.antt =====
-- The map that a Dangerous Dave file opens into, and the bytes that a map is written as.
use libgamemaps.Prelude.{ℕ, ◌+◌, ◌*◌, ◌≡◌, ◌∙◌, some, List, [], ◌∷◌, ◌++◌, length, replicate}
use libgamemaps.Result.{ok, ◌>>=◌}
use libgamemaps.Stream.{Streams}
use libgamemaps.Stream.Read.{from_start, read_exactly}
use libgamemaps.Stream.Write.{Holds, Holds-write, Holds-flush}
use libgamemaps.Map2D.{Layer, Path2D, Map2D}
use libgamemaps.Map2D.MapCaps
use libgamemaps.Map2D.Generic.{new_map2d, get_layer_count, get_layer, cast_map2d}
use libgamemaps.Grid.{grid_items, paint}
use libgamemaps.Format.{keep_other_than}
use libgamemaps.Format.DDave.Path.{layer_len_path, write_path}
use libgamemaps.Format.DDave.{
  map_width, map_height, tile_width, tile_height, layer_len_bg, pad_len, default_bgtile,
  background_layer, level_path, get_paths, only_path, open_map, write_map,
}

-- The map of a level with these path bytes and codes.
abbrev pub level : List ℕ → List ℕ → Map2D
level pathdata codes = record {
  attributes = [];
  graphics_filenames = [];
  caps = MapCaps.has_viewport + MapCaps.has_paths + MapCaps.fixed_path_count;
  viewport_x = 20 * tile_width;
  viewport_y = 10 * tile_height;
  width = map_width;
  height = map_height;
  tile_width = tile_width;
  tile_height = tile_height;
  layers = background_layer (grid_items (keep_other_than default_bgtile) map_width 0 codes) ∷ [];
  paths = some (level_path pathdata ∷ []);
}

-- A map of the format's shape: one layer and one path.
pub record IsShaped (m : Map2D) (layer : Layer) (path : Path2D) : Type 0 where
  pub one_layer : m.layers ≡ layer ∷ []
  pub one_path : m.paths ≡ some (path ∷ [])

module _ (lib : Streams) where
  open lib use {Input, Output, contents, write, flush}

  pub open_map-level :
      (input : Input) (pathdata codes pad : List ℕ)
      → contents input ≡ pathdata ++ (codes ++ pad)
      → length pathdata ≡ layer_len_path
      → length codes ≡ layer_len_bg
      → open_map lib input ≡ ok (level pathdata codes)
  unfolding open_map new_map2d
  open_map-level input pathdata codes pad e len_path len_bg =
      let (s, runs, _, left) = from_start lib input in
      let (s', reads, _, left') =
        read_exactly lib layer_len_path s pathdata (codes ++ pad) (left ∙ e) len_path in
      let (s'', reads', _, _) = read_exactly lib layer_len_bg s' codes pad left' len_bg in
      rw (runs, reads, reads')

  -- On a map of the right shape `write_map` comes down to its path, one array and the padding.
  pub write_map-shape :
      {m : Map2D} {layer : Layer} {first_path : Path2D} (o : Output)
      → IsShaped m layer first_path
      → write_map lib (some m) o ≡ (do
        path ← write_path first_path.points
        o' ← write path o
        bg ← paint 256 map_width map_height layer.items (replicate layer_len_bg default_bgtile)
        o'' ← write bg o'
        o''' ← write (replicate pad_len 0) o''
        flush o''')
  unfolding write_map cast_map2d get_layer_count get_layer get_paths only_path
  write_map-shape o shape = rw (shape.one_layer, shape.one_path)

  pub write_map-paint :
      {m : Map2D} {layer : Layer} {first_path : Path2D} (path bytes : List ℕ) (o : Output)
      → IsShaped m layer first_path
      → Holds lib [] o
      → write_path first_path.points ≡ ok path
      → paint 256 map_width map_height layer.items (replicate layer_len_bg default_bgtile)
        ≡ ok bytes
      → (o' : Output) × (write_map lib (some m) o ≡ ok o')
        × Holds lib ((path ++ bytes) ++ replicate pad_len 0) o'
  write_map-paint path bytes o shape fresh stored painted =
      let (o1, writes1, h1) = Holds-write lib path fresh in
      let (o2, writes2, h2) = Holds-write lib bytes h1 in
      let (o3, writes3, h3) = Holds-write lib (replicate pad_len 0) h2 in
      let (o4, flushes, h4) = Holds-flush lib h3 in
      (o4, rw (write_map-shape o shape, stored, writes1, painted, writes2, writes3) flushes, h4)
