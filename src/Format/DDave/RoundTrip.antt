-- ===== src/Format/DDave/RoundTrip.antt =====
-- A Dangerous Dave map that is written is read back.
use libgamemaps.Prelude.{
  ℕ, ◌≤◌, ◌<◌, ◌≡◌, ◌∙◌, ap, some, List, ◌++◌, length, replicate, length-append, append_assoc,
  arith,
}
use libgamemaps.Result.{ok, undefined}
use libgamemaps.Stream.{Streams, IsFresh}
use libgamemaps.Stream.Write.{IsFresh-Holds}
use libgamemaps.Map2D.{Layer, Path2D, Map2D}
use libgamemaps.Grid.{grid_items}
use libgamemaps.Grid.View.{InGrid, tile_at, paint-reopens}
use libgamemaps.Format.{keep_other_than, keep_other_than_skips}
use libgamemaps.Format.DDave.Path.{path_points}
use libgamemaps.Format.DDave.Encoding.{InReach, settled}
use libgamemaps.Format.DDave.Storing.{path_points-write_path, write_path_overrun}
use libgamemaps.Format.DDave.{map_width, map_height, filesize, default_bgtile, open_map, write_map}
use libgamemaps.Format.DDave.Map.{IsShaped, level, open_map-level, write_map-shape, write_map-paint}

module _ (lib : Streams) where
  open lib use {Input, Output, contents, written}

  -- A map of one layer and one path can be written to a fresh stream if its items lie in the grid
  -- of 100 x 10 tiles and its path has at most 128 points, whose coordinates are 32-bit patterns and
  -- each of which lies, in both directions, within a signed byte of the point that the one before is
  -- read back as, and the first of (0, 0). The file has 1280 bytes. Whatever file holds these bytes opens, its
  -- path has the same points, but for a step that would look like the end marker, which ends one
  -- pixel lower, and at every cell its layer shows the code that the written layer shows there,
  -- reduced to a byte.
  pub open_map-write_map_ddave :
      (m : Map2D) (layer : Layer) (path : Path2D) (o : Output)
      → IsShaped m layer path
      → InGrid map_width map_height layer.items
      → length path.points ≤ 128
      → InReach 0 0 path.points
      → IsFresh lib o
      → (o' : Output) × (write_map lib (some m) o ≡ ok o')
        × (length (written o') ≡ filesize)
        × ((input : Input)
            → contents input ≡ written o'
            → (pathdata codes : List ℕ) × (open_map lib input ≡ ok (level pathdata codes))
              × (path_points 0 0 pathdata ≡ settled 0 0 path.points)
              × ((x y : ℕ)
                  → x < map_width
                  → y < map_height
                  → tile_at 256 default_bgtile
                      (grid_items (keep_other_than default_bgtile) map_width 0 codes)
                      x
                      y
                    ≡ tile_at 256 default_bgtile layer.items x y))
  open_map-write_map_ddave m layer path o shape inside fits reach fresh =
      let (bg, painted, len, small, shows) =
        paint-reopens 256 map_width (omega arith) (keep_other_than default_bgtile) default_bgtile
          (keep_other_than_skips default_bgtile) map_height layer.items (omega arith) inside in
      let (pathdata, stored, len_path, points) = path_points-write_path path.points fits reach in
      let pad : List ℕ = replicate 24 0 in
      let (o', writes, h) =
        write_map-paint lib pathdata bg o shape (IsFresh-Holds lib fresh) stored painted in
      let nested = h.bytes_written ∙ append_assoc pathdata bg pad in
      (
        o',
        writes,
        ap length nested
            ∙ omega
                (arith, length-append pathdata (bg ++ pad), length-append bg pad, len, len_path),
        λ input same. (
          pathdata,
          bg,
          open_map-level lib input pathdata bg pad (same ∙ nested) len_path len,
          points,
          shows,
        ),
      )

  -- A map of the right shape whose path has more than 128 points is never refused as too long:
  -- the write runs past the array of the path.
  pub write_map_overrun_ddave :
      (m : Map2D) (layer : Layer) (path : Path2D) (o : Output)
      → IsShaped m layer path
      → 128 < length path.points
      → write_map lib (some m) o ≡ undefined
  write_map_overrun_ddave m layer path o shape more =
      write_map-shape lib o shape ∙ rw (write_path_overrun path.points more)
