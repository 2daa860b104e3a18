-- ===== src/Format/Rockford/RoundTrip.antt =====
-- Opening and writing of Rockford levels undo one another.
use libgamemaps.Prelude.{ℕ, ◌*◌, ◌<◌, ◌≡◌, refl, ◌∙◌, ap, some, List, length, arith}
use libgamemaps.Result.{ok}
use libgamemaps.Stream.{Streams, IsFresh}
use libgamemaps.Stream.Bytes.{AllBytes}
use libgamemaps.Stream.Write.{IsFresh-Holds}
use libgamemaps.Map2D.{Layer, Map2D}
use libgamemaps.Grid.{grid_items}
use libgamemaps.Grid.RoundTrip.{paint-grid_items}
use libgamemaps.Grid.View.{InGrid, tile_at, paint-reopens}
use libgamemaps.Format.{keep_all, keep_all_skips}
use libgamemaps.Format.Rockford.{
  map_width, map_height, default_bgtile, background_layer, open_map, write_map,
}
use libgamemaps.Format.Rockford.Map.{level, IsShaped, open_map-level, write_map-paint}

module _ (lib : Streams) where
  open lib use {Input, Output, contents, written}

  -- Every file of 880 bytes opens, and writing the map that it opens into, to a fresh stream,
  -- succeeds and gives the same bytes.
  pub write_map-open_map_rockford :
      (input : Input) (o : Output)
      → length (contents input) ≡ map_width * map_height
      → AllBytes (contents input)
      → IsFresh lib o
      → (m : Map2D) × (o' : Output) × (open_map lib input ≡ ok m)
        × (write_map lib (some m) o ≡ ok o')
        × (written o' ≡ contents input)
  unfolding background_layer
  write_map-open_map_rockford input o len bytes fresh =
      let codes = contents input in
      let (o', writes, h) =
        write_map-paint lib {m = level codes} codes o
          (record { one_layer = refl; width_fits = refl; height_fits = refl })
          (IsFresh-Holds lib fresh)
          (paint-grid_items 256 map_width map_height (omega arith) keep_all 0 (keep_all_skips 0)
            codes len bytes) in
      (level codes, o', open_map-level lib input len, writes, h.bytes_written)

  -- A map of one layer and 40 x 22 tiles whose items lie in the grid can be written to a fresh
  -- stream. Whatever file holds the bytes that were written opens, and at every cell its layer
  -- shows the code that the written layer shows there, reduced to a byte: that of the last item at
  -- the cell, or the default tile.
  pub open_map-write_map_rockford :
      (m : Map2D) (layer : Layer) (o : Output)
      → IsShaped m layer
      → InGrid map_width map_height layer.items
      → IsFresh lib o
      → (o' : Output) × (write_map lib (some m) o ≡ ok o')
        × ((input : Input)
            → contents input ≡ written o'
            → (codes : List ℕ) × (open_map lib input ≡ ok (level codes))
              × ((x y : ℕ)
                  → x < map_width
                  → y < map_height
                  → tile_at 256 default_bgtile (grid_items keep_all map_width 0 codes) x y
                    ≡ tile_at 256 default_bgtile layer.items x y))
  open_map-write_map_rockford m layer o shape inside fresh =
      let (bg, painted, len, small, shows) =
        paint-reopens 256 map_width (omega arith) keep_all default_bgtile
          (keep_all_skips default_bgtile) map_height layer.items (omega arith) inside in
      let (o', writes, h) = write_map-paint lib bg o shape (IsFresh-Holds lib fresh) painted in
      (
        o',
        writes,
        λ input same.
            let held : contents input ≡ bg = same ∙ h.bytes_written in
            (bg, rw (← held) (open_map-level lib input (ap length held ∙ len)), shows),
      )
