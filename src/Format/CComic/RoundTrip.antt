-- ===== src/Format/CComic/RoundTrip.antt =====
-- Opening and writing of Captain Comic levels undo one another, at every size.
use libgamemaps.Prelude.{ℕ, ◌*◌, ◌^◌, ◌<◌, ◌≡◌, refl, sym, ◌∙◌, some, List, length, arith}
use libgamemaps.Result.{ok}
use libgamemaps.Stream.{Streams, IsFresh}
use libgamemaps.Stream.Bytes.{AllBytes}
use libgamemaps.Stream.Write.{IsFresh-Holds}
use libgamemaps.Map2D.{Layer, Map2D}
use libgamemaps.Grid.{grid_items}
use libgamemaps.Grid.RoundTrip.{paint-grid_items}
use libgamemaps.Grid.View.{InGrid, tile_at, paint-reopens}
use libgamemaps.Format.{keep_all, keep_all_skips}
use libgamemaps.Format.CComic.{default_bgtile, background_layer, open_map, write_map}
use libgamemaps.Format.CComic.Map.{level, level_bytes, IsShaped, open_map-level, write_map-paint}

module _ (lib : Streams) where
  open lib use {Input, Output, contents, written}

  -- A file with a width and a height of at least 1 and that many bytes of codes opens, and writing
  -- the map that it opens into, to a fresh stream, gives the same bytes.
  pub write_map-open_map_ccomic :
      (input : Input) (o : Output) (w h : ℕ) (codes : List ℕ)
      → w < 2 ^ 16
      → h < 2 ^ 16
      → 0 < w
      → 0 < h
      → contents input ≡ level_bytes w h codes
      → length codes ≡ w * h
      → AllBytes codes
      → IsFresh lib o
      → (m : Map2D) × (o' : Output) × (open_map lib input ≡ ok m)
        × (write_map lib (some m) o ≡ ok o')
        × (written o' ≡ contents input)
  unfolding background_layer
  write_map-open_map_ccomic input o w h codes pw ph pos_w pos_h e len bytes fresh =
      let (o', writes, held) =
        write_map-paint lib {m = level w h codes} codes o
          (record { one_layer = refl; width_fits = pw; height_fits = ph }) (IsFresh-Holds lib fresh)
          (paint-grid_items 256 w h pos_w keep_all default_bgtile (keep_all_skips default_bgtile)
            codes len bytes) in
      (
        level w h codes,
        o',
        open_map-level lib input w h codes pw ph pos_w pos_h e len,
        writes,
        held.bytes_written ∙ sym e,
      )

  -- A map of one layer, of a size from 1 x 1 to 65535 x 65535, whose items lie in the grid can be
  -- written to a fresh stream. Whatever file holds the bytes that were written opens into a map of
  -- the same size, and at every cell its layer shows the code that the written layer shows there,
  -- reduced to a byte.
  pub open_map-write_map_ccomic :
      (m : Map2D) (layer : Layer) (o : Output)
      → IsShaped m layer
      → 0 < m.width
      → 0 < m.height
      → InGrid m.width m.height layer.items
      → IsFresh lib o
      → (o' : Output) × (write_map lib (some m) o ≡ ok o')
        × ((input : Input)
            → contents input ≡ written o'
            → (codes : List ℕ) × (open_map lib input ≡ ok (level m.width m.height codes))
              × ((x y : ℕ)
                  → x < m.width
                  → y < m.height
                  → tile_at 256 default_bgtile (grid_items keep_all m.width 0 codes) x y
                    ≡ tile_at 256 default_bgtile layer.items x y))
  open_map-write_map_ccomic m layer o shape pos_w pos_h inside fresh =
      let (bg, painted, len, small, shows) =
        paint-reopens 256 m.width pos_w keep_all default_bgtile (keep_all_skips default_bgtile)
          m.height layer.items (omega arith) inside in
      let (o', writes, h) = write_map-paint lib bg o shape (IsFresh-Holds lib fresh) painted in
      (
        o',
        writes,
        λ input same. (
          bg,
          open_map-level lib input m.width m.height bg shape.width_fits shape.height_fits pos_w
              pos_h (same ∙ h.bytes_written) len,
          shows,
        ),
      )
