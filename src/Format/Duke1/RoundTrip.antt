-- ===== src/Format/Duke1/RoundTrip.antt =====
-- Opening and writing of Duke Nukem 1 levels undo one another.
use libgamemaps.Prelude.{ℕ, ◌^◌, ◌<◌, ◌≡◌, refl, sym, ◌∙◌, some, List, length, arith}
use libgamemaps.Result.{ok}
use libgamemaps.Stream.{Streams, IsFresh}
use libgamemaps.Stream.Bytes.{AllBytes}
use libgamemaps.Stream.Write.{IsFresh-Holds}
use libgamemaps.Map2D.{Layer, Map2D}
use libgamemaps.Grid.{grid_items}
use libgamemaps.Grid.RoundTrip.{paint-grid_items}
use libgamemaps.Grid.View.{InGrid, tile_at, paint-reopens}
use libgamemaps.Grid.Words.{
  bytes_words, bytes_words-AllWords, length-bytes_words, words_bytes-bytes_words,
}
use libgamemaps.Format.{keep_other_than, keep_other_than_skips}
use libgamemaps.Format.Duke1.{
  map_width, map_height, layer_len, filesize, default_bgtile, background_layer, open_map, write_map,
}
use libgamemaps.Format.Duke1.Map.{level, IsShaped, open_map-level, write_map-paint}

module _ (lib : Streams) where
  open lib use {Input, Output, contents, written}

  -- Every file of 23040 bytes opens, and writing the map that it opens into, to a fresh stream,
  -- succeeds and gives the same bytes.
  pub write_map-open_map_duke1 :
      (input : Input) (o : Output)
      → length (contents input) ≡ filesize
      → AllBytes (contents input)
      → IsFresh lib o
      → (m : Map2D) × (o' : Output) × (open_map lib input ≡ ok m)
        × (write_map lib (some m) o ≡ ok o')
        × (written o' ≡ contents input)
  unfolding background_layer
  write_map-open_map_duke1 input o len bytes fresh =
      let codes = bytes_words (contents input) in
      let held = words_bytes-bytes_words layer_len (contents input) len bytes in
      let count = length-bytes_words layer_len (contents input) len in
      let small = bytes_words-AllWords (contents input) bytes in
      let (o', writes, h) =
        write_map-paint lib {m = level codes} codes o (record { one_layer = refl })
          (IsFresh-Holds lib fresh)
          (paint-grid_items (2 ^ 16) map_width map_height (omega arith)
            (keep_other_than default_bgtile) default_bgtile (keep_other_than_skips default_bgtile)
            codes count small) in
      (
        level codes,
        o',
        open_map-level lib input codes (sym held) small count,
        writes,
        h.bytes_written ∙ held,
      )

  -- A map of one layer whose items lie in the grid of 128 x 90 tiles can be written to a fresh
  -- stream. Whatever file holds the bytes that were written opens, and at every cell its layer
  -- shows the code that the written layer shows there, reduced to 16 bits: that of the last item
  -- at the cell, or the default tile.
  pub open_map-write_map_duke1 :
      (m : Map2D) (layer : Layer) (o : Output)
      → IsShaped m layer
      → InGrid map_width map_height layer.items
      → IsFresh lib o
      → (o' : Output) × (write_map lib (some m) o ≡ ok o')
        × ((input : Input)
            → contents input ≡ written o'
            → (codes : List ℕ) × (open_map lib input ≡ ok (level codes))
              × ((x y : ℕ)
                  → x < map_width
                  → y < map_height
                  → tile_at
                      (2 ^ 16)
                      default_bgtile
                      (grid_items (keep_other_than default_bgtile) map_width 0 codes)
                      x
                      y
                    ≡ tile_at (2 ^ 16) default_bgtile layer.items x y))
  open_map-write_map_duke1 m layer o shape inside fresh =
      let (bg, painted, len, small, shows) =
        paint-reopens (2 ^ 16) map_width (omega arith) (keep_other_than default_bgtile)
          default_bgtile (keep_other_than_skips default_bgtile) map_height layer.items (omega arith)
          inside in
      let (o', writes, h) = write_map-paint lib bg o shape (IsFresh-Holds lib fresh) painted in
      (
        o',
        writes,
        λ input same. (bg, open_map-level lib input bg (same ∙ h.bytes_written) small len, shows),
      )
