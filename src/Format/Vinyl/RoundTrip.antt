-- ===== src/Format/Vinyl/RoundTrip.antt =====
-- Opening and writing of Vinyl Goddess From Mars levels, whatever the memory held that `write`
-- does not clear.
use libgamemaps.Prelude.{
  ℕ, ◌+◌, ◌*◌, ◌^◌, ◌≤◌, ◌<◌, ◌≡◌, refl, sym, ◌∙◌, some, List, [], ◌++◌, length, get_elem?,
  get_elem?-replicate, replicate, length-replicate, All-replicate, arith,
}
use libgamemaps.Result.{ok}
use libgamemaps.Stream.{Streams, IsFresh}
use libgamemaps.Stream.Bytes.{AllBytes, words_bytes}
use libgamemaps.Stream.Write.{IsFresh-Holds}
use libgamemaps.Map2D.{Layer, Map2D}
use libgamemaps.Grid.{grid_items, paint}
use libgamemaps.Grid.RoundTrip.{paint-grid_items, paint-every_cell}
use libgamemaps.Grid.View.{InGrid, tile_at, cell_lt, paint-tile_at, paint-reopens}
use libgamemaps.Grid.Over.{paint-shows_over}
use libgamemaps.Grid.Words.{AllWords}
use libgamemaps.Format.{keep_all, keep_all_skips, keep_other_than, keep_other_than_skips}
use libgamemaps.Format.Vinyl.{default_tile_fg, vinyl_layer, clear_bytes, open_map, write_map}
use libgamemaps.Format.Vinyl.Map.{
  level, level_bytes, IsShaped, length-clear_bytes, clear_bytes-AllWords, clear_bytes_beyond,
  open_map-level, write_map-paint,
}

-- A new array has its length, and words in it.
pub record IsHeap (heap : ℕ → List ℕ) : Type 0 where
  pub sized : (n : ℕ) → length (heap n) ≡ n
  pub words : (n : ℕ) → AllWords (heap n)

module _ (lib : Streams) where
  open lib use {Input, Output, contents, written}

  -- A file with a width and a height of at least 1, that many words and that many bytes opens, and
  -- writing the map that it opens into, to a fresh stream, gives the same bytes, whatever the
  -- memory held.
  pub write_map-open_map_vinyl :
      (heap : ℕ → List ℕ) (input : Input) (o : Output) (w h : ℕ) (bg fg : List ℕ)
      → IsHeap heap
      → w < 2 ^ 16
      → h < 2 ^ 16
      → 0 < w
      → 0 < h
      → contents input ≡ level_bytes w h (words_bytes bg ++ fg)
      → length bg ≡ w * h
      → length fg ≡ w * h
      → AllWords bg
      → AllBytes fg
      → IsFresh lib o
      → (m : Map2D) × (o' : Output) × (open_map lib input ≡ ok m)
        × (write_map lib heap (some m) o ≡ ok o')
        × (written o' ≡ contents input)
  unfolding vinyl_layer
  write_map-open_map_vinyl heap input o w h bg fg mem pw ph pos_w pos_h e len len' words bytes
        fresh =
      let (o', writes, held) =
        write_map-paint lib {m = level w h bg fg} heap bg fg o
          (record { two_layers = refl; width_fits = pw; height_fits = ph })
          (IsFresh-Holds lib fresh)
          (paint-every_cell (2 ^ 16) w h pos_w keep_all bg _ (λ c. refl) len
            (length-clear_bytes (w * h) (heap (w * h)) ∙ mem.sized (w * h)) words)
          (paint-grid_items 256 w h pos_w (keep_other_than default_tile_fg) default_tile_fg
            (keep_other_than_skips default_tile_fg) fg len' bytes) in
      (
        level w h bg fg,
        o',
        open_map-level lib input w h bg fg pw ph pos_w pos_h e words len len',
        writes,
        held.bytes_written ∙ sym e,
      )

  -- A map of two layers, of a size from 1 x 1 to 65535 x 65535, whose items lie in the grid can be
  -- written to a fresh stream. Whatever file holds the bytes that were written opens into a map of
  -- the same size. At every cell its foreground shows the code that the written foreground shows
  -- there, reduced to a byte; and its background the code of the last item of the written
  -- background there, reduced to 16 bits, or where there is none, what the array held at that cell
  -- after `write` had cleared its first bytes.
  pub open_map-write_map_vinyl :
      (heap : ℕ → List ℕ) (m : Map2D) (bg_layer fg_layer : Layer) (o : Output)
      → IsHeap heap
      → IsShaped m bg_layer fg_layer
      → 0 < m.width
      → 0 < m.height
      → InGrid m.width m.height bg_layer.items
      → InGrid m.width m.height fg_layer.items
      → IsFresh lib o
      → (o' : Output) × (write_map lib heap (some m) o ≡ ok o')
        × ((input : Input)
            → contents input ≡ written o'
            → (bg fg : List ℕ) × (open_map lib input ≡ ok (level m.width m.height bg fg))
              × ((x y : ℕ)
                  → x < m.width
                  → y < m.height
                  → tile_at 256 default_tile_fg
                      (grid_items (keep_other_than default_tile_fg) m.width 0 fg)
                      x
                      y
                    ≡ tile_at 256 default_tile_fg fg_layer.items x y)
              × ((x y v : ℕ)
                  → x < m.width
                  → y < m.height
                  → get_elem?
                      (clear_bytes (m.width * m.height) (heap (m.width * m.height)))
                      (y * m.width + x)
                    ≡ some v
                  → tile_at (2 ^ 16) 0 (grid_items keep_all m.width 0 bg) x y
                    ≡ tile_at (2 ^ 16) v bg_layer.items x y))
  open_map-write_map_vinyl heap m bg_layer fg_layer o mem shape pos_w pos_h inside inside' fresh =
      let n = m.width * m.height in
      let (bg, painted, len, small, shows) =
        paint-shows_over (2 ^ 16) m.width m.height pos_w keep_all 0 (keep_all_skips 0)
          bg_layer.items (clear_bytes n (heap n)) (omega arith) inside
          (length-clear_bytes n (heap n) ∙ mem.sized n)
          (clear_bytes-AllWords n (heap n) (mem.words n)) in
      let (fg, painted', len', small', shows') =
        paint-reopens 256 m.width pos_w (keep_other_than default_tile_fg) default_tile_fg
          (keep_other_than_skips default_tile_fg) m.height fg_layer.items (omega arith) inside' in
      let (o', writes, held) =
        write_map-paint lib heap bg fg o shape (IsFresh-Holds lib fresh) painted painted' in
      (
        o',
        writes,
        λ input same. (
          bg,
          fg,
          open_map-level lib input m.width m.height bg fg shape.width_fits shape.height_fits pos_w
              pos_h (same ∙ held.bytes_written) small len len',
          shows',
          shows,
        ),
      )

  -- A map of two layers, of a size up to 65535 x 65535, whose background has no items and whose
  -- foreground has items in the grid only, is written to a fresh stream. Every word of the second
  -- half of the background in the file is what the memory held: `write` clears as many bytes as there
  -- are cells, and a cell has two. At every cell the foreground in the file has the code that the
  -- written one shows there, reduced to a byte.
  pub write_map_leaks_vinyl :
      (heap : ℕ → List ℕ) (m : Map2D) (bg_layer fg_layer : Layer) (o : Output)
      → IsShaped m bg_layer fg_layer
      → bg_layer.items ≡ []
      → InGrid m.width m.height fg_layer.items
      → IsFresh lib o
      → (o' : Output) × (bg fg : List ℕ) × (write_map lib heap (some m) o ≡ ok o')
        × (written o' ≡ level_bytes m.width m.height (words_bytes bg ++ fg))
        × ((i : ℕ)
            → m.width * m.height ≤ i * 2
            → get_elem? bg i ≡ get_elem? (heap (m.width * m.height)) i)
        × ((x y : ℕ)
            → x < m.width
            → y < m.height
            → get_elem? fg (y * m.width + x)
              ≡ some (tile_at 256 default_tile_fg fg_layer.items x y))
  unfolding paint
  write_map_leaks_vinyl heap m bg_layer fg_layer o shape none_bg inside fresh =
      let n = m.width * m.height in
      let (fg, painted, _, _, shows) =
        paint-tile_at 256 m.width m.height fg_layer.items (replicate n default_tile_fg)
          (omega arith) inside (length-replicate n default_tile_fg)
          (All-replicate (λ c. c < 256) n default_tile_fg (omega arith)) in
      let (o', writes, held) =
        write_map-paint lib heap (clear_bytes n (heap n)) fg o shape (IsFresh-Holds lib fresh)
          (rw none_bg) painted in
      (
        o',
        clear_bytes n (heap n),
        fg,
        writes,
        held.bytes_written,
        λ i beyond. clear_bytes_beyond n i (heap n) beyond,
        λ x y p q. shows x y default_tile_fg p q (
            get_elem?-replicate n (y * m.width + x) default_tile_fg
              (cell_lt x y m.width m.height p q)),
      )
