-- ===== src/Format/Hocus/RoundTrip.antt =====
-- A Hocus Pocus level that is opened and written gives the two files that it came from.
use libgamemaps.Prelude.{
  ℕ, ◌≡◌, refl, sym, ◌∙◌, ap, none, some, List, [], ◌∷◌, append-nil, length, replicate, arith,
}
use libgamemaps.Result.{ok}
use libgamemaps.Stream.{Streams, IsFresh}
use libgamemaps.Stream.Bytes.{AllBytes}
use libgamemaps.Stream.Read.{from_start}
use libgamemaps.Stream.Write.{Holds, IsFresh-Holds, Holds-write, Holds-flush, Holds-rewind}
use libgamemaps.Map2D.{Item, Map2D}
use libgamemaps.Map2D.MapCaps
use libgamemaps.Map2D.Generic.{new_map2d, get_map_size, get_layer_count, get_layer, cast_map2d}
use libgamemaps.Grid.{grid_items}
use libgamemaps.Format.{keep_other_than, keep_other_than_skips}
use libgamemaps.Format.Hocus.Cells.{map_width, map_height, default_tile_bg}
use libgamemaps.Grid.Asserting.{paint_asserting, paint_asserting-grid_items}
use libgamemaps.Grid.Rows.{read_rows, read_rows-grid_items}
use libgamemaps.Format.Hocus.{map_size, background_layer, supplied_file, open_map, write_map}

-- The items that a layer with these codes opens into.
abbrev pub layer_items : List ℕ → List Item
layer_items codes = grid_items (keep_other_than default_tile_bg) map_width 0 codes

abbrev pub level : List ℕ → List ℕ → Map2D
level bg fg = record {
  attributes = [];
  graphics_filenames = [];
  caps = MapCaps.has_viewport;
  viewport_x = 320;
  viewport_y = 160;
  width = map_width;
  height = map_height;
  tile_width = 16;
  tile_height = 16;
  layers =
      background_layer "Background" (layer_items bg)
      ∷ background_layer "Foreground" (layer_items fg)
      ∷ [];
  paths = none;
}

-- Painting a layer's items over the default code restores the layer.
paint_layer :
    (codes : List ℕ)
    → length codes ≡ map_size
    → AllBytes codes
    → paint_asserting 256 map_width map_height
        (layer_items codes)
        (replicate map_size default_tile_bg)
      ≡ ok codes
paint_layer codes len bytes =
    paint_asserting-grid_items 256 map_width map_height (keep_other_than default_tile_bg)
      default_tile_bg codes (omega arith) (keep_other_than_skips default_tile_bg) len bytes

module _ (lib : Streams) where
  open lib use {Input, Output, contents, rest, written, tell}

  read_layer :
      (s : Input) (codes : List ℕ)
      → length codes ≡ map_size
      → rest s ≡ codes
      → (s' : Input) × (read_rows lib default_tile_bg map_width map_height 0 s
          ≡ ok (layer_items codes, s'))
  read_layer s codes len e =
      let (s', reads, _) =
        read_rows-grid_items lib default_tile_bg map_width map_height codes [] 0 s len
          (e ∙ sym (append-nil codes)) in
      (s', reads)

  open_map-level :
      (input layer1 : Input) (bg fg : List ℕ)
      → contents input ≡ bg
      → rest layer1 ≡ fg
      → length bg ≡ map_size
      → length fg ≡ map_size
      → open_map lib input (some layer1) ≡ ok (level bg fg)
  unfolding open_map new_map2d supplied_file
  open_map-level input layer1 bg fg eb ef len_bg len_fg =
      let (s, runs, _, left) = from_start lib input in
      let (s', reads) = read_layer s bg len_bg (left ∙ eb) in
      let (s'', reads') = read_layer layer1 fg len_fg ef in rw (runs, reads, reads')

  write_map-level :
      (bg fg : List ℕ) (o o1 : Output)
      → length bg ≡ map_size
      → length fg ≡ map_size
      → AllBytes bg
      → AllBytes fg
      → Holds lib [] o
      → Holds lib [] o1
      → (o' o1' : Output) × (write_map lib (some (level bg fg)) o (some o1) ≡ ok (o', o1'))
        × Holds lib bg o'
        × Holds lib fg o1'
  unfolding write_map cast_map2d get_layer_count get_map_size get_layer supplied_file
      background_layer
  write_map-level bg fg o o1 len_bg len_fg bytes_bg bytes_fg fresh fresh1 =
      let (a, writes, h) = Holds-write lib bg fresh in
      let (b, flushes, h') = Holds-flush lib h in
      let (c, rewinds, k) = Holds-rewind lib fresh1 in
      let (d, writes', k') = Holds-write lib fg k in
      let (e, flushes', k'') = Holds-flush lib k' in
      let full : tell b ≡ 14400 = h'.at_end ∙ ap length h'.bytes_written ∙ len_bg in
      let full' : tell e ≡ 14400 = k''.at_end ∙ ap length k''.bytes_written ∙ len_fg in
      (
        b,
        e,
        rw (
          paint_layer bg len_bg bytes_bg,
          writes,
          flushes,
          full,
          paint_layer fg len_fg bytes_fg,
          rewinds,
          writes',
          flushes',
          full',
        ),
        h',
        k'',
      )

  -- A main file of 14400 bytes and a foreground file that stands at its start, of 14400 bytes too,
  -- open into a map, and writing that map to two fresh streams gives the bytes of both files.
  pub write_map-open_map_hocus :
      (input layer1 : Input) (o o1 : Output)
      → length (contents input) ≡ map_size
      → length (contents layer1) ≡ map_size
      → rest layer1 ≡ contents layer1
      → AllBytes (contents input)
      → AllBytes (contents layer1)
      → IsFresh lib o
      → IsFresh lib o1
      → (m : Map2D) × (o' o1' : Output) × (open_map lib input (some layer1) ≡ ok m)
        × (write_map lib (some m) o (some o1) ≡ ok (o', o1'))
        × (written o' ≡ contents input)
        × (written o1' ≡ contents layer1)
  write_map-open_map_hocus input layer1 o o1 len_bg len_fg start bytes_bg bytes_fg fresh fresh1 =
      let bg = contents input in
      let fg = contents layer1 in
      let (o', o1', writes, h, k) =
        write_map-level bg fg o o1 len_bg len_fg bytes_bg bytes_fg (IsFresh-Holds lib fresh)
          (IsFresh-Holds lib fresh1) in
      (
        level bg fg,
        o',
        o1',
        open_map-level input layer1 bg fg refl start len_bg len_fg,
        writes,
        h.bytes_written,
        k.bytes_written,
      )
