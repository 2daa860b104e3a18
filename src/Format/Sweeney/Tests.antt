-- ===== src/Format/Sweeney/Tests.antt =====
-- Maps of Jill of the Jungle in memory: the theorems at concrete inputs.
use libgamemaps.Prelude.{
  ◌+◌, ◌*◌, ◌^◌, ◌<◌, ◌≡◌, ◌≢◌, ℕ, refl, none, some, List, [], ◌∷◌, ◌++◌, map, length, arith,
}
use libgamemaps.Result.{ok, throw, text_cut, ◌>>=◌}
use libgamemaps.Stream.Memory.{
  Source, Sink, memory, file, empty, seek_get, skip, read_u8_from, read_u16le_from,
}
use libgamemaps.Stream.Write.{Holds}
use libgamemaps.Map2D.{Item, Map2D, default_item, text_item, movement, definitely_yes}
use libgamemaps.Grid.View.{tile_at}
use libgamemaps.Format.Jill.{format}
use libgamemaps.Format.Sweeney.{
  ImageMap, background_layer, object_layer, read_dma, is_instance, open_map, write_map,
}
use libgamemaps.Format.Sweeney.Objects.{catch_short_read, read_strings, write_strings}
use libgamemaps.Format.Sweeney.Objects.Storing.{reopened}
use libgamemaps.Format.Sweeney.Map.{level_map}
use libgamemaps.Format.Sweeney.Ends.{open_loops_end}
use libgamemaps.Format.Sweeney.Texts.{write_strings-text_cut}
use libgamemaps.Format.Sweeney.RoundTrip.{open_map-write_map_sweeney}

-- A second file of one entry, with a name of two characters.
abbrev dma : Source
dma = file (1 ∷ 0 ∷ 3 ∷ 5 ∷ 0 ∷ 0 ∷ 2 ∷ 65 ∷ 66 ∷ [])

open_loops_end_example :
    (read_dma memory 10 9 [] dma ≢ ok none)
    × (catch_short_read (read_strings memory 3 3 (file (0 ∷ 0 ∷ 0 ∷ []))) ≢ ok none)
open_loops_end_example = open_loops_end memory 9 3 [] dma (file (0 ∷ 0 ∷ 0 ∷ []))

read_dma_one :
    read_dma memory 10 9 [] dma ≡ ok (some (default_item 0 0 1 ∷ [], (1, 5 * 256 + 3) ∷ []))
unfolding read_dma read_u16le_from read_u8_from skip
read_dma_one = refl

-- An object with a text.
abbrev sign : Item
sign = record (default_item 8 8 0x133) { type = text_item; text_content = 72 ∷ 105 ∷ [] }

write_strings-text_cut_example :
    (o' : Sink) × (new : List ℕ) × (write_strings memory (sign ∷ []) empty ≡ ok o')
    × Holds memory ([] ++ new) o'
    × ((s : Source)
        → s.rest ≡ new
        → catch_short_read (read_strings memory (length new) (length new) s) ≡ throw text_cut)
write_strings-text_cut_example =
    write_strings-text_cut memory sign [] 72 (105 ∷ []) [] empty refl refl (omega arith)
      (omega arith) (omega arith) (record { bytes_written = refl; at_end = refl })

-- Two tiles, one above the other, and an object that moves.
abbrev tiles : List Item
tiles = default_item 5 6 7 ∷ default_item 5 6 0x1401 ∷ []

abbrev objects : List Item
objects = record (default_item 300 200 0x133) { type = movement; movement_speed_x = 2 } ∷ []

abbrev small_map : Map2D
small_map = level_map format [] tiles objects

open_map-write_map_sweeney_example :
    (o' : Sink) × (write_map memory format (some small_map) empty ≡ ok o')
    × ((input dma : Source) (valid : List Item) (img_map : ImageMap)
        → input.contents ≡ o'.written
        → (seek_get 0 dma >>= read_dma memory (length dma.contents + 1) (length dma.contents) [])
          ≡ ok (some (valid, img_map))
        → (items : List Item) × (is_instance memory format input ≡ ok definitely_yes)
          × (open_map memory format input (some dma)
              ≡ ok (level_map format valid items (map reopened objects), img_map))
          × ((x y : ℕ)
              → x < 128
              → y < 64
              → tile_at (2 ^ 16) 0 items x y ≡ tile_at (2 ^ 16) 0 tiles x y))
unfolding object_layer background_layer
open_map-write_map_sweeney_example =
    open_map-write_map_sweeney memory format small_map (background_layer tiles [])
      (object_layer objects) empty
      (record {
        two_layers = refl;
        count_fits = omega arith;
        all_storable = (
          record {
            code_fits = omega arith;
            x_fits = omega arith;
            y_fits = omega arith;
            speed_x_fits = omega arith;
            speed_y_fits = omega arith;
            no_text = refl;
          },
          tt,
        );
      })
      (omega arith) (omega arith) (record { nothing_written = refl; at_start = refl })
