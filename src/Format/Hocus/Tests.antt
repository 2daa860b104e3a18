-- ===== src/Format/Hocus/Tests.antt =====
-- Hocus Pocus levels in memory: the theorems at concrete inputs.
use libgamemaps.Prelude.{
  ℕ, ◌≡◌, refl, some, List, replicate, All-replicate, length-replicate, arith,
}
use libgamemaps.Result.{ok}
use libgamemaps.Stream.Bytes.{IsByte}
use libgamemaps.Stream.Memory.{Sink, memory, file, empty}
use libgamemaps.Map2D.{Map2D}
use libgamemaps.Format.Hocus.{open_map, write_map}
use libgamemaps.Format.Hocus.RoundTrip.{write_map-open_map_hocus}

abbrev background : List ℕ
background = replicate 14400 3

abbrev foreground : List ℕ
foreground = replicate 14400 255

write_map-open_map_hocus_example :
    (m : Map2D) × (o o1 : Sink) × (open_map memory (file background) (some (file foreground))
      ≡ ok m)
    × (write_map memory (some m) empty (some empty) ≡ ok (o, o1))
    × (o.written ≡ background)
    × (o1.written ≡ foreground)
write_map-open_map_hocus_example =
    write_map-open_map_hocus memory (file background) (file foreground) empty empty
      (length-replicate {A = ℕ} 14400 3) (length-replicate {A = ℕ} 14400 255) refl
      (All-replicate IsByte 14400 3 (omega arith)) (All-replicate IsByte 14400 255 (omega arith))
      (record { nothing_written = refl; at_start = refl })
      (record { nothing_written = refl; at_start = refl })
