-- ===== src/Format/Vinyl/Tests.antt =====
-- Vinyl Goddess From Mars levels in memory: the theorems at concrete inputs.
use libgamemaps.Prelude.{
  ℕ, ◌+◌, ◌*◌, ◌^◌, ◌≤◌, ◌<◌, ◌≡◌, ◌≢◌, refl, some, List, [], ◌∷◌, ◌++◌, length, length-replicate,
  get_elem?, replicate, All, All-replicate, arith,
}
use libgamemaps.Result.{ok}
use libgamemaps.Stream.Bytes.{words_bytes}
use libgamemaps.Stream.Memory.{Source, Sink, memory, file, empty}
use libgamemaps.Map2D.{Map2D, default_item, definitely_no, definitely_yes}
use libgamemaps.Grid.{grid_items}
use libgamemaps.Grid.View.{tile_at}
use libgamemaps.Grid.Words.{AllWords}
use libgamemaps.Format.{keep_all, keep_other_than}
use libgamemaps.Format.Vinyl.{
  default_tile_fg, vinyl_layer, clear_bytes, is_instance, open_map, write_map,
}
use libgamemaps.Format.Vinyl.Map.{level, level_bytes}
use libgamemaps.Format.Vinyl.RoundTrip.{
  IsHeap, write_map-open_map_vinyl, open_map-write_map_vinyl, write_map_leaks_vinyl,
}
use libgamemaps.Format.Vinyl.Instance.{is_instance_decides_vinyl}

abbrev bg : List ℕ
bg = 480 ∷ 2 ∷ 3 ∷ 4 ∷ []

abbrev fg : List ℕ
fg = 0 ∷ 9 ∷ 0 ∷ 255 ∷ []

-- Memory that holds 7 everywhere
abbrev sevens : ℕ → List ℕ
sevens n = replicate n 7

sevens-IsHeap : IsHeap sevens
sevens-IsHeap = record {
  sized = λ n. length-replicate n 7;
  words = λ n. All-replicate (λ v. v < 2 ^ 16) n 7 (omega arith);
}

write_map-open_map_vinyl_example :
    (m : Map2D) × (o : Sink) × (open_map memory (file (level_bytes 2 2 (words_bytes bg ++ fg)))
      ≡ ok m)
    × (write_map memory sevens (some m) empty ≡ ok o)
    × (o.written ≡ level_bytes 2 2 (words_bytes bg ++ fg))
write_map-open_map_vinyl_example =
    write_map-open_map_vinyl memory sevens (file (level_bytes 2 2 (words_bytes bg ++ fg))) empty 2 2
      bg fg sevens-IsHeap (omega arith) (omega arith) (omega arith) (omega arith) refl refl refl
      (omega arith) (omega arith) (record { nothing_written = refl; at_start = refl })

abbrev one_tile : Map2D
one_tile = record (level 2 2 [] []) {
  layers =
      vinyl_layer "Background" (default_item 1 0 300 ∷ []) []
      ∷ vinyl_layer "Foreground" (default_item 1 1 9 ∷ []) []
      ∷ [];
}

open_map-write_map_vinyl_example :
    (o : Sink) × (write_map memory sevens (some one_tile) empty ≡ ok o)
    × ((input : Source)
        → input.contents ≡ o.written
        → (bg fg : List ℕ) × (open_map memory input ≡ ok (level 2 2 bg fg))
          × ((x y : ℕ)
              → x < 2
              → y < 2
              → tile_at 256 0 (grid_items (keep_other_than 0) 2 0 fg) x y
                ≡ tile_at 256 0 (default_item 1 1 9 ∷ []) x y)
          × ((x y v : ℕ)
              → x < 2
              → y < 2
              → get_elem? (clear_bytes 4 (sevens 4)) (y * 2 + x) ≡ some v
              → tile_at (2 ^ 16) 0 (grid_items keep_all 2 0 bg) x y
                ≡ tile_at (2 ^ 16) v (default_item 1 0 300 ∷ []) x y))
unfolding vinyl_layer
open_map-write_map_vinyl_example =
    open_map-write_map_vinyl memory sevens one_tile
      (vinyl_layer "Background" (default_item 1 0 300 ∷ []) [])
      (vinyl_layer "Foreground" (default_item 1 1 9 ∷ []) []) empty sevens-IsHeap
      (record { two_layers = refl; width_fits = omega arith; height_fits = omega arith })
      (omega arith) (omega arith) (omega arith) (omega arith)
      (record { nothing_written = refl; at_start = refl })

abbrev no_tiles : Map2D
no_tiles = record (level 2 2 [] []) {
  layers =
      vinyl_layer "Background" [] [] ∷ vinyl_layer "Foreground" (default_item 1 1 9 ∷ []) [] ∷ [];
}

write_map_leaks_vinyl_example :
    (o : Sink) × (bg fg : List ℕ) × (write_map memory sevens (some no_tiles) empty ≡ ok o)
    × (o.written ≡ level_bytes 2 2 (words_bytes bg ++ fg))
    × ((i : ℕ) → 4 ≤ i * 2 → get_elem? bg i ≡ get_elem? (sevens 4) i)
    × ((x y : ℕ)
        → x < 2
        → y < 2
        → get_elem? fg (y * 2 + x)
          ≡ some (tile_at 256 default_tile_fg (default_item 1 1 9 ∷ []) x y))
unfolding vinyl_layer
write_map_leaks_vinyl_example =
    write_map_leaks_vinyl memory sevens no_tiles (vinyl_layer "Background" [] [])
      (vinyl_layer "Foreground" (default_item 1 1 9 ∷ []) []) empty
      (record { two_layers = refl; width_fits = omega arith; height_fits = omega arith }) refl
      (omega arith) (record { nothing_written = refl; at_start = refl })

is_instance_decides_vinyl_example :
    (length (level_bytes 2 2 (words_bytes bg ++ fg)) < 4
      → is_instance memory (file (level_bytes 2 2 (words_bytes bg ++ fg))) ≡ ok definitely_no)
    × ((w h : ℕ) (body : List ℕ)
        → w < 2 ^ 16
        → h < 2 ^ 16
        → level_bytes 2 2 (words_bytes bg ++ fg) ≡ level_bytes w h body
        → (length body ≢ w * h * 3
            → is_instance memory (file (level_bytes 2 2 (words_bytes bg ++ fg))) ≡ ok definitely_no)
          × ((words bytes : List ℕ)
              → body ≡ words_bytes words ++ bytes
              → AllWords words
              → length words ≡ w * h
              → length bytes ≡ w * h
              → w * h * 3 + 4 < 2 ^ 32
              → (All (λ c. c ≤ 481) words
                  → is_instance memory (file (level_bytes 2 2 (words_bytes bg ++ fg)))
                    ≡ ok definitely_yes)
                × (¬ All (λ c. c ≤ 481) words
                    → is_instance memory (file (level_bytes 2 2 (words_bytes bg ++ fg)))
                      ≡ ok definitely_no)))
is_instance_decides_vinyl_example =
    is_instance_decides_vinyl memory (file (level_bytes 2 2 (words_bytes bg ++ fg)))
