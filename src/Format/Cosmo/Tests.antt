-- ===== src/Format/Cosmo/Tests.antt =====
-- Cosmo levels in memory: the theorems at concrete inputs.
use libgamemaps.Prelude.{
  ℕ, ◌+◌, ◌*◌, ◌^◌, ◌<◌, ◌≤◌, ◌≡◌, ◌⊎◌, refl, true, false, ◌==◌, none, some, List, [], ◌∷◌, ◌++◌,
  length, replicate, length-replicate, arith,
}
use libgamemaps.Result.{ok, undefined}
use libgamemaps.Stream.Bytes.{words_bytes}
use libgamemaps.Stream.Memory.{Source, Sink, memory, file, empty}
use libgamemaps.Map2D.{Map2D, supplied, unknown, default_item, definitely_no, definitely_yes}
use libgamemaps.Grid.{grid_items}
use libgamemaps.Grid.View.{tile_at}
use libgamemaps.Format.{keep_other_than}
use libgamemaps.Format.Cosmo.Images.{actor_image_shows}
use libgamemaps.Graphics.{Graphics}
use libgamemaps.Format.Cosmo.{
  actor_image, layer_len_bg, num_tiles_bg, actor_layer, background_layer, is_instance, open_map,
  write_map,
}
use libgamemaps.Format.Cosmo.Flags.{attribute_flags-flag_attributes}
use libgamemaps.Format.Cosmo.Storing.{Actor, actor_items}
use libgamemaps.Format.Cosmo.Map.{level, level_words, IsShaped}
use libgamemaps.Format.Cosmo.RoundTrip.{write_map-open_map_cosmo, open_map-write_map_cosmo}
use libgamemaps.Format.Cosmo.Instance.{
  header_bytes, is_instance_decides_cosmo, open_map_divides_by_zero_cosmo,
}

-- A falling star and another actor.
abbrev actors : List Actor
actors = record { code = 295; x = 1; y = 0 } ∷ record { code = 40; x = 3; y = 2 } ∷ []

abbrev bg : List ℕ
bg = 0 ∷ 8 ∷ 16 ∷ 0 ∷ 24 ∷ []

abbrev input : Source
input = file (words_bytes (level_words 0x1234 4096 actors bg))

write_map-open_map_cosmo_example :
    (m : Map2D) × (o : Sink) × (open_map memory input ≡ ok m)
    × (write_map memory (some m) empty ≡ ok o)
    × (o.written ≡ input.contents ++ replicate (32763 * 2) 0)
write_map-open_map_cosmo_example =
    write_map-open_map_cosmo memory input empty 0x1234 4096 actors bg (omega arith) (omega arith)
      (omega arith) (omega arith) (omega arith) (omega arith) (omega arith) (omega arith) refl
      (record { nothing_written = refl; at_start = refl })

abbrev one_tile : Map2D
one_tile = record (level 0x1234 4096 actors []) {
  layers = background_layer (default_item 2 1 96 ∷ []) ∷ actor_layer (actor_items actors) ∷ [];
}

one_tile-IsShaped :
    IsShaped one_tile
      (background_layer (default_item 2 1 96 ∷ []))
      (actor_layer (actor_items actors))
      0x1234
      actors
unfolding actor_layer
one_tile-IsShaped = record {
  two_layers = refl;
  actors_shown = refl;
  actors_inside = omega arith;
  actors_fit = omega arith;
  flags_packed = attribute_flags-flag_attributes.0 0x1234 (omega arith);
}

open_map-write_map_cosmo_example :
    (o : Sink) × (write_map memory (some one_tile) empty ≡ ok o)
    × ((source : Source)
        → source.contents ≡ o.written
        → (codes : List ℕ) × (open_map memory source ≡ ok (level 0x1234 4096 actors codes))
          × ((x y : ℕ)
              → x < 4096
              → y < 8
              → y * 4096 + x < num_tiles_bg
              → tile_at (2 ^ 16) 0 (grid_items (keep_other_than 0) 4096 0 codes) x y
                ≡ tile_at (2 ^ 16) 0 (default_item 2 1 96 ∷ []) x y))
unfolding background_layer
open_map-write_map_cosmo_example =
    open_map-write_map_cosmo memory one_tile (background_layer (default_item 2 1 96 ∷ []))
      (actor_layer (actor_items actors)) 0x1234 actors empty one_tile-IsShaped (omega arith)
      (omega arith) (omega arith) (omega arith) (omega arith) (omega arith)
      (record { nothing_written = refl; at_start = refl })

open_map_divides_by_zero_cosmo_example :
    (is_instance memory (file (words_bytes (level_words 7 0 actors (replicate 32764 0))))
      ≡ ok definitely_yes)
    × (open_map memory (file (words_bytes (level_words 7 0 actors (replicate 32764 0))))
        ≡ undefined)
open_map_divides_by_zero_cosmo_example =
    open_map_divides_by_zero_cosmo memory
      (file (words_bytes (level_words 7 0 actors (replicate 32764 0)))) 7 actors (replicate 32764 0)
      (omega arith) (omega arith) (omega arith) (omega (arith, length-replicate {A = ℕ} 32764 0))
      refl

is_instance_decides_cosmo_example :
    (length input.contents < 6 + layer_len_bg → is_instance memory input ≡ ok definitely_no)
    × ((flags w ints : ℕ) (body : List ℕ)
        → w < 2 ^ 16
        → ints < 2 ^ 16
        → input.contents ≡ header_bytes flags w ints body
        → layer_len_bg ≤ length body
        → (w ≤ 512 → ints ≤ 1536 → is_instance memory input ≡ ok definitely_yes)
          × ((512 < w) ⊎ (1536 < ints) → is_instance memory input ≡ ok definitely_no))
is_instance_decides_cosmo_example = is_instance_decides_cosmo memory input

-- Five actors, of which the third has images; a tileset is known by its place.
abbrev five_actors : Graphics
five_actors = record {
  Tileset = ℕ;
  Image = ℕ × ℕ;
  count = λ t. 5;
  open_image = λ t i. (t, i);
  Palette = ℕ;
  is_empty_slot = λ t i. false;
  image_palette = λ img. none;
  tileset_palette = λ t. none;
  open_tileset = λ t i. i;
  is_sub_tileset = λ t i. i == 2;
}

actor_image_shows_example :
    ((found : ℕ) × (actor_image five_actors (default_item 0 0 32) (λ purpose. some 9)
        ≡ ok (supplied, some (found, 0)))
      × (1 ≤ found)
      × (found < 5)
      × ((found == 2) ≡ true)
      × ((k : ℕ) → 1 ≤ k → k < found → (k == 2) ≡ false)
      × (0 < 5))
    ⊎ ((actor_image five_actors (default_item 0 0 32) (λ purpose. some 9) ≡ ok (unknown, none))
        × ((found : ℕ)
            → 1 ≤ found
            → found < 5
            → (found == 2) ≡ true
            → ((k : ℕ) → 1 ≤ k → k < found → (k == 2) ≡ false)
            → five_actors.count found ≡ 0))
actor_image_shows_example =
    actor_image_shows five_actors (default_item 0 0 32) (λ purpose. some 9) 9 1 refl refl
      (omega arith)
