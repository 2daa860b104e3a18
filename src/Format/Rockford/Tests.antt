-- ===== src/Format/Rockford/Tests.antt =====
-- Rockford levels in memory: runs, and the theorems at concrete inputs.
use libgamemaps.Prelude.{
  ℕ, ◌<◌, ◌≡◌, refl, some, List, [], ◌∷◌, length, replicate, All-replicate, get_elem?, arith,
}
use libgamemaps.Result.{ok}
use libgamemaps.Stream.Bytes.{IsByte}
use libgamemaps.Stream.Memory.{Source, Sink, memory, file, empty}
use libgamemaps.Map2D.{Item, Layer, Map2D, default_item, definitely_no, definitely_yes}
use libgamemaps.Grid.{grid_items}
use libgamemaps.Grid.View.{tile_at}
use libgamemaps.Format.{keep_all, valid_items_from}
use libgamemaps.Format.Rockford.{valid_items, valid_codes, is_instance, open_map, write_map}
use libgamemaps.Format.Rockford.Map.{level}
use libgamemaps.Format.Rockford.RoundTrip.{write_map-open_map_rockford, open_map-write_map_rockford}
use libgamemaps.Format.Rockford.Instance.{IsLevel, is_instance_decides_rockford}

abbrev bytes : List ℕ
bytes = replicate 880 7

-- Two items at one cell, the later on top.
abbrev pair : List Item
pair = default_item 3 1 9 ∷ default_item 3 1 260 ∷ []

abbrev layer_of : List Item → Layer
layer_of items = record {
  title = "Background";
  caps = 0;
  width = 0;
  height = 0;
  tile_width = 0;
  tile_height = 0;
  items = items;
  valid_items = [];
}

abbrev map_of : List Item → Map2D
map_of items = record (level []) { layers = layer_of items ∷ [] }

last_wins : tile_at 256 0 pair 3 1 ≡ 4
unfolding tile_at
last_wins = refl

listed : length valid_items ≡ 33
unfolding valid_items valid_items_from
listed = refl

-- The table has the code 0x38, and no valid item does: the list runs from 0 to 32.
last_valid : get_elem? valid_items 23 ≡ some (default_item 0 0 23)
unfolding valid_items valid_items_from
last_valid = refl

last_meant : get_elem? valid_codes 23 ≡ some 0x38
last_meant = refl

write_map-open_map_rockford_example :
    (m : Map2D) × (o : Sink) × (open_map memory (file bytes) ≡ ok m)
    × (write_map memory (some m) empty ≡ ok o)
    × (o.written ≡ bytes)
write_map-open_map_rockford_example =
    write_map-open_map_rockford memory (file bytes) empty refl
      (All-replicate IsByte 880 7 (omega arith))
      (record { nothing_written = refl; at_start = refl })

open_map-write_map_rockford_example :
    (o : Sink) × (write_map memory (some (map_of pair)) empty ≡ ok o)
    × ((input : Source)
        → input.contents ≡ o.written
        → (codes : List ℕ) × (open_map memory input ≡ ok (level codes))
          × ((x y : ℕ)
              → x < 40
              → y < 22
              → tile_at 256 0 (grid_items keep_all 40 0 codes) x y ≡ tile_at 256 0 pair x y))
open_map-write_map_rockford_example =
    open_map-write_map_rockford memory (map_of pair) (layer_of pair) empty
      (record { one_layer = refl; width_fits = refl; height_fits = refl }) (omega arith)
      (record { nothing_written = refl; at_start = refl })

is_instance_decides_rockford_example :
    (IsLevel bytes → is_instance memory (file bytes) ≡ ok definitely_yes)
    × (¬ IsLevel bytes → is_instance memory (file bytes) ≡ ok definitely_no)
is_instance_decides_rockford_example = is_instance_decides_rockford memory (file bytes)
