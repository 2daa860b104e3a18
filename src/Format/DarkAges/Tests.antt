-- ===== src/Format/DarkAges/Tests.antt =====
-- Dark Ages levels in memory: runs, and the theorems at concrete inputs.
use libgamemaps.Prelude.{
  false, ℕ, ◌+◌, ◌*◌, ◌≤◌, ◌⊎◌, ◌<◌, ◌≡◌, refl, none, some, true, replicate, All-replicate, arith,
}
use libgamemaps.Result.{ok}
use libgamemaps.Stream.Bytes.{IsByte}
use libgamemaps.Stream.Memory.{Sink, memory, file, empty}
use libgamemaps.Map2D.{Map2D, default_item, supplied}
use libgamemaps.Graphics.{Graphics, TilesetCollection}
use libgamemaps.Format.DarkAges.{open_map, write_map}
use libgamemaps.Format.DarkAges.Tiles.{tile_indices, image_from_code, image_from_code_found}
use libgamemaps.Format.DarkAges.RoundTrip.{write_map-open_map_darkages}

-- Each tileset has 60 entries, and an image is its index.
abbrev sixties : Graphics
sixties = record {
  Tileset = Unit;
  Image = ℕ;
  count = λ t. 60;
  open_image = λ t i. i;
  Palette = ℕ;
  is_empty_slot = λ t i. false;
  image_palette = λ img. none;
  tileset_palette = λ t. none;
  open_tileset = λ t i. tt;
  is_sub_tileset = λ t i. true;
}

abbrev collection : TilesetCollection sixties
collection purpose = some tt

indices_132 : tile_indices 132 ≡ (2, 10)
unfolding tile_indices
indices_132 = refl

image_from_code_found_example :
    (a b : ℕ) × (a ≤ 6)
    × (b ≤ 49)
    × ((115 < 100) ⊎ (144 ≤ 115) → a * 50 + b ≡ 115)
    × (image_from_code sixties (default_item 0 0 115) collection ≡ ok (supplied, some b))
image_from_code_found_example =
    image_from_code_found sixties (default_item 0 0 115) collection tt refl
      (record { seven = omega arith; first_there = λ i h. omega arith; fifty = λ i h. omega arith })
      (omega arith)

write_map-open_map_darkages_example :
    (m : Map2D) × (o : Sink) × (open_map memory (file (replicate 1152 200)) ≡ ok m)
    × (write_map memory (some m) empty ≡ ok o)
    × (o.written ≡ replicate 1152 200)
write_map-open_map_darkages_example =
    write_map-open_map_darkages memory (file (replicate 1152 200)) empty refl
      (All-replicate IsByte 1152 200 (omega arith))
      (record { nothing_written = refl; at_start = refl })
