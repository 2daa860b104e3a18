-- ===== src/Format/CCaves.antt =====
-- src/fmt-map-ccaves.cpp: Crystal Caves levels.
use libgamemaps.Prelude.{[], ◌∷◌}
use libgamemaps.Format.{MapTypeInfo}

abbrev pub info : MapTypeInfo
info = record {
  map_code = "map-ccaves";
  friendly_name = "Crystal Caves level";
  file_extensions = "ccl" ∷ [];
  game_list = "Crystal Caves" ∷ [];
}
