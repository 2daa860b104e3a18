-- ===== src/Format/Bash.antt =====
-- src/fmt-map-bash.cpp: Monster Bash levels.
use libgamemaps.Prelude.{[], ◌∷◌}
use libgamemaps.Format.{MapTypeInfo}

abbrev pub info : MapTypeInfo
info = record {
  map_code = "map-bash";
  friendly_name = "Monster Bash level";
  file_extensions = "mif" ∷ [];
  game_list = "Monster Bash" ∷ [];
}
