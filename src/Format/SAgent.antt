-- ===== src/Format/SAgent.antt =====
-- src/fmt-map-sagent.cpp: Secret Agent levels and world maps.
use libgamemaps.Prelude.{Bool, [], ◌∷◌, if◌then◌else◌}
use libgamemaps.Format.{MapTypeInfo}

-- The class for the world maps differs from its base class in `isWorldMap()`.
abbrev pub info : Bool → MapTypeInfo
info is_world_map = record {
  map_code = if is_world_map then "map-sagent-world" else "map-sagent";
  friendly_name = if is_world_map then "Secret Agent world map" else "Secret Agent level";
  file_extensions = "sam" ∷ [];
  game_list = "Secret Agent" ∷ [];
}
