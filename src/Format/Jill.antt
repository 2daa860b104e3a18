-- ===== src/Format/Jill.antt =====
-- src/fmt-map-xargon.cpp: Jill of the Jungle maps.
use libgamemaps.Prelude.{[], ◌∷◌}
use libgamemaps.Format.{MapTypeInfo}
use libgamemaps.Format.Sweeney.{SweeneyType}

abbrev pub info : MapTypeInfo
info = record {
  map_code = "map-jill";
  friendly_name = "Jill of the Jungle map";
  file_extensions = "jn1" ∷ "jn2" ∷ "jn3" ∷ [];
  game_list = "Jill of the Jungle" ∷ [];
}

-- MapType_Jill::MapType_Jill()
abbrev pub format : SweeneyType
format = record { viewport_width = 232; viewport_height = 160; len_savedata = 70 }
