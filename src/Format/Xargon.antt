-- ===== src/Format/Xargon.antt =====
-- src/fmt-map-xargon.cpp: Xargon maps.
use libgamemaps.Prelude.{◌*◌, [], ◌∷◌}
use libgamemaps.Format.{MapTypeInfo}
use libgamemaps.Format.Sweeney.{SweeneyType}

abbrev pub info : MapTypeInfo
info = record {
  map_code = "map-xargon";
  friendly_name = "Xargon map";
  file_extensions = "xr0" ∷ "xr1" ∷ "xr2" ∷ "xr3" ∷ [];
  game_list = "Xargon" ∷ [];
}

-- MapType_Xargon::MapType_Xargon()
abbrev pub format : SweeneyType
format = record { viewport_width = 20 * 16; viewport_height = 10 * 16; len_savedata = 97 }
