-- ===== src/Format/WordRescue.antt =====
-- src/fmt-map-wordresc.cpp: Word Rescue levels.
pub mod Rle
use libgamemaps.Prelude.{[], ◌∷◌}
use libgamemaps.Format.{MapTypeInfo}

abbrev pub info : MapTypeInfo
info = record {
  map_code = "map-wordresc";
  friendly_name = "Word Rescue level";
  file_extensions =
      "s0" ∷ "s1" ∷ "s2" ∷ "s3" ∷ "s4" ∷ "s5" ∷ "s6" ∷ "s7" ∷ "s8" ∷ "s9" ∷ "s10" ∷ "s11" ∷ "s12"
      ∷ "s13" ∷ "s14" ∷ "s15" ∷ "s16" ∷ "s17" ∷ "s18" ∷ "s19" ∷ [];
  game_list = "Word Rescue" ∷ [];
}
