-- ===== src/Manager/Tests.antt =====
-- Tests of the manager, and instances of its theorems.
use libgamemaps.Prelude.{◌≡◌, refl, ◌↔◌, none, some}
use libgamemaps.Manager.{ccomic, type_info, get_map_code, find_code, get_map_type_by_code}
use libgamemaps.Manager.Lookup.{get_map_type_by_code_iff}

unknown_code : get_map_type_by_code "map-none" ≡ none
unfolding get_map_type_by_code find_code get_map_code type_info
unknown_code = refl

get_map_type_by_code_iff_example :
    (get_map_type_by_code "map-ccomic" ≡ some ccomic) ↔ (get_map_code ccomic ≡ "map-ccomic")
get_map_type_by_code_iff_example = get_map_type_by_code_iff "map-ccomic" ccomic
