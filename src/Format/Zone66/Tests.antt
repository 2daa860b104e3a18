-- ===== src/Format/Zone66/Tests.antt =====
-- Zone 66 levels: the theorem at a concrete input.
use libgamemaps.Prelude.{
  ℕ, ◌+◌, ◌*◌, ◌<◌, ◌≡◌, ◌⊎◌, refl, Option, List, [], ◌∷◌, replicate, length-replicate, arith,
}
use libgamemaps.Result.{ok, throw, too_many_unique}
use libgamemaps.Map2D.{Item, default_item}
use libgamemaps.Format.Zone66.Mapping.{map_width, Mapping, put_tiles}
use libgamemaps.Format.Zone66.Shown.{last_code, Shows, IsMapping, RunsOut, put_tiles-Shows}

abbrev items : List Item
items = default_item 1 2 70 ∷ default_item 3 0 12 ∷ default_item 1 2 12 ∷ []

abbrev start : Mapping
start = record { map_bg = []; bg = replicate 65536 0 }

start-IsMapping : IsMapping start
start-IsMapping = record {
  pairs = 0;
  even = refl;
  fits = omega arith;
  sized = length-replicate {A = ℕ} 65536 0;
}

put_tiles-Shows_example :
    ((put_tiles items start ≡ throw too_many_unique) × RunsOut items start)
    ⊎ ((s : Mapping) × (put_tiles items start ≡ ok s)
        × IsMapping s
        × ((x y : ℕ) (before : Option ℕ)
            → x < map_width
            → Shows start (y * map_width + x) before
            → Shows s (y * map_width + x) (last_code before items x y)))
put_tiles-Shows_example = put_tiles-Shows items start (omega arith) start-IsMapping
