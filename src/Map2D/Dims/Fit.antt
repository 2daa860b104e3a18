-- ===== src/Map2D/Dims/Fit.antt =====
-- What the conversion from the map's tiles to a layer's own tiles gives, in src/util.cpp.
use libgamemaps.Prelude.{ℕ, ◌+◌, ◌*◌, ◌/◌, ◌^◌, ◌≤◌, ◌<◌, ◌≡◌, refl, sym, subst, true, false, arith}
use native.Mathlib.Nat.{div-add-mod', mod-lt, mod-eq_of_lt}
use libgamemaps.Result.{ok}
use libgamemaps.Map2D.{Layer, Map2D}
use libgamemaps.Map2D.Caps.{has}
use libgamemaps.Map2D.LayerCaps
use libgamemaps.Map2D.Generic
use libgamemaps.Map2D.LayerState
use libgamemaps.Map2D.Dims.{LayerDims, convert, get_layer_dims}

-- `count` tiles of size `tile` fit in `pixels` pixels and one more does not.
abbrev pub FitsExactly : ℕ → ℕ → ℕ → Type 0
FitsExactly count tile pixels = (count * tile ≤ pixels) × (pixels < (count + 1) * tile)

divides : (x tile : ℕ) → 0 < tile → FitsExactly (x / tile) tile x
divides x tile p = let e = div-add-mod' x tile in let r = mod-lt x p in (omega arith, omega arith)

convert-FitsExactly :
    (size global tile : ℕ)
    → 0 < tile
    → size * global < 2 ^ 32
    → FitsExactly (convert size global tile) tile (size * global)
convert-FitsExactly size global tile p h =
    subst (λ q. FitsExactly (q / tile) tile (size * global)) (sym (mod-eq_of_lt h))
      (divides (size * global) tile p)

pub get_layer_dims-convert :
    (m : Map2D) (l : Layer)
    → has l.caps LayerCaps.has_own_size ≡ false
    → has l.caps LayerCaps.has_own_tile_size ≡ true
    → 0 < l.tile_width
    → 0 < l.tile_height
    → get_layer_dims m l
      ≡ ok (record {
        layer_width = convert m.width m.tile_width l.tile_width;
        layer_height = convert m.height m.tile_height l.tile_height;
        tile_width = l.tile_width;
        tile_height = l.tile_height;
      })
unfolding get_layer_dims LayerState.get_tile_size LayerState.get_layer_size Generic.get_tile_size
    Generic.get_map_size
get_layer_dims-convert m l no_size own_tiles w h = ground arith

-- For a layer with a tile size of its own, not zero, and no size of its own, on a map whose size in
-- pixels fits 32 bits both ways: getLayerDims returns the layer's tile size and, in each
-- direction, the largest number of those tiles whose pixels the map's pixels hold.
pub get_layer_dims-FitsExactly :
    (m : Map2D) (l : Layer)
    → has l.caps LayerCaps.has_own_size ≡ false
    → has l.caps LayerCaps.has_own_tile_size ≡ true
    → 0 < l.tile_width
    → 0 < l.tile_height
    → m.width * m.tile_width < 2 ^ 32
    → m.height * m.tile_height < 2 ^ 32
    → (d : LayerDims) × (get_layer_dims m l ≡ ok d)
      × (d.tile_width ≡ l.tile_width)
      × (d.tile_height ≡ l.tile_height)
      × FitsExactly d.layer_width l.tile_width (m.width * m.tile_width)
      × FitsExactly d.layer_height l.tile_height (m.height * m.tile_height)
get_layer_dims-FitsExactly m l no_size own_tiles w h small_w small_h = (
  _,
  get_layer_dims-convert m l no_size own_tiles w h,
  refl,
  refl,
  convert-FitsExactly m.width m.tile_width l.tile_width w small_w,
  convert-FitsExactly m.height m.tile_height l.tile_height h small_h,
)
