-- ===== src/Grid.antt =====
-- The two loops that every tile-grid format has, and a write to a C array: the loop of `open` that
-- turns the bytes of a layer into items, and the loop of `write` that puts items into an array.
pub mod RoundTrip
pub mod View
pub mod Bounds
pub mod Words
pub mod Area
pub mod Over
pub mod Asserting
pub mod Padded
pub mod Rows
use libgamemaps.Prelude.{
  ℕ, zero, suc, ◌+◌, ◌*◌, ◌/◌, ◌%◌, ◌<◌, Bool, true, ◌||◌, List, [], ◌∷◌, length, set, replicate,
  ltb, ◌==◌, if◌then◌else◌,
}
use libgamemaps.Result.{Result, ok, throw, undefined, tile_outside_map, ◌>>=◌}
use libgamemaps.Map2D.{Item, default_item}

-- The loop from cell `i` on, where row `width` cells long start; `keep` says which codes become
-- items at all.
unfoldable pub grid_items : (ℕ → Bool) → ℕ → ℕ → List ℕ → List Item
grid_items keep width i [] = []
grid_items keep width i (code ∷ codes) =
    let items = grid_items keep width (i + 1) codes in
    if keep code then default_item (i % width) (i / width) code ∷ items else items

-- `bg[i] = v`: outside the array this is undefined behaviour.
unfoldable pub store : List ℕ → ℕ → ℕ → Result (List ℕ)
store bg i v = if ltb i (length bg) then ok (set bg i v) else undefined

-- The loop over the items in `write`, for cells of `2 ^ 8` or `2 ^ 16` values. The guard is the
-- source's `(x > width) || (y > height)`. The index is an unsigned int there,
-- and is taken as it is, which agrees where it is below 2 ^ 32, as for dimensions below 2 ^ 16.
unfoldable pub paint : ℕ → ℕ → ℕ → List Item → List ℕ → Result (List ℕ)
unfolding store
paint cell width height [] bg = ok bg
paint cell width height (item ∷ items) bg =
    if ltb width item.x || ltb height item.y then throw tile_outside_map else do
      bg' ← store bg (item.y * width + item.x) (item.code % cell)
      paint cell width height items bg'
