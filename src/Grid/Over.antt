-- ===== src/Grid/Over.antt =====
-- Painting over an array of any contents, for the formats that do not fill it first.
use libgamemaps.Prelude.{ℕ, ◌+◌, ◌*◌, ◌<◌, ◌≡◌, some, Bool, false, List, All, length, get_elem?}
use libgamemaps.Result.{ok}
use libgamemaps.Map2D.{Item}
use libgamemaps.Grid.{grid_items, paint}
use libgamemaps.Grid.View.{tile_at, InGrid, paint-tile_at, tile_at-grid_items}

module _ (cell w h : ℕ) (pos : 0 < w) (keep : ℕ → Bool) (d : ℕ)
    (skipped : (c : ℕ) → keep c ≡ false → c ≡ d) where
  -- Items that lie in the grid can be painted, and the grid of the result shows what they show
  -- above what the array held.
  pub paint-shows_over :
      (items : List Item) (old : List ℕ)
      → 0 < cell
      → InGrid w h items
      → length old ≡ w * h
      → All (λ c. c < cell) old
      → (bg : List ℕ) × (paint cell w h items old ≡ ok bg)
        × (length bg ≡ w * h)
        × All (λ c. c < cell) bg
        × ((x y v : ℕ)
            → x < w
            → y < h
            → get_elem? old (y * w + x) ≡ some v
            → tile_at cell d (grid_items keep w 0 bg) x y ≡ tile_at cell v items x y)
  paint-shows_over items old big inside len small =
      let (bg, painted, len', small', shows) =
        paint-tile_at cell w h items old big inside len small in
      (
        bg,
        painted,
        len',
        small',
        λ x y v p q held.
            tile_at-grid_items cell w pos keep d skipped bg x y _ p small' (shows x y v p q held),
      )
