-- ===== src/Format/Hocus/Safety.antt =====
-- The assertion keeps every store of Hocus Pocus's `write` inside the array.
use libgamemaps.Prelude.{ℕ, ◌*◌, ◌≡◌, ◌⊎◌, List, length}
use libgamemaps.Result.{ok, assertion_failed}
use libgamemaps.Map2D.{Item}
use libgamemaps.Grid.Asserting.{paint_asserting, paint_asserting_lem}

module _ (w h : ℕ) where
  -- Whatever the items, painting them over an array of the grid's size either fails at the
  -- assertion or gives an array of that size: no store falls outside.
  pub paint_asserting_safe :
      (items : List Item) (tiles : List ℕ)
      → length tiles ≡ w * h
      → (paint_asserting 256 w h items tiles ≡ assertion_failed)
        ⊎ ((tiles' : List ℕ) × (paint_asserting 256 w h items tiles ≡ ok tiles')
            × (length tiles' ≡ w * h))
  paint_asserting_safe items tiles len = paint_asserting_lem 256 w h items tiles len
