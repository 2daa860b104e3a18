-- ===== src/Grid/Bounds.antt =====
-- The guard of the painting loop, `(x > width) || (y > height)`, against the array it protects.
use libgamemaps.Prelude.{
  ℕ, ◌+◌, ◌*◌, ◌%◌, ◌≤◌, ◌<◌, ◌≡◌, refl, ap, ◌∙◌, ◌⊎◌, List, [], ◌∷◌, ◌++◌, length, set, length-set,
  arith, le→ltb,
}
use libgamemaps.Result.{throw, undefined, tile_outside_map, ◌>>=◌}
use libgamemaps.Map2D.{Item, default_item}
use libgamemaps.Grid.{store, paint}
use libgamemaps.Grid.View.{InGrid, paint_step}

module _ (cell w h : ℕ) where
  -- Items in the grid are passed over, and leave an array of the same length.
  paint-append_InGrid :
      (front items : List Item) (bg : List ℕ)
      → InGrid w h front
      → length bg ≡ w * h
      → (bg' : List ℕ) × (length bg' ≡ w * h)
        × (paint cell w h (front ++ items) bg ≡ paint cell w h items bg')
  paint-append_InGrid [] items bg inside len = (bg, len, refl)
  paint-append_InGrid (item ∷ front) items bg ((p, q), inside) len =
      let (bg', len', e) =
        paint-append_InGrid front items (set bg (item.y * w + item.x) (item.code % cell)) inside
          (length-set bg (item.y * w + item.x) (item.code % cell) ∙ len) in
      (bg', len', paint_step cell w h item (front ++ items) bg p q len ∙ e)

  paint-guard :
      (item : Item) (items : List Item) (bg : List ℕ)
      → (w < item.x) ⊎ (h < item.y)
      → paint cell w h (item ∷ items) bg ≡ throw tile_outside_map
  unfolding paint
  paint-guard item items bg out = ground arith

  paint-overrun :
      (item : Item) (items : List Item) (bg : List ℕ)
      → item.x ≤ w
      → item.y ≤ h
      → w * h ≤ item.y * w + item.x
      → length bg ≡ w * h
      → paint cell w h (item ∷ items) bg ≡ undefined
  unfolding paint store
  paint-overrun item items bg p q over len =
      rw (
        le→ltb w item.x p,
        le→ltb h item.y q,
        le→ltb (item.y * w + item.x) (length bg) (omega arith),
      )

  -- A first offending item beyond the guard is reported as such.
  pub paint-outside :
      (front : List Item) (item : Item) (back : List Item) (bg : List ℕ)
      → InGrid w h front
      → (w < item.x) ⊎ (h < item.y)
      → length bg ≡ w * h
      → paint cell w h (front ++ item ∷ back) bg ≡ throw tile_outside_map
  paint-outside front item back bg inside out len =
      let (bg', len', e) = paint-append_InGrid front (item ∷ back) bg inside len in
      e ∙ paint-guard item back bg' out

  -- A first offending item on the row just below the grid passes the guard, and is written
  -- outside the array.
  pub paint-row_below :
      (front : List Item) (item : Item) (back : List Item) (bg : List ℕ)
      → InGrid w h front
      → item.x ≤ w
      → item.y ≡ h
      → length bg ≡ w * h
      → paint cell w h (front ++ item ∷ back) bg ≡ undefined
  paint-row_below front item back bg inside p q len =
      let (bg', len', e) = paint-append_InGrid front (item ∷ back) bg inside len in
      e ∙ paint-overrun item back bg' p (omega arith) (omega (arith, below)) len'
    where
      below : w * h ≤ item.y * w + item.x
      below = rw q (omega arith)

  -- An item one column right of the grid passes the guard too: it lands on the first cell of the
  -- row below.
  pub paint-column_right :
      (item : Item) (items : List Item) (bg : List ℕ)
      → item.x ≡ w
      → item.y + 1 < h
      → length bg ≡ w * h
      → paint cell w h (item ∷ items) bg
        ≡ paint cell w h (default_item 0 (item.y + 1) item.code ∷ items) bg
  unfolding paint
  paint-column_right item items bg p q len =
      rw
        (
          le→ltb w item.x (omega arith),
          le→ltb h item.y (omega arith),
          le→ltb w 0 (omega arith),
          le→ltb h (item.y + 1) (omega arith),
        )
        (ap (λ i. store bg i (item.code % cell) >>= (λ bg'. paint cell w h items bg'))
          {x = item.y * w + item.x} {y = (item.y + 1) * w + 0} (omega arith))
