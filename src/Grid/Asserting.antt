-- ===== src/Grid/Asserting.antt =====
-- Painting with an assertion in place of the guard: src/fmt-map-hocus.cpp, src/fmt-map-cosmo.cpp.
use libgamemaps.Prelude.{
  ℕ, ◌+◌, ◌*◌, ◌%◌, ◌≤◌, ◌<◌, ◌≡◌, refl, sym, ◌∙◌, ◌⊎◌, inl, inr, Bool, false, ◌&&◌, All, replicate,
  length-replicate, List, [], ◌∷◌, length, set, length-set, arith, ltb, lt→ltb, Bool-cases,
}
use native.Mathlib.Nat.{mod-lt}
use libgamemaps.Result.{Result, ok, assert, assertion_failed, ◌>>=◌, ◌>>◌}
use libgamemaps.Map2D.{Item}
use libgamemaps.Grid.{grid_items, store, paint}
use libgamemaps.Grid.RoundTrip.{cell_row, paint-grid_items}
use libgamemaps.Grid.View.{InGrid, cell_lt, paint_step, grid_items_kept, grid_items_skipped}

-- The loop over the items of a layer in `write`, with its assertion, for cells of `cell` values.
unfoldable pub paint_asserting : ℕ → ℕ → ℕ → List Item → List ℕ → Result (List ℕ)
paint_asserting cell width height [] tiles = ok tiles
paint_asserting cell width height (item ∷ items) tiles = do
  assert (ltb item.x width && ltb item.y height)
  tiles' ← store tiles (item.y * width + item.x) (item.code % cell)
  paint_asserting cell width height items tiles'

module _ (cell w h : ℕ) where
  assert_step :
      (item : Item) (items : List Item) (tiles : List ℕ)
      → item.x < w
      → item.y < h
      → length tiles ≡ w * h
      → paint_asserting cell w h (item ∷ items) tiles
        ≡ paint_asserting cell w h items (set tiles (item.y * w + item.x) (item.code % cell))
  unfolding paint_asserting store
  assert_step item items tiles p q len = rw (
    lt→ltb item.x w p,
    lt→ltb item.y h q,
    lt→ltb (item.y * w + item.x) (length tiles) (omega (arith, cell_lt item.x item.y w h p q)),
  )

  -- Items in the grid are painted as everywhere.
  pub paint_asserting-InGrid :
      (items : List Item) (tiles : List ℕ)
      → InGrid w h items
      → length tiles ≡ w * h
      → paint_asserting cell w h items tiles ≡ paint cell w h items tiles
  paint_asserting-InGrid [] tiles inside len = unfold paint_asserting paint in refl
  paint_asserting-InGrid (item ∷ items) tiles ((p, q), inside) len =
      assert_step item items tiles p q len
      ∙ paint_asserting-InGrid items _ inside (length-set tiles _ _ ∙ len)
      ∙ sym (paint_step cell w h item items tiles p q len)

  -- The assertion fails, or every store falls inside the array.
  pub paint_asserting_lem :
      (items : List Item) (tiles : List ℕ)
      → length tiles ≡ w * h
      → (paint_asserting cell w h items tiles ≡ assertion_failed)
        ⊎ ((tiles' : List ℕ) × (paint_asserting cell w h items tiles ≡ ok tiles')
            × (length tiles' ≡ w * h))
  paint_asserting_lem [] tiles len = inr (tiles, unfold paint_asserting in refl, len)
  paint_asserting_lem (item ∷ items) tiles len = elim (Bool-cases (ltb item.x w && ltb item.y h)) [
    | inr out ↦ inl (unfold paint_asserting in rw out)
    | inl inside ↦
        let p : item.x < w = ground arith in
        let q : item.y < h = ground arith in
        rw (assert_step item items tiles p q len)
          (paint_asserting_lem items _ (length-set tiles _ _ ∙ len))
  ]

-- The items of a grid lie in it.
pub grid_items-InGrid :
    (keep : ℕ → Bool) (w h i : ℕ) (codes : List ℕ)
    → 0 < w
    → i + length codes ≤ w * h
    → InGrid w h (grid_items keep w i codes)
grid_items-InGrid keep w h i [] pos le = unfold grid_items in tt
grid_items-InGrid keep w h i (c ∷ codes) pos le =
    let later = grid_items-InGrid keep w h (i + 1) codes pos (omega arith) in
    elim (Bool-cases (keep c)) [
      | inl kept ↦
          rw (grid_items_kept keep w i c codes kept)
            ((mod-lt i pos, cell_row i w h pos (omega arith)), later)
      | inr dropped ↦ rw (grid_items_skipped keep w i c codes dropped) later
    ]

-- Painting the items of a whole grid over the default code restores it.
pub paint_asserting-grid_items :
    (cell w h : ℕ) (keep : ℕ → Bool) (d : ℕ) (codes : List ℕ)
    → 0 < w
    → ((c : ℕ) → keep c ≡ false → c ≡ d)
    → length codes ≡ w * h
    → All (λ c. c < cell) codes
    → paint_asserting cell w h (grid_items keep w 0 codes) (replicate (w * h) d) ≡ ok codes
paint_asserting-grid_items cell w h keep d codes pos skipped len small =
    paint_asserting-InGrid cell w h (grid_items keep w 0 codes) _
      (grid_items-InGrid keep w h 0 codes pos (omega arith)) (length-replicate (w * h) d)
    ∙ paint-grid_items cell w h pos keep d skipped codes len small
