-- ===== src/Grid/RoundTrip.antt =====
-- Painting the items of a grid restores the grid.
use libgamemaps.Prelude.{
  ℕ, ◌+◌, ◌*◌, ◌/◌, ◌%◌, ◌≤◌, ◌<◌, ◌≡◌, refl, ◌∙◌, subst, Bool, true, false, List, [], ◌∷◌, ◌++◌,
  All, length, replicate, length-append, set-append_length, append_assoc, arith, lt→ltb, le→ltb,
  Bool-cases, inl, inr,
}
use libgamemaps.Result.{ok}
use libgamemaps.Map2D.{Item, default_item}
use libgamemaps.Grid.{grid_items, store, paint}
use native.Mathlib.Nat.{div-add-mod', mod-lt, mod-eq_of_lt, div-lt_iff_lt-mul, mul_comm}

-- A cell of the grid has its column below the width and its row below the height.
pub cell_row : (i w h : ℕ) → 0 < w → i < w * h → i / w < h
cell_row i w h pos lt = (div-lt_iff_lt-mul pos).1 (rw (mul_comm h w) lt)

pub store-append :
    (front : List ℕ) (d v : ℕ) (back : List ℕ)
    → store (front ++ d ∷ back) (length front) v ≡ ok (front ++ v ∷ back)
unfolding store
store-append front d v back = rw (
  lt→ltb (length front) (length (front ++ d ∷ back))
      (omega (arith, length-append front (d ∷ back))),
  set-append_length front d back v,
)

module _ (cell w h : ℕ) (pos : 0 < w) where
  -- An item of the grid is painted over its own cell.
  paint_cell :
      (i code d : ℕ) (front back : List ℕ) (items : List Item)
      → code < cell
      → length front ≡ i
      → i < w * h
      → paint cell w h (default_item (i % w) (i / w) code ∷ items) (front ++ d ∷ back)
        ≡ paint cell w h items (front ++ code ∷ back)
  unfolding paint
  paint_cell i code d front back items small e lt = rw (
    le→ltb w (i % w) (omega (arith, mod-lt i pos)),
    le→ltb h (i / w) (omega (arith, cell_row i w h pos lt)),
    div-add-mod' i w,
    mod-eq_of_lt small,
    ← e,
    store-append front d code back,
  )

  module _ (keep : ℕ → Bool) (d : ℕ) (skipped : (c : ℕ) → keep c ≡ false → c ≡ d) where
    pub paint-grid_items_from :
        (i : ℕ) (front codes : List ℕ)
        → length front ≡ i
        → i + length codes ≤ w * h
        → All (λ c. c < cell) codes
        → paint cell w h (grid_items keep w i codes) (front ++ replicate (length codes) d)
          ≡ ok (front ++ codes)
    unfolding grid_items
    paint-grid_items_from i front [] e le small = unfold paint in refl
    paint-grid_items_from i front (c ∷ codes) e le (hc, small) =
        let back = replicate (length codes) d in
        let later : paint cell w h (grid_items keep w (i + 1) codes) (front ++ c ∷ back)
            ≡ ok (front ++ c ∷ codes) =
          rw (← append_assoc front (c ∷ []) back, ← append_assoc front (c ∷ []) codes)
            (paint-grid_items_from (i + 1) (front ++ c ∷ []) codes
              (omega (arith, length-append front (c ∷ []))) (omega arith) small) in
        elim (Bool-cases (keep c)) [
          | inl kept ↦ rw kept (paint_cell i c d front back _ hc e (omega arith) ∙ later)
          | inr dropped ↦ rw dropped (
              subst
                (λ x.
                  paint cell w h (grid_items keep w (i + 1) codes) (front ++ x ∷ back)
                  ≡ ok (front ++ c ∷ codes))
                (skipped c dropped) later)
        ]

    -- Painting all the items of a grid over an array of the default code restores the grid.
    pub paint-grid_items :
        (codes : List ℕ)
        → length codes ≡ w * h
        → All (λ c. c < cell) codes
        → paint cell w h (grid_items keep w 0 codes) (replicate (w * h) d) ≡ ok codes
    paint-grid_items codes e small =
        rw (← e) (paint-grid_items_from 0 [] codes refl (omega arith) small)

  -- Painting the items of every cell of a grid gives the grid, whatever the array held.
  paint-grid_items_over :
      (keep : ℕ → Bool) (i : ℕ) (front codes old : List ℕ)
      → ((c : ℕ) → keep c ≡ true)
      → length front ≡ i
      → length old ≡ length codes
      → i + length codes ≤ w * h
      → All (λ c. c < cell) codes
      → paint cell w h (grid_items keep w i codes) (front ++ old) ≡ ok (front ++ codes)
  unfolding grid_items
  paint-grid_items_over keep i front [] [] all e len le small = unfold paint in refl
  paint-grid_items_over keep i front [] (d ∷ old) all e len le small = absurd (omega arith)
  paint-grid_items_over keep i front (c ∷ codes) [] all e len le small = absurd (omega arith)
  paint-grid_items_over keep i front (c ∷ codes) (d ∷ old) all e len le (hc, small) = rw (all c) (
      paint_cell i c d front old _ hc e (omega arith)
      ∙ rw (← append_assoc front (c ∷ []) old, ← append_assoc front (c ∷ []) codes)
          (paint-grid_items_over keep (i + 1) (front ++ c ∷ []) codes old all
            (omega (arith, length-append front (c ∷ []))) (omega arith) (omega arith) small))

  pub paint-every_cell :
      (keep : ℕ → Bool) (codes old : List ℕ)
      → ((c : ℕ) → keep c ≡ true)
      → length codes ≡ w * h
      → length old ≡ w * h
      → All (λ c. c < cell) codes
      → paint cell w h (grid_items keep w 0 codes) old ≡ ok codes
  paint-every_cell keep codes old all len len' small =
      paint-grid_items_over keep 0 [] codes old all refl (omega arith) (omega arith) small
