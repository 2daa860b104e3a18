-- ===== src/Grid/View.antt =====
-- What a layer shows at each of its cells, whatever the order and the number of its items.
use libgamemaps.Prelude.{
  ℕ, zero, suc, ◌+◌, ◌*◌, ◌/◌, ◌%◌, ◌≤◌, ◌<◌, ◌≡◌, ◌≢◌, refl, sym, ap, ◌∙◌, Bool, true, false, ◌&&◌,
  some, List, [], ◌∷◌, All, length, set, get_elem?, length-set, replicate, length-replicate,
  get_elem?-replicate, All-replicate, All-set, get_elem?-set_self, get_elem?-set_ne, arith, lt→ltb,
  le→ltb, ◌==◌, Bool-cases, inl, inr, if◌then◌else◌,
}
use libgamemaps.Result.{ok}
use libgamemaps.Map2D.{Item, default_item}
use libgamemaps.Grid.{grid_items, paint}
use native.Mathlib.Nat.{div-add-mod', mod-lt, mod-eq_of_lt}
use native.Mathlib.Decide.{ℕ_discrete}

-- The code at a cell: that of the last item there, or `d` where there is none.
unfoldable pub tile_at : ℕ → ℕ → List Item → ℕ → ℕ → ℕ
tile_at cell d [] x y = d
tile_at cell d (item ∷ items) x y =
    tile_at cell (if item.x == x && item.y == y then item.code % cell else d) items x y

-- Every item lies inside a grid of `w` columns and `h` rows.
abbrev pub InGrid : ℕ → ℕ → List Item → Type 0
InGrid w h = All (λ (item : Item). (item.x < w) × (item.y < h))

pub cell_lt : (x y w h : ℕ) → x < w → y < h → y * w + x < w * h
cell_lt x y w h p q = grind arith

row_le : (x y x' y' w : ℕ) → x < w → y * w + x ≡ y' * w + x' → y' ≤ y
row_le x y x' y' w p e = grind arith

pub cell_inj : (x y x' y' w : ℕ) → x < w → x' < w → y * w + x ≡ y' * w + x' → (x ≡ x') × (y ≡ y')
cell_inj x y x' y' w p q e =
    let same_row : y ≡ y' = omega (arith, row_le x y x' y' w p e, row_le x' y' x y w q (sym e)) in
    (omega (arith, ap (λ (t : ℕ). t * w) same_row), same_row)

-- The test of `tile_at` on two cells, by their indices.
pub same_cell :
    (x y x' y' w : ℕ) → x < w → x' < w → y * w + x ≡ y' * w + x' → (x == x' && y == y') ≡ true
same_cell x y x' y' w p q e = ground (arith, cell_inj x y x' y' w p q e)

pub other_cell : (x y x' y' w : ℕ) → y * w + x ≢ y' * w + x' → (x == x' && y == y') ≡ false
other_cell x y x' y' w ne = ground (arith, ap (λ (t : ℕ). t * w) {x = y} {y = y'})

module _ (cell w h : ℕ) where
  pub paint_step :
      (item : Item) (items : List Item) (bg : List ℕ)
      → item.x < w
      → item.y < h
      → length bg ≡ w * h
      → paint cell w h (item ∷ items) bg
        ≡ paint cell w h items (set bg (item.y * w + item.x) (item.code % cell))
  unfolding paint
  paint_step item items bg p q len = rw (
    le→ltb w item.x (omega arith),
    le→ltb h item.y (omega arith),
    lt→ltb (item.y * w + item.x) (length bg) (omega (arith, cell_lt item.x item.y w h p q)),
  )

  -- Painting items that lie in the grid succeeds, and every cell then holds what the items show.
  pub paint-tile_at :
      (items : List Item) (bg : List ℕ)
      → 0 < cell
      → InGrid w h items
      → length bg ≡ w * h
      → All (λ c. c < cell) bg
      → (bg' : List ℕ) × (paint cell w h items bg ≡ ok bg')
        × (length bg' ≡ w * h)
        × All (λ c. c < cell) bg'
        × ((x y d : ℕ)
            → x < w
            → y < h
            → get_elem? bg (y * w + x) ≡ some d
            → get_elem? bg' (y * w + x) ≡ some (tile_at cell d items x y))
  unfolding tile_at
  paint-tile_at [] bg pos inside len small =
      (bg, unfold paint in refl, len, small, λ x y d p q e. e)
  paint-tile_at (item ∷ items) bg pos ((p, q), inside) len small =
      let at = item.y * w + item.x in
      let v = item.code % cell in
      let (bg', runs, len', small', shows) =
        paint-tile_at items (set bg at v) pos inside (length-set bg at v ∙ len)
          (All-set _ bg at v (mod-lt item.code pos) small) in
      (
        bg',
        paint_step item items bg p q len ∙ runs,
        len',
        small',
        λ x y d px qy e. elim (ℕ_discrete at (y * w + x)) [
          | yes same ↦ rw (same_cell item.x item.y x y w p px same) (
              shows x y v px qy (
                rw (← same)
                  (get_elem?-set_self bg at v (omega (arith, cell_lt item.x item.y w h p q)))))
          | no ne ↦
              rw (other_cell item.x item.y x y w ne)
                (shows x y d px qy (get_elem?-set_ne bg at (y * w + x) v ne ∙ e))
        ],
      )

pub grid_items_kept :
    (keep : ℕ → Bool) (w i c : ℕ) (codes : List ℕ)
    → keep c ≡ true
    → grid_items keep w i (c ∷ codes)
      ≡ default_item (i % w) (i / w) c ∷ grid_items keep w (i + 1) codes
unfolding grid_items
grid_items_kept keep w i c codes kept = rw kept

pub grid_items_skipped :
    (keep : ℕ → Bool) (w i c : ℕ) (codes : List ℕ)
    → keep c ≡ false
    → grid_items keep w i (c ∷ codes) ≡ grid_items keep w (i + 1) codes
unfolding grid_items
grid_items_skipped keep w i c codes dropped = rw dropped

tile_at-cons_same :
    (cell d : ℕ) (item : Item) (items : List Item) (x y : ℕ)
    → (item.x == x && item.y == y) ≡ true
    → tile_at cell d (item ∷ items) x y ≡ tile_at cell (item.code % cell) items x y
unfolding tile_at
tile_at-cons_same cell d item items x y e = rw e

tile_at-cons_other :
    (cell d : ℕ) (item : Item) (items : List Item) (x y : ℕ)
    → (item.x == x && item.y == y) ≡ false
    → tile_at cell d (item ∷ items) x y ≡ tile_at cell d items x y
unfolding tile_at
tile_at-cons_other cell d item items x y e = rw e

module _ (cell w : ℕ) (pos : 0 < w) (keep : ℕ → Bool) where
  -- A cell other than the next one shows what the rest of the grid shows.
  tile_at_next :
      (i c : ℕ) (codes : List ℕ) (x y e : ℕ)
      → i ≢ y * w + x
      → tile_at cell e (grid_items keep w i (c ∷ codes)) x y
        ≡ tile_at cell e (grid_items keep w (i + 1) codes) x y
  tile_at_next i c codes x y e ne = elim (Bool-cases (keep c)) [
    | inl kept ↦ rw (grid_items_kept keep w i c codes kept) (
        tile_at-cons_other cell e (default_item (i % w) (i / w) c) _ x y
          (other_cell (i % w) (i / w) x y w (λ same. ne (omega (arith, same, div-add-mod' i w)))))
    | inr dropped ↦ rw (grid_items_skipped keep w i c codes dropped)
  ]

  -- The items from cell `i` on show nothing at an earlier cell.
  tile_at_before :
      (i : ℕ) (codes : List ℕ) (x y e : ℕ)
      → y * w + x < i
      → tile_at cell e (grid_items keep w i codes) x y ≡ e
  tile_at_before i [] x y e lt = unfold tile_at grid_items in refl
  tile_at_before i (c ∷ codes) x y e lt =
      tile_at_next i c codes x y e (λ same. absurd (omega arith))
      ∙ tile_at_before (i + 1) codes x y e (omega arith)

  module _ (d : ℕ) (skipped : (c : ℕ) → keep c ≡ false → c ≡ d) where
    -- The next cell shows its own code.
    tile_at_here :
        (i c : ℕ) (codes : List ℕ) (x y : ℕ)
        → x < w
        → i ≡ y * w + x
        → c < cell
        → tile_at cell d (grid_items keep w i (c ∷ codes)) x y ≡ c
    tile_at_here i c codes x y p at small = elim (Bool-cases (keep c)) [
      | inl kept ↦ rw (grid_items_kept keep w i c codes kept) (
          tile_at-cons_same cell d (default_item (i % w) (i / w) c) _ x y
            (same_cell (i % w) (i / w) x y w (mod-lt i pos) p (omega (arith, div-add-mod' i w)))
          ∙ tile_at_before (i + 1) codes x y (c % cell) (omega arith)
          ∙ mod-eq_of_lt small)
      | inr dropped ↦
          rw (grid_items_skipped keep w i c codes dropped)
            (tile_at_before (i + 1) codes x y d (omega arith) ∙ sym (skipped c dropped))
    ]

    tile_at-grid_items_from :
        (i j : ℕ) (codes : List ℕ) (x y v : ℕ)
        → x < w
        → y * w + x ≡ i + j
        → All (λ c. c < cell) codes
        → get_elem? codes j ≡ some v
        → tile_at cell d (grid_items keep w i codes) x y ≡ v
    tile_at-grid_items_from i j [] x y v p at small e = cc
    tile_at-grid_items_from i zero (c ∷ codes) x y v p at (hc, small) e =
        tile_at_here i c codes x y p (omega arith) hc ∙ (let c-eq-v : c ≡ v = cc in c-eq-v)
    tile_at-grid_items_from i (suc j) (c ∷ codes) x y v p at (hc, small) e =
        tile_at_next i c codes x y d (λ same. absurd (omega arith))
        ∙ tile_at-grid_items_from (i + 1) j codes x y v p (omega arith) small e

    -- The items made from a grid show the grid.
    pub tile_at-grid_items :
        (codes : List ℕ) (x y v : ℕ)
        → x < w
        → All (λ c. c < cell) codes
        → get_elem? codes (y * w + x) ≡ some v
        → tile_at cell d (grid_items keep w 0 codes) x y ≡ v
    tile_at-grid_items codes x y v p small e =
        tile_at-grid_items_from 0 (y * w + x) codes x y v p (omega arith) small e

    -- Items that lie in the grid can be painted, and the grid of the result shows what they show.
    pub paint-reopens :
        (h : ℕ) (items : List Item)
        → d < cell
        → InGrid w h items
        → (bg : List ℕ) × (paint cell w h items (replicate (w * h) d) ≡ ok bg)
          × (length bg ≡ w * h)
          × All (λ c. c < cell) bg
          × ((x y : ℕ)
              → x < w
              → y < h
              → tile_at cell d (grid_items keep w 0 bg) x y ≡ tile_at cell d items x y)
    paint-reopens h items small inside =
        let (bg, painted, len, smalls, shows) =
          paint-tile_at cell w h items (replicate (w * h) d) (omega arith) inside
            (length-replicate (w * h) d) (All-replicate (λ c. c < cell) (w * h) d small) in
        (
          bg,
          painted,
          len,
          smalls,
          λ x y p q.
              tile_at-grid_items bg x y _ p smalls
                (shows x y d p q (get_elem?-replicate (w * h) (y * w + x) d (cell_lt x y w h p q))),
        )
