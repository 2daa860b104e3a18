-- ===== src/Grid/Rows.antt =====
-- The loops that read a grid row by row, a byte for each cell: src/fmt-map-hocus.cpp and
-- src/fmt-map-harry.cpp.
use libgamemaps.Prelude.{
  ℕ, zero, suc, ◌+◌, ◌*◌, ◌/◌, ◌%◌, ◌≤◌, ◌<◌, ◌≡◌, refl, sym, ap, ◌∙◌, inl, inr, Bool, not, List,
  [], ◌∷◌, ◌++◌, length, take, drop, length-take, length-drop, take-append-drop, append_assoc,
  arith, ◌==◌, if◌then◌else◌, Bool-cases,
}
use native.Mathlib.Nat.{div-add-mod', mod-lt}
use libgamemaps.Result.{Result, ok, ◌>>=◌}
use libgamemaps.Stream.{Streams}
use libgamemaps.Map2D.{Item, default_item}
use libgamemaps.Grid.{grid_items}
use libgamemaps.Grid.View.{cell_inj, grid_items_kept, grid_items_skipped}
use libgamemaps.Format.{keep_other_than}

module _ (lib : Streams) (default_tile width : ℕ) where
  open lib use {Input, read_u8}

  -- The inner loop, `n` columns from column `x` on.
  unfoldable pub read_row : ℕ → ℕ → ℕ → Input → Result (List Item × Input)
  read_row zero x y input = ok ([], input)
  read_row (suc n) x y input = do
    (code, input') ← read_u8 input
    (items, input'') ← read_row n (x + 1) y input'
    let t = default_item x y code
    ok ((if not (code == default_tile) then t ∷ items else items), input'')

  -- The outer loop, `n` rows from row `y` on.
  unfoldable pub read_rows : ℕ → ℕ → Input → Result (List Item × Input)
  read_rows zero y input = ok ([], input)
  read_rows (suc n) y input = do
    (row, input') ← read_row width 0 y input
    (rows, input'') ← read_rows n (y + 1) input'
    ok (row ++ rows, input'')

pub grid_items-append :
    (keep : ℕ → Bool) (w i j : ℕ) (front back : List ℕ)
    → i + length front ≡ j
    → grid_items keep w i (front ++ back) ≡ grid_items keep w i front ++ grid_items keep w j back
grid_items-append keep w i j [] back e =
    let same : i ≡ j = omega arith in unfold grid_items in ap (λ k. grid_items keep w k back) same
grid_items-append keep w i j (c ∷ front) back e =
    let later = grid_items-append keep w (i + 1) j front back (omega arith) in
    elim (Bool-cases (keep c)) [
      | inl kept ↦
          rw
            (grid_items_kept keep w i c (front ++ back) kept, grid_items_kept keep w i c front kept)
            (ap (λ l. default_item (i % w) (i / w) c ∷ l) later)
      | inr dropped ↦
          rw
            (
              grid_items_skipped keep w i c (front ++ back) dropped,
              grid_items_skipped keep w i c front dropped,
            )
            later
    ]

module _ (lib : Streams) (d w : ℕ) where
  open lib use {Input, rest, read_u8, read_u8_lem}

  read_row_step :
      (n i x y c : ℕ) (codes : List ℕ) (s s1 s2 : Input)
      → i % w ≡ x
      → i / w ≡ y
      → read_u8 s ≡ ok (c, s1)
      → read_row lib d w n (x + 1) y s1 ≡ ok (grid_items (keep_other_than d) w (i + 1) codes, s2)
      → read_row lib d w (suc n) x y s ≡ ok (grid_items (keep_other_than d) w i (c ∷ codes), s2)
  unfolding read_row grid_items
  read_row_step n i x y c codes s s1 s2 column row reads later = rw (reads, later, column, row)

  read_rows_step :
      (n y : ℕ) (row rows : List Item) (s s1 s2 : Input)
      → read_row lib d w w 0 y s ≡ ok (row, s1)
      → read_rows lib d w n (y + 1) s1 ≡ ok (rows, s2)
      → read_rows lib d w (suc n) y s ≡ ok (row ++ rows, s2)
  unfolding read_rows
  read_rows_step n y row rows s s1 s2 reads later = rw (reads, later)

  -- A row that is read gives the items of the cells of that row.
  read_row-grid_items :
      (codes back : List ℕ) (i x y : ℕ) (s : Input)
      → i ≡ y * w + x
      → x + length codes ≤ w
      → rest s ≡ codes ++ back
      → (s' : Input) × (read_row lib d w (length codes) x y s
          ≡ ok (grid_items (keep_other_than d) w i codes, s'))
        × (rest s' ≡ back)
  read_row-grid_items [] back i x y s at fits e = (s, unfold read_row grid_items in refl, e)
  read_row-grid_items (c ∷ codes) back i x y s at fits e =
      let (s1, reads, _, left) = read_u8_lem s c (codes ++ back) e in
      let (s2, reads', left') =
        read_row-grid_items codes back (i + 1) (x + 1) y s1 (omega arith) (omega arith) left in
      let inside : x < w = omega arith in
      let (column, row) =
        cell_inj (i % w) (i / w) x y w (mod-lt i (omega arith)) inside (div-add-mod' i w ∙ at) in
      (s2, read_row_step (length codes) i x y c codes s s1 s2 column row reads reads', left')

  read_row-exactly :
      (n : ℕ) (codes back : List ℕ) (i x y : ℕ) (s : Input)
      → length codes ≡ n
      → i ≡ y * w + x
      → x + n ≤ w
      → rest s ≡ codes ++ back
      → (s' : Input) × (read_row lib d w n x y s
          ≡ ok (grid_items (keep_other_than d) w i codes, s'))
        × (rest s' ≡ back)
  read_row-exactly n codes back i x y s len at fits e =
      rw (← len) (read_row-grid_items codes back i x y s at (omega arith) e)

  -- The rows that are read are the cells of the grid.
  pub read_rows-grid_items :
      (n : ℕ) (codes back : List ℕ) (y : ℕ) (s : Input)
      → length codes ≡ n * w
      → rest s ≡ codes ++ back
      → (s' : Input) × (read_rows lib d w n y s
          ≡ ok (grid_items (keep_other_than d) w (y * w) codes, s'))
        × (rest s' ≡ back)
  read_rows-grid_items zero [] back y s len e = (s, unfold read_rows grid_items in refl, e)
  read_rows-grid_items zero (c ∷ codes) back y s len e = absurd (omega arith)
  read_rows-grid_items (suc n) codes back y s len e =
      let row = take w codes in
      let others = drop w codes in
      let whole : row ++ others ≡ codes = take-append-drop w codes in
      let row_len : length row ≡ w = length-take w codes (omega arith) in
      let (s1, reads, left) =
        read_row-exactly w row (others ++ back) (y * w) 0 y s row_len (omega arith) (omega arith)
          (e ∙ ap (λ l. l ++ back) (sym whole) ∙ append_assoc row others back) in
      let (s2, reads', left') =
        read_rows-grid_items n others back (y + 1) s1 (omega (arith, length-drop w codes)) left in
      let parts =
        grid_items-append (keep_other_than d) w (y * w) ((y + 1) * w) row others (omega arith) in
      (
        s2,
        read_rows_step n y _ _ s s1 s2 reads reads'
            ∙ ap (λ l. ok (l, s2))
                (sym parts ∙ ap (grid_items (keep_other_than d) w (y * w)) whole),
        left',
      )

  -- All rows of a grid.
  pub read_grid :
      (h : ℕ) (codes back : List ℕ) (s : Input)
      → length codes ≡ h * w
      → rest s ≡ codes ++ back
      → (s' : Input) × (read_rows lib d w h 0 s ≡ ok (grid_items (keep_other_than d) w 0 codes, s'))
        × (rest s' ≡ back)
  read_grid h codes back s len e =
      let (s', reads, left) = read_rows-grid_items h codes back 0 s len e in
      let first : 0 * w ≡ 0 = omega arith in
      (s', reads ∙ ap (λ i. ok (grid_items (keep_other_than d) w i codes, s')) first, left)
