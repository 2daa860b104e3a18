-- ===== src/Format/Sweeney/Columns.antt =====
-- The background of src/fmt-map-xargon.cpp lies in columns: a grid whose rows are the columns of
-- the map, so that what holds of such grids holds of it.
use libgamemaps.Prelude.{
  ℕ, zero, suc, ◌+◌, ◌*◌, ◌/◌, ◌%◌, ◌^◌, ◌≤◌, ◌<◌, ◌≡◌, refl, sym, ap, ◌∙◌, subst, inl, inr, Bool,
  not, ◌&&◌, List, [], ◌∷◌, ◌++◌, map, length, set, take, drop, length-take, length-drop,
  length-set, take-append-drop, append_assoc, All-take, All-drop, arith, ◌==◌, lt→ltb,
  if◌then◌else◌, Bool-cases,
}
use mathlib.Core.List.{map-append}
use libgamemaps.Result.{ok}
use libgamemaps.Stream.{Streams}
use libgamemaps.Stream.Bytes.{words_bytes, words_bytes-append}
use libgamemaps.Map2D.{Item}
use libgamemaps.Grid.{grid_items, paint, store}
use libgamemaps.Grid.View.{InGrid, tile_at, paint_step}
use libgamemaps.Grid.Words.{AllWords}
use libgamemaps.Grid.Rows.{grid_items-append}
use libgamemaps.Format.Sweeney.Objects.Storing.{read_word_on}
use libgamemaps.Format.Sweeney.{map_width, map_height, put_tiles, read_column, read_columns}

abbrev pub swapped : Item → Item
swapped item = record item { x = item.y; y = item.x }

-- The codes that `open` keeps.
abbrev pub keep_tile : ℕ → Bool
keep_tile code = not (code % 2 ^ 10 == 0)

pub InGrid-swapped :
    (w h : ℕ) (items : List Item) → InGrid w h items → InGrid h w (map swapped items)
InGrid-swapped w h [] inside = tt
InGrid-swapped w h (item ∷ items) ((p, q), inside) = ((q, p), InGrid-swapped w h items inside)

-- A layer shows at a cell what the layer with its columns for rows shows at the mirrored cell.
pub tile_at-swapped :
    (cell d : ℕ) (items : List Item) (x y : ℕ)
    → tile_at cell d (map swapped items) y x ≡ tile_at cell d items x y
unfolding tile_at
tile_at-swapped cell d [] x y = refl
tile_at-swapped cell d (item ∷ items) x y =
    let turned : (item.y == y && item.x == x) ≡ (item.x == x && item.y == y) = ground arith in
    tile_at-swapped cell (if item.y == y && item.x == x then item.code % cell else d) items x y
    ∙ ap (λ (b : Bool). tile_at cell (if b then item.code % cell else d) items x y) turned

module _ (lib : Streams) where
  open lib use {Input, contents, rest, read_u16le}

  put_tiles_step :
      (item : Item) (items : List Item) (bg : List ℕ)
      → item.x < map_width
      → item.y < map_height
      → length bg ≡ map_height * map_width
      → put_tiles lib (item ∷ items) bg
        ≡ put_tiles lib items (set bg (item.x * map_height + item.y) (item.code % 2 ^ 16))
  unfolding put_tiles store
  put_tiles_step item items bg p q len =
      let fits : item.x * map_height + item.y < length bg = omega arith in
      rw (lt→ltb item.x 128 p, lt→ltb item.y 64 q, lt→ltb _ (length bg) fits)

  -- Where the tiles lie in the map `write` paints the grid of the columns.
  pub put_tiles-paint :
      (items : List Item) (bg : List ℕ)
      → InGrid map_width map_height items
      → length bg ≡ map_height * map_width
      → put_tiles lib items bg ≡ paint (2 ^ 16) map_height map_width (map swapped items) bg
  put_tiles-paint [] bg inside len = unfold put_tiles paint in refl
  put_tiles-paint (item ∷ items) bg ((p, q), inside) len =
      put_tiles_step item items bg p q len
      ∙ put_tiles-paint items _ inside (length-set bg _ _ ∙ len)
      ∙ sym (paint_step (2 ^ 16) map_height map_width (swapped item) (map swapped items) bg q p len)

  read_column_step :
      (n i x y c : ℕ) (codes : List ℕ) (s s1 s2 : Input)
      → i % map_height ≡ y
      → i / map_height ≡ x
      → read_u16le s ≡ ok (c, s1)
      → read_column lib x (y + 1) n s1
        ≡ ok (map swapped (grid_items keep_tile map_height (i + 1) codes), s2)
      → read_column lib x y (suc n) s
        ≡ ok (map swapped (grid_items keep_tile map_height i (c ∷ codes)), s2)
  unfolding read_column grid_items
  read_column_step n i x y c codes s s1 s2 row column reads later =
      elim (Bool-cases (c % 2 ^ 10 == 0)) [
        | inl empty ↦ rw (reads, later, empty)
        | inr shown ↦ rw (reads, later, shown, row, column)
      ]

  -- A column that is read gives the tiles of a row of the grid.
  read_column-grid_items :
      (codes back : List ℕ) (i x y : ℕ) (s : Input)
      → i ≡ x * map_height + y
      → y + length codes ≤ map_height
      → AllWords codes
      → rest s ≡ words_bytes codes ++ back
      → (s' : Input) × (read_column lib x y (length codes) s
          ≡ ok (map swapped (grid_items keep_tile map_height i codes), s'))
        × (contents s' ≡ contents s)
        × (rest s' ≡ back)
  unfolding words_bytes
  read_column-grid_items [] back i x y s at fits small e =
      (s, unfold read_column grid_items in refl, refl, e)
  read_column-grid_items (c ∷ codes) back i x y s at fits (p, small) e =
      let (s1, reads, kept, left) = read_word_on lib s c _ p e in
      let (s2, reads', kept', left') =
        read_column-grid_items codes back (i + 1) x (y + 1) s1 (omega arith) (omega arith) small
          left in
      (
        s2,
        read_column_step (length codes) i x y c codes s s1 s2 (omega arith) (omega arith) reads
            reads',
        kept' ∙ kept,
        left',
      )

  read_column-whole :
      (codes back : List ℕ) (x : ℕ) (s : Input)
      → length codes ≡ map_height
      → AllWords codes
      → rest s ≡ words_bytes codes ++ back
      → (s' : Input) × (read_column lib x 0 map_height s
          ≡ ok (map swapped (grid_items keep_tile map_height (x * map_height) codes), s'))
        × (contents s' ≡ contents s)
        × (rest s' ≡ back)
  read_column-whole codes back x s len small e =
      let (s', reads, kept, left) =
        read_column-grid_items codes back (x * map_height) x 0 s (omega arith) (omega arith) small
          e in
      let column = map swapped (grid_items keep_tile map_height (x * map_height) codes) in
      (s', subst (λ (n : ℕ). read_column lib x 0 n s ≡ ok (column, s')) len reads, kept, left)

  read_columns_step :
      (n x : ℕ) (column columns : List Item) (s s1 s2 : Input)
      → read_column lib x 0 map_height s ≡ ok (column, s1)
      → read_columns lib (x + 1) n s1 ≡ ok (columns, s2)
      → read_columns lib x (suc n) s ≡ ok (column ++ columns, s2)
  unfolding read_columns
  read_columns_step n x column columns s s1 s2 reads later = rw (reads, later)

  -- The columns that are read are the rows of the grid.
  pub read_columns-grid_items :
      (n : ℕ) (codes back : List ℕ) (x : ℕ) (s : Input)
      → length codes ≡ n * map_height
      → AllWords codes
      → rest s ≡ words_bytes codes ++ back
      → (s' : Input) × (read_columns lib x n s
          ≡ ok (map swapped (grid_items keep_tile map_height (x * map_height) codes), s'))
        × (contents s' ≡ contents s)
        × (rest s' ≡ back)
  read_columns-grid_items zero [] back x s len small e =
      (s, unfold read_columns grid_items in refl, refl, unfold words_bytes in e)
  read_columns-grid_items zero (c ∷ codes) back x s len small e = absurd (omega arith)
  read_columns-grid_items (suc n) codes back x s len small e =
      let column = take map_height codes in
      let others = drop map_height codes in
      let whole : column ++ others ≡ codes = take-append-drop map_height codes in
      let column_len : length column ≡ map_height = length-take map_height codes (omega arith) in
      let split = ap words_bytes (sym whole) ∙ words_bytes-append column others in
      let (s1, reads, kept, left) =
        read_column-whole column (words_bytes others ++ back) x s column_len
          (All-take _ map_height codes small)
          (e
            ∙ ap (λ l. l ++ back) split
            ∙ append_assoc (words_bytes column) (words_bytes others) back) in
      let (s2, reads', kept', left') =
        read_columns-grid_items n others back (x + 1) s1
          (omega (arith, length-drop map_height codes)) (All-drop _ map_height codes small) left in
      let parts =
        grid_items-append keep_tile map_height (x * map_height) ((x + 1) * map_height) column others
          (omega arith) in
      (
        s2,
        read_columns_step n x _ _ s s1 s2 reads reads'
            ∙ ap (λ l. ok (l, s2))
                (sym (map-append swapped _ _)
                  ∙ ap (map swapped)
                      (sym parts ∙ ap (grid_items keep_tile map_height (x * map_height)) whole)),
        kept' ∙ kept,
        left',
      )
