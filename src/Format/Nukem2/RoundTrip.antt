-- ===== src/Format/Nukem2/RoundTrip.antt =====
-- The cells of a Duke Nukem II level that `write` puts out are those that `open` reads.
use libgamemaps.Prelude.{
  ℕ, ◌-◌, ◌*◌, ◌/◌, ◌%◌, ◌^◌, ◌<◌, ◌≡◌, refl, sym, ap, ◌∙◌, subst, some, List, [], ◌∷◌, ◌++◌,
  append-nil, append_assoc, length, take, drop, take-append-drop, replicate, arith, ltb, lt→ltb,
  true,
}
use native.Mathlib.Nat.{mod-eq_of_lt}
use libgamemaps.Result.{ok}
use libgamemaps.Stream.{Streams}
use libgamemaps.Stream.Bytes.{AllBytes, words_bytes}
use libgamemaps.Stream.Write.{Holds, Holds-write_u8, Holds-write_u16le}
use libgamemaps.Grid.{grid_items}
use libgamemaps.Grid.Words.{AllWords, read_word, Holds-write_words}
use libgamemaps.Format.{keep_other_than}
use libgamemaps.Format.Nukem2.Cells.{no_tile, cell_words, cell_extras, cell_items, read_words}
use libgamemaps.Format.Nukem2.Extra.{filled, read_extra}
use libgamemaps.Format.Nukem2.Tiles.{AllCells, cells_range, cell_items-cell_words}
use libgamemaps.Format.Nukem2.Rle.RoundTrip.{read_extra-rle_encode}
use libgamemaps.Format.Nukem2.{num_tiles_bg, open_extra, write_bytes, write_cells}

module _ (lib : Streams) where
  open lib use {Input, Output, contents, rest, written, read_u16le, write_u16le}

  Holds-write_bytes :
      (more bytes : List ℕ) (o : Output)
      → AllBytes more
      → Holds lib bytes o
      → (o' : Output) × (write_bytes lib more o ≡ ok o') × Holds lib (bytes ++ more) o'
  unfolding write_bytes
  Holds-write_bytes [] bytes o small h = (o, refl, rw (append-nil bytes) h)
  Holds-write_bytes (b ∷ more) bytes o (p, small) h =
      let (o1, writes, h1) = Holds-write_u8 lib b bytes o h in
      let byte : bytes ++ b % 256 ∷ [] ≡ bytes ++ b ∷ [] =
        ap (λ (k : ℕ). bytes ++ k ∷ []) (mod-eq_of_lt p) in
      let (o2, writes', h2) =
        Holds-write_bytes more (bytes ++ b ∷ []) o1 small (subst (λ l. Holds lib l o1) byte h1) in
      (o2, rw writes writes', subst (λ l. Holds lib l o2) (append_assoc bytes (b ∷ []) more) h2)

  read_words_lem :
      (vs : List ℕ) (s : Input) (back : List ℕ)
      → AllWords vs
      → rest s ≡ words_bytes vs ++ back
      → (s' : Input) × (read_words lib (length vs) s ≡ ok (vs, s')) × (rest s' ≡ back)
  unfolding read_words words_bytes
  read_words_lem [] s back small e = (s, refl, e)
  read_words_lem (v ∷ vs) s back (p, small) e =
      let (s1, reads, left) = read_word lib s v (words_bytes vs ++ back) p e in
      let (s2, reads', left') = read_words_lem vs s1 back small left in
      (s2, rw (reads, reads'), left')

  -- What reading back gives.
  pub record ReadsBack (map_width : ℕ) (bg fg : List ℕ) (s : Input) (back : List ℕ) : Type 0 where
    pub s1 : Input
    pub s2 : Input
    pub left : Input
    pub values : List ℕ
    pub extra : List ℕ
    pub reads_width : read_u16le s ≡ ok (map_width, s1)
    pub reads_words : read_words lib num_tiles_bg s1 ≡ ok (values, s2)
    pub reads_extra : open_extra lib s2 ≡ ok (extra, left)
    pub rest_lem : rest left ≡ back
    pub items_lem :
        cell_items map_width 0 values extra
        ≡ ok (
          grid_items (keep_other_than 0) map_width 0 bg,
          grid_items (keep_other_than no_tile) map_width 0 fg,
        )

  -- A word in front of what the stream holds.
  read_front :
      (v : ℕ) (s : Input) (bytes : List ℕ)
      → v < 2 ^ 16
      → rest s ≡ words_bytes (v ∷ []) ++ bytes
      → (s' : Input) × (read_u16le s ≡ ok (v, s')) × (rest s' ≡ bytes)
  unfolding words_bytes
  read_front v s bytes small e = read_word lib s v bytes small e

  Holds-write_front :
      (v : ℕ) (bytes : List ℕ) (o : Output)
      → Holds lib bytes o
      → (o' : Output) × (write_u16le v o ≡ ok o') × Holds lib (bytes ++ words_bytes (v ∷ [])) o'
  unfolding words_bytes
  Holds-write_front v bytes o h = Holds-write_u16le lib v h

  -- All but the last two cells have their extra bits in the bytes, and these two have none.
  filled-cells :
      (values extras : List ℕ)
      → filled num_tiles_bg values
        ≡ take (num_tiles_bg / 4 * 4) extras ++ replicate (num_tiles_bg - num_tiles_bg / 4 * 4) 0
      → drop (num_tiles_bg / 4 * 4) extras ≡ 0 ∷ 0 ∷ []
      → filled num_tiles_bg values ≡ extras
  filled-cells values extras e last =
      e
      ∙ ap (λ l. take (num_tiles_bg / 4 * 4) extras ++ l) (sym last)
      ∙ take-append-drop (num_tiles_bg / 4 * 4) extras

  -- The words of the cells, the size of the extra data and its bytes, behind the width.
  reads_cells :
      (map_width : ℕ) (bg fg bytes : List ℕ) (s : Input) (back : List ℕ)
      → 0 < map_width
      → map_width < 2 ^ 16
      → length bg ≡ num_tiles_bg
      → AllCells bg fg
      → drop (num_tiles_bg / 4 * 4) (cell_extras bg fg) ≡ 0 ∷ 0 ∷ []
      → length bytes < 2 ^ 16
      → ((s : Input) (back : List ℕ)
          → rest s ≡ bytes ++ back
          → (values : List ℕ) × (left : Input) × (read_extra lib num_tiles_bg
                (length bytes)
                (length bytes)
                0
                0
                s
              ≡ ok (some (values, left)))
            × (rest left ≡ back)
            × (filled num_tiles_bg values
                ≡ take (num_tiles_bg / 4 * 4) (cell_extras bg fg)
                  ++ replicate (num_tiles_bg - num_tiles_bg / 4 * 4) 0))
      → rest s
        ≡ words_bytes (map_width ∷ [])
          ++ (words_bytes (cell_words bg fg)
              ++ (words_bytes (length bytes ∷ []) ++ (bytes ++ back)))
      → ReadsBack map_width bg fg s back
  unfolding open_extra
  reads_cells map_width bg fg bytes s back pos narrow len cells last small reads e =
      let (words, extras, words_len, extras_len) = cells_range bg fg cells in
      let (s1, runs1, e1) = read_front map_width s _ narrow e in
      let (s2, runs2, e2) = read_words_lem (cell_words bg fg) s1 _ words e1 in
      let (s3, runs3, e3) = read_front (length bytes) s2 (bytes ++ back) small e2 in
      let (values, left, runs4, e4, fills) = reads s3 back e3 in
      record {
        s1 = s1;
        s2 = s2;
        left = left;
        values = cell_words bg fg;
        extra = filled num_tiles_bg values;
        reads_width = runs1;
        reads_words =
            subst (λ n. read_words lib n s1 ≡ ok (cell_words bg fg, s2)) (words_len ∙ len) runs2;
        reads_extra = rw (runs3, runs4);
        rest_lem = e4;
        items_lem =
            ap (λ l. cell_items map_width 0 (cell_words bg fg) l)
              (filled-cells values (cell_extras bg fg) fills last)
            ∙ cell_items-cell_words map_width 0 bg fg pos cells;
      }

  -- Two arrays of 32750 cells, whose background tiles are below 1000 and whose foreground tiles are
  -- none or below 128, and whose last two cells have no extra bits, for a map whose width is a
  -- 16-bit word other than 0 and whose area is below 32750: write puts them out on a fresh stream, and from any
  -- stream that has just these bytes in front the steps of open read the width, the words and the
  -- extra bits, stop behind the last of the bytes, and turn them into the items of exactly the two
  -- arrays' tiles other than the default ones.
  pub write_cells-ReadsBack :
      (map_width map_height : ℕ) (bg fg : List ℕ) (o : Output)
      → 0 < map_width
      → map_width < 2 ^ 16
      → map_width * map_height < num_tiles_bg
      → length bg ≡ num_tiles_bg
      → AllCells bg fg
      → drop (num_tiles_bg / 4 * 4) (cell_extras bg fg) ≡ 0 ∷ 0 ∷ []
      → Holds lib [] o
      → (o' : Output) × (bytes : List ℕ) × (write_cells lib map_width map_height bg fg o ≡ ok o')
        × (written o' ≡ bytes)
        × ((s : Input) (back : List ℕ) → rest s ≡ bytes ++ back → ReadsBack map_width bg fg s back)
  unfolding write_cells
  write_cells-ReadsBack map_width map_height bg fg o pos narrow area len cells last h =
      let (words, extras, words_len, extras_len) = cells_range bg fg cells in
      let (bytes, codes, are_bytes, small, reads) =
        read_extra-rle_encode lib num_tiles_bg (num_tiles_bg / 4) (cell_extras bg fg) (omega arith)
          (omega arith) (omega arith) (omega (arith, extras_len)) extras in
      let fits : ltb (map_width * map_height % 2 ^ 32) num_tiles_bg ≡ true =
        lt→ltb _ _ (omega arith) in
      let (o1, runs1, h1) = Holds-write_front map_width [] o h in
      let (o2, runs2, h2) = Holds-write_words lib (cell_words bg fg) _ o1 h1 in
      let (o3, runs3, h3) = Holds-write_front (length bytes) _ o2 h2 in
      let (o4, runs4, h4) = Holds-write_bytes bytes _ o3 are_bytes h3 in
      (
        o4,
        _,
        rw (runs1, fits, runs2, codes, runs3) runs4,
        h4.bytes_written,
        λ s back e.
            reads_cells map_width bg fg bytes s back pos narrow len cells last small reads
              (e ∙ simp append_assoc),
      )
