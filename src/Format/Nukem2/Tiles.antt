-- ===== src/Format/Nukem2/Tiles.antt =====
-- The tiles of a cell of a Duke Nukem II level, from the word and the extra bits that they are
-- written as.
use libgamemaps.Prelude.{
  ℕ, suc, ◌+◌, ◌-◌, ◌*◌, ◌/◌, ◌%◌, ◌^◌, ◌<◌, ◌≡◌, refl, ap, ◌∙◌, ◌⊎◌, inl, inr, bit_or,
  bit_or-shifted, bit_or-above, holds_below, holds_below-lt, true, false, Option, none, some, List,
  [], ◌∷◌, All, length, arith, ltb, ◌==◌, ==_iff, Bool-cases, if◌then◌else◌,
}
use libgamemaps.Result.{ok}
use libgamemaps.Grid.{grid_items}
use libgamemaps.Grid.Words.{AllWords}
use libgamemaps.Format.{keep_other_than}
use libgamemaps.Format.Nukem2.Packing.{IsExtra}
use libgamemaps.Format.Nukem2.Cells.{
  no_tile, cell_word, cell_extra, cell_words, cell_extras, bg_tile, read_cell, tile_items,
  cell_items,
}

bit_or-top : (b : ℕ) → b < 1000 → bit_or 0x8000 b ≡ 0x8000 + b
bit_or-top b small =
    (==_iff _ _).0 (
      holds_below-lt (λ n. bit_or 0x8000 n == 0x8000 + n) 1000 b small (unfold holds_below in refl))

bit_or-32 : (f : ℕ) → f < 32 → bit_or 32 f ≡ 32 + f
bit_or-32 f small =
    (==_iff _ _).0
      (holds_below-lt (λ n. bit_or 32 n == 32 + n) 32 f small (unfold holds_below in refl))

-- The three fields of a word with both tiles.
both_word :
    (bg f : ℕ)
    → bg < 1000
    → f < 32
    → bit_or (bit_or 0x8000 bg) (f * 2 ^ 10) ≡ bg + f * 1024 + 0x8000
both_word bg f p q =
    let top : 0x8000 + bg ≡ bg + 32 * 2 ^ 10 = omega arith in
    rw (bit_or-top bg p, top, bit_or-above 10 bg 32 f (omega arith), bit_or-32 f q) (omega arith)

-- A foreground tile, if there is one.
abbrev pub fg_tile : ℕ → Option ℕ
fg_tile code = if code == no_tile then none else some code

-- A background tile alone.
background_cell :
    (bg : ℕ)
    → bg < 1000
    → read_cell (cell_word bg no_tile) (cell_extra bg no_tile) ≡ (bg_tile bg, none)
unfolding read_cell cell_word cell_extra
background_cell bg p =
    let no_both : (bg * 8 / 2 ^ 15 % 2 == 1) ≡ false = ground arith in
    let solid : ltb (bg * 8) (1000 * 8) ≡ true = ground arith in
    let code : bg * 8 / 2 ^ 3 ≡ bg = omega arith in rw (no_both, solid, code)

-- A foreground tile alone.
foreground_cell :
    (fg : ℕ) → fg < 600 → read_cell (cell_word 0 fg) (cell_extra 0 fg) ≡ (none, some fg)
unfolding read_cell cell_word cell_extra
foreground_cell fg q =
    let v = (fg * 5 + 1000) * 8 in
    let tile : (fg == no_tile) ≡ false = ground arith in
    let no_both : (v / 2 ^ 15 % 2 == 1) ≡ false = ground arith in
    let masked : ltb v (1000 * 8) ≡ false = ground arith in
    let code : (v / 2 ^ 3 - 1000) / 5 ≡ fg = omega arith in rw (tile, no_both, masked, code)

-- A cell with a background tile from 1 to 999 and a foreground tile is read back with the
-- foreground tile modulo 128, so that a foreground tile of 128 or more becomes another one.
pub both_cell :
    (bg fg : ℕ)
    → 0 < bg
    → bg < 1000
    → fg < no_tile
    → read_cell (cell_word bg fg) (cell_extra bg fg) ≡ (some bg, some (fg % 128))
unfolding read_cell cell_word cell_extra bg_tile
both_cell bg fg pos p q =
    let f = fg % 32 in
    let v = bg + f * 1024 + 0x8000 in
    let tile : (fg == no_tile) ≡ false = ground arith in
    let solid : (bg == 0) ≡ false = ground arith in
    let both : (v / 2 ^ 15 % 2 == 1) ≡ true = ground arith in
    let low : v % 2 ^ 10 ≡ bg = omega arith in
    let high : v / 2 ^ 10 % 32 ≡ f = omega arith in
    let code : f + fg / 2 ^ 5 % 4 * 2 ^ 5 ≡ fg % 128 = omega arith in
    rw (
      tile,
      solid,
      both_word bg f p (omega arith),
      both,
      low,
      high,
      solid,
      bit_or-shifted 5 f (fg / 2 ^ 5 % 4) (omega arith),
      code,
    )

-- The codes that a cell keeps: a background tile below 1000, and no foreground tile or one below
-- 128.
abbrev pub IsCell : ℕ → ℕ → Type 0
IsCell bg fg = (bg < 1000) × ((fg ≡ no_tile) ⊎ (fg < 128))

read_cell-cell_word :
    (bg fg : ℕ)
    → IsCell bg fg
    → read_cell (cell_word bg fg) (cell_extra bg fg) ≡ (bg_tile bg, fg_tile fg)
read_cell-cell_word bg fg (p, inl e) = rw e (background_cell bg p)
read_cell-cell_word bg fg (p, inr q) =
    let tile : (fg == no_tile) ≡ false = ground arith in
    elim (Bool-cases (bg == 0)) [
      | inl empty ↦
          let e : bg ≡ 0 = ground arith in
          rw (e, tile) (foreground_cell fg (omega arith) ∙ unfold bg_tile in refl)
      | inr solid ↦
          let whole : fg % 128 ≡ fg = omega arith in
          both_cell bg fg (ground arith) p (omega arith) ∙ unfold bg_tile in rw (solid, tile, whole)
    ]

-- Words, and extra bits.
cell_range : (bg fg : ℕ) → IsCell bg fg → (cell_word bg fg < 2 ^ 16) × IsExtra (cell_extra bg fg)
unfolding cell_word cell_extra
cell_range bg fg (p, q) = elim (Bool-cases (fg == no_tile)) [
  | inl none_there ↦ rw none_there (omega arith, (omega arith, omega arith))
  | inr tile ↦
      let small : fg < 128 = elim q [ inl e ↦ absurd (ground arith) | inr h ↦ h ] in
      elim (Bool-cases (bg == 0)) [
        | inl empty ↦ rw (tile, empty) (omega arith, (omega arith, omega arith))
        | inr solid ↦
            rw (tile, solid)
              (omega (arith, both_word bg (fg % 32) p (omega arith)), (omega arith, omega arith))
      ]
]

-- Two arrays of cells of the same length.
abbrev pub AllCells : List ℕ → List ℕ → Type 0
AllCells [] [] = Unit
AllCells (b ∷ bg) (f ∷ fg) = IsCell b f × AllCells bg fg
AllCells _ _ = ⊥

pub cells_range :
    (bg fg : List ℕ)
    → AllCells bg fg
    → AllWords (cell_words bg fg)
      × All IsExtra (cell_extras bg fg)
      × (length (cell_words bg fg) ≡ length bg)
      × (length (cell_extras bg fg) ≡ length bg)
unfolding cell_words cell_extras
cells_range [] [] h = (tt, tt, refl, refl)
cells_range [] (f ∷ fg) h = absurd h
cells_range (b ∷ bg) [] h = absurd h
cells_range (b ∷ bg) (f ∷ fg) (p, h) =
    let (word, extra) = cell_range b f p in
    let (words, extras, len, len') = cells_range bg fg h in
    ((word, words), (extra, extras), ap suc len, ap suc len')

-- The items of both layers are those of the arrays.
pub cell_items-cell_words :
    (w i : ℕ) (bg fg : List ℕ)
    → 0 < w
    → AllCells bg fg
    → cell_items w i (cell_words bg fg) (cell_extras bg fg)
      ≡ ok (grid_items (keep_other_than 0) w i bg, grid_items (keep_other_than no_tile) w i fg)
unfolding cell_items cell_words cell_extras grid_items tile_items bg_tile
cell_items-cell_words w i [] [] pos h = refl
cell_items-cell_words w i [] (f ∷ fg) pos h = absurd h
cell_items-cell_words w i (b ∷ bg) [] pos h = absurd h
cell_items-cell_words w i (b ∷ bg) (f ∷ fg) pos (p, h) =
    let divides : (w == 0) ≡ false = ground arith in
    let cell = read_cell-cell_word b f p in
    let later = cell_items-cell_words w (i + 1) bg fg pos h in
    elim (Bool-cases (b == 0)) [
      | inl no_bg ↦ elim (Bool-cases (f == no_tile)) [
        | inl no_fg ↦ rw (divides, cell, later, no_bg, no_fg)
        | inr fg_there ↦ rw (divides, cell, later, no_bg, fg_there)
      ]
      | inr bg_there ↦ elim (Bool-cases (f == no_tile)) [
        | inl no_fg ↦ rw (divides, cell, later, bg_there, no_fg)
        | inr fg_there ↦ rw (divides, cell, later, bg_there, fg_there)
      ]
    ]
