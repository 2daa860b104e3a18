-- ===== src/Format/Zone66/Shown.antt =====
-- What the background of a Zone 66 level shows through its table.
use libgamemaps.Prelude.{
  ℕ, zero, suc, ◌+◌, ◌*◌, ◌%◌, ◌≤◌, ◌<◌, ◌≡◌, ◌≢◌, refl, ap, ◌∙◌, ◌⊎◌, inl, inr, ◌&&◌, Option, none,
  some, Option-cases, List, [], ◌∷◌, ◌++◌, All, length, length-append, set, length-set, get_elem?,
  get_elem?-set_self, get_elem?-set_ne, arith, leb, lt→ltb, le→ltb, ◌==◌, ==_iff, Bool-cases,
  if◌then◌else◌,
}
use native.Mathlib.Nat.{mod-eq_of_lt}
use native.Mathlib.Decide.{ℕ_discrete}
use libgamemaps.Result.{ok, throw, too_many_unique}
use libgamemaps.Map2D.{Item}
use libgamemaps.Grid.{store}
use libgamemaps.Grid.View.{InGrid, same_cell, other_cell}
use libgamemaps.Format.Zone66.Mapping.{
  map_width, map_height, find_mapping, Mapping, put_tile, put_tiles,
}

-- The code of the last item at a cell, or what was there before.
unfoldable pub last_code : Option ℕ → List Item → ℕ → ℕ → Option ℕ
last_code before [] x y = before
last_code before (item ∷ items) x y =
    last_code (if item.x == x && item.y == y then some item.code else before) items x y

-- The byte of a cell leads to a code by the table; nothing is asked where no code is known.
unfoldable pub Shows : Mapping → ℕ → Option ℕ → Type 0
Shows s cell none = Unit {0}
Shows s cell (some code) =
    (m : ℕ) × (get_elem? s.bg cell ≡ some m) × (get_elem? s.map_bg m ≡ some code)

-- The background has its size, and the table an even number of entries, at most 256.
pub record IsMapping (s : Mapping) : Type 0 where
  pub pairs : ℕ
  pub even : length s.map_bg ≡ pairs * 2
  pub fits : pairs ≤ 128
  pub sized : length s.bg ≡ map_width * map_height

-- A mapping that is found holds the code.
find_mapping_lem :
    (code : ℕ) (map_bg : List ℕ) (m found : ℕ)
    → find_mapping code map_bg m ≡ some found
    → (j : ℕ) × (found ≡ m + j) × (j < length map_bg) × (get_elem? map_bg j ≡ some code)
unfolding find_mapping
find_mapping_lem code [] m found e = cc
find_mapping_lem code (c ∷ map_bg) m found e = elim (Bool-cases (c == code)) [
  | inl here ↦
      let same : c ≡ code = (==_iff c code).0 here in
      let first : some m ≡ some found = (rw here) ∙ e in
      let position : m ≡ found = cc in (0, omega arith, omega arith, ap some same)
  | inr other ↦
      let later : find_mapping code map_bg (m + 1) ≡ some found = (rw other) ∙ e in
      let (j, at, lt, holds) = find_mapping_lem code map_bg (m + 1) found later in
      (suc j, omega arith, omega arith, holds)
]

-- Where no mapping is found every entry of the table holds another code.
find_mapping-none :
    (code : ℕ) (map_bg : List ℕ) (m : ℕ)
    → find_mapping code map_bg m ≡ none
    → All (λ (c : ℕ). c ≢ code) map_bg
unfolding find_mapping
find_mapping-none code [] m e = tt
find_mapping-none code (c ∷ map_bg) m e = elim (Bool-cases (c == code)) [
  | inl here ↦ let found = rw here at e in absurd (cc)
  | inr other ↦ (ground arith, find_mapping-none code map_bg (m + 1) (rw other at e))
]

-- The table is full, and no entry of it holds the code.
pub record IsFullFor (code : ℕ) (s : Mapping) : Type 0 where
  pub full : length s.map_bg ≡ 256
  pub others : All (λ (c : ℕ). c ≢ code) s.map_bg

-- The items up to some item are put, and then the table is full and has no entry for its code.
pub record RunsOut (items : List Item) (s : Mapping) : Type 0 where
  pub front : List Item
  pub item : Item
  pub back : List Item
  pub reached : Mapping
  pub split_lem : items ≡ front ++ item ∷ back
  pub puts : put_tiles front s ≡ ok reached
  pub no_room : IsFullFor item.code reached

get_elem?-append :
    (xs ys : List ℕ) (i v : ℕ) → get_elem? xs i ≡ some v → get_elem? (xs ++ ys) i ≡ some v
get_elem?-append [] ys i v e = cc
get_elem?-append (x ∷ xs) ys zero v e = e
get_elem?-append (x ∷ xs) ys (suc i) v e = get_elem?-append xs ys i v e

get_elem?-append_length :
    (xs : List ℕ) (y : ℕ) (ys : List ℕ) → get_elem? (xs ++ y ∷ ys) (length xs) ≡ some y
get_elem?-append_length [] y ys = refl
get_elem?-append_length (x ∷ xs) y ys = get_elem?-append_length xs y ys

-- A cell that is written shows the code at its new byte, and every other cell what it showed, if
-- the table keeps its entries.
Shows-set :
    (s : Mapping) (map_bg : List ℕ) (item : Item) (m x y : ℕ) (before : Option ℕ)
    → length s.bg ≡ map_width * map_height
    → item.x < map_width
    → item.y < map_height
    → x < map_width
    → ((j c : ℕ) → get_elem? s.map_bg j ≡ some c → get_elem? map_bg j ≡ some c)
    → get_elem? map_bg m ≡ some item.code
    → Shows s (y * map_width + x) before
    → Shows
        (record { map_bg = map_bg; bg = set s.bg (item.y * map_width + item.x) m })
        (y * map_width + x)
        (if item.x == x && item.y == y then some item.code else before)
unfolding Shows
Shows-set s map_bg item m x y before sized px py qx keeps holds shown =
    let at = item.y * map_width + item.x in
    elim (ℕ_discrete at (y * map_width + x)) [
      | yes same ↦
          rw (same_cell item.x item.y x y map_width px qx same)
            (m, rw (← same) (get_elem?-set_self s.bg at m (omega arith)), holds)
      | no ne ↦ rw (other_cell item.x item.y x y map_width ne) (go before shown ne)
    ]
  where
    go :
        (b : Option ℕ)
        → Shows s (y * map_width + x) b
        → item.y * map_width + item.x ≢ y * map_width + x
        → Shows
            (record { map_bg = map_bg; bg = set s.bg (item.y * map_width + item.x) m })
            (y * map_width + x)
            b
    go none h ne = tt
    go (some c) (v, at_v, in_table) ne = (
      v,
      get_elem?-set_ne s.bg (item.y * map_width + item.x) (y * map_width + x) m ne ∙ at_v,
      keeps v c in_table,
    )

store-cell :
    (item : Item) (bg : List ℕ) (v : ℕ)
    → item.x < map_width
    → item.y < map_height
    → length bg ≡ map_width * map_height
    → store bg (item.y * map_width + item.x) v ≡ ok (set bg (item.y * map_width + item.x) v)
unfolding store
store-cell item bg v px py len = rw (lt→ltb (item.y * map_width + item.x) (length bg) (omega arith))

put_tile_lem :
    (item : Item) (s : Mapping)
    → item.x < map_width
    → item.y < map_height
    → IsMapping s
    → ((put_tile item s ≡ throw too_many_unique) × IsFullFor item.code s)
      ⊎ ((s' : Mapping) × (put_tile item s ≡ ok s')
          × IsMapping s'
          × ((x y : ℕ) (before : Option ℕ)
              → x < map_width
              → Shows s (y * map_width + x) before
              → Shows s'
                  (y * map_width + x)
                  (if item.x == x && item.y == y then some item.code else before)))
unfolding put_tile
put_tile_lem item s px py shape = elim (Option-cases (find_mapping item.code s.map_bg 0)) [
  | inr (m, found) ↦
      let (j, at, lt, holds) = find_mapping_lem item.code s.map_bg 0 m found in
      let same : m ≡ j = omega arith in
      let byte : m % 256 ≡ m = mod-eq_of_lt (omega (arith, shape.even, shape.fits)) in
      let cell = item.y * map_width + item.x in
      inr (
        record s { bg = set s.bg cell m },
        rw (
          le→ltb map_width item.x (omega arith),
          le→ltb map_height item.y (omega arith),
          found,
          byte,
          store-cell item s.bg m px py shape.sized,
        ),
        record {
          pairs = shape.pairs;
          even = shape.even;
          fits = shape.fits;
          sized = length-set s.bg cell m ∙ shape.sized;
        },
        λ x y before qx shown.
            Shows-set s s.map_bg item m x y before shape.sized px py qx (λ i c e. e) (rw same holds)
              shown,
      )
  | inl missing ↦ elim (Bool-cases (leb 256 (length s.map_bg))) [
    | inl full ↦
        let many : 256 ≤ length s.map_bg = ground arith in
        inl (
          rw (
            le→ltb map_width item.x (omega arith),
            le→ltb map_height item.y (omega arith),
            missing,
            full,
          ),
          record {
            full = omega (arith, shape.even, shape.fits);
            others = find_mapping-none item.code s.map_bg 0 missing;
          },
        )
    | inr room ↦
        let n = length s.map_bg in
        let below : n < 256 = ground arith in
        let cell = item.y * map_width + item.x in
        let map_bg = s.map_bg ++ item.code ∷ item.code ∷ [] in
        inr (
          record { map_bg = map_bg; bg = set s.bg cell n },
          rw (
            le→ltb map_width item.x (omega arith),
            le→ltb map_height item.y (omega arith),
            missing,
            room,
            (let byte : n % 256 ≡ n = mod-eq_of_lt below in byte),
            store-cell item s.bg n px py shape.sized,
          ),
          record {
            pairs = shape.pairs + 1;
            even = omega (arith, shape.even, length-append s.map_bg (item.code ∷ item.code ∷ []));
            fits = omega (arith, shape.even);
            sized = length-set s.bg cell n ∙ shape.sized;
          },
          λ x y before qx shown.
              Shows-set s map_bg item n x y before shape.sized px py qx
                (λ i c e. get_elem?-append s.map_bg (item.code ∷ item.code ∷ []) i c e)
                (get_elem?-append_length s.map_bg item.code (item.code ∷ [])) shown,
        )
  ]
]

-- The table and the background start as a table of at most 256 entries in pairs and a background of
-- 256 x 256 bytes, and the items lie in the grid. Either putting them throws that there are too many
-- tiles, the items up to some item can be put, and the table that this gives has all its 256 entries
-- and none for the code of that item; or all items are put. In that case the result is again such a
-- table and such a background, and the byte of every cell with an item leads, by the table, to the
-- code of the last item there. A cell without one still leads to what it led to.
pub put_tiles-Shows :
    (items : List Item) (s : Mapping)
    → InGrid map_width map_height items
    → IsMapping s
    → ((put_tiles items s ≡ throw too_many_unique) × RunsOut items s)
      ⊎ ((s' : Mapping) × (put_tiles items s ≡ ok s')
          × IsMapping s'
          × ((x y : ℕ) (before : Option ℕ)
              → x < map_width
              → Shows s (y * map_width + x) before
              → Shows s' (y * map_width + x) (last_code before items x y)))
unfolding put_tiles last_code
put_tiles-Shows [] s inside shape = inr (s, refl, shape, λ x y before qx shown. shown)
put_tiles-Shows (item ∷ items) s ((px, py), inside) shape = elim (put_tile_lem item s px py shape) [
  | inl (full, no_room) ↦ inl (
    rw full,
    record {
      front = [];
      item = item;
      back = items;
      reached = s;
      split_lem = refl;
      puts = refl;
      no_room = no_room;
    },
  )
  | inr (s', puts, shape', shows) ↦ elim (put_tiles-Shows items s' inside shape') [
    | inl (full, out) ↦ inl (
      rw puts full,
      record {
        front = item ∷ out.front;
        item = out.item;
        back = out.back;
        reached = out.reached;
        split_lem = ap (λ l. item ∷ l) out.split_lem;
        puts = rw puts out.puts;
        no_room = out.no_room;
      },
    )
    | inr (s'', later, shape'', shows') ↦ inr (
      s'',
      rw puts later,
      shape'',
      λ x y before qx shown. shows' x y _ qx (shows x y before qx shown),
    )
  ]
]
