-- ===== src/Format/DarkAges/Tiles.antt =====
-- Layer_DarkAgesBackground::imageFromCode() of src/fmt-map-darkages.cpp: tilesets within tilesets.
use libgamemaps.Prelude.{
  ℕ, ◌-◌, ◌/◌, ◌%◌, ◌≤◌, ◌+◌, ◌*◌, ◌<◌, ◌≡◌, ◌∙◌, ◌⊎◌, inl, inr, false, refl, holds_below,
  holds_below-lt, Bool, true, ◌&&◌, Option, none, some, List, [], ◌∷◌, get_elem?, arith, ltb, leb,
  if◌then◌else◌,
}
use libgamemaps.Result.{Result, ok, ◌>>=◌}
use libgamemaps.Map2D.{Item, ImageType, supplied, unknown, background_tileset1}
use libgamemaps.Graphics.{Graphics, TilesetCollection, tileset_entry, image_in}

-- The cases 100 to 143 of the switch: tileset index and image index.
abbrev pub special_tiles : List (ℕ × ℕ)
special_tiles =
    (3, 1)
    ∷ (3, 8)
    ∷ (3, 18)
    ∷ (3, 24)
    ∷ (3, 34)
    ∷ (3, 38)
    ∷ (3, 42)
    ∷ (3, 48)
    ∷ (4, 0)
    ∷ (4, 30)
    ∷ (4, 35)
    ∷ (4, 36)
    ∷ (4, 39)
    ∷ (4, 42)
    ∷ (4, 46)
    ∷ (5, 0)
    ∷ (5, 1)
    ∷ (5, 2)
    ∷ (5, 3)
    ∷ (5, 4)
    ∷ (3, 4)
    ∷ (3, 5)
    ∷ (3, 6)
    ∷ (3, 7)
    ∷ (5, 12)
    ∷ (5, 14)
    ∷ (5, 8)
    ∷ (5, 9)
    ∷ (5, 10)
    ∷ (5, 23)
    ∷ (5, 24)
    ∷ (5, 25)
    ∷ (2, 10)
    ∷ (5, 30)
    ∷ (5, 31)
    ∷ (5, 32)
    ∷ (5, 33)
    ∷ (5, 35)
    ∷ (5, 36)
    ∷ (5, 40)
    ∷ (3, 32)
    ∷ (5, 47)
    ∷ (3, 30)
    ∷ (6, 0)
    ∷ []

-- The switch: its table, and the default of 50 images to a tileset.
unfoldable pub tile_indices : ℕ → ℕ × ℕ
tile_indices code =
    if leb 100 code && ltb code 144
    then elim (get_elem? special_tiles (code - 100)) [ none ↦ (0, 0) | some indices ↦ indices ]
    else (code / 50, code % 50)

-- The indices of a code that fits a byte, as a test.
in_range : ℕ → Bool
unfolding tile_indices
in_range code = leb (tile_indices code).0 6 && leb (tile_indices code).1 49

in_range_table : holds_below in_range 256 ≡ true
unfolding holds_below in_range
in_range_table = refl

-- The switch sends every code of a file to one of the tilesets 0 to 6 and the images 0 to 49.
pub tile_indices_bounds :
    (code : ℕ) → code < 256 → ((tile_indices code).0 ≤ 6) × ((tile_indices code).1 ≤ 49)
tile_indices_bounds code h =
    split (tile_indices code) (unfold in_range in holds_below-lt in_range 256 code h in_range_table)
  where
    split :
        (indices : ℕ × ℕ)
        → (leb indices.0 6 && leb indices.1 49) ≡ true
        → (indices.0 ≤ 6) × (indices.1 ≤ 49)
    split (a, b) e = ground arith

-- Outside of the table the indices are those of an image among tilesets of 50.
tile_indices_plain :
    (code : ℕ)
    → (code < 100) ⊎ (144 ≤ code)
    → (tile_indices code).0 * 50 + (tile_indices code).1 ≡ code
unfolding tile_indices
tile_indices_plain code outside =
    let plain : (leb 100 code && ltb code 144) ≡ false = elim outside [
      | inl low ↦ ground arith
      | inr high ↦ ground arith
    ] in
    rw plain (omega arith)

module _ (g : Graphics) where
  open g use {Tileset, Image, count, open_tileset, open_image}

  -- The lookup below the tileset of the collection. `tilesets2[0]` is taken without a test.
  unfoldable pub nested_image : Tileset → ℕ × ℕ → Result (ImageType × Option Image)
  nested_image t (tileset_index, image_index) =
      if leb (count t) tileset_index then ok (unknown, none) else do
        tls ← tileset_entry g t tileset_index
        tls' ← tileset_entry g tls 0
        image_in g tls' image_index

  unfoldable pub image_from_code : Item → TilesetCollection g → Result (ImageType × Option Image)
  image_from_code item tilesets = elim (tilesets background_tileset1) [
    | none ↦ ok (unknown, none)
    | some t ↦ nested_image t (tile_indices item.code)
  ]

  -- A tileset with seven tilesets, each of which has a first tileset of at least 50 images.
  pub record IsWhole (t : Tileset) : Type 0 where
    pub seven : 7 ≤ count t
    pub first_there : (i : ℕ) → i ≤ 6 → 0 < count (open_tileset t i)
    pub fifty : (i : ℕ) → i ≤ 6 → 50 ≤ count (open_tileset (open_tileset t i) 0)

  nested_image_found :
      (t : Tileset) (a b : ℕ)
      → IsWhole t
      → a ≤ 6
      → b ≤ 49
      → nested_image t (a, b)
        ≡ ok (supplied, some (open_image (open_tileset (open_tileset t a) 0) b))
  unfolding nested_image tileset_entry image_in
  nested_image_found t a b whole small small' =
      let present : leb (count t) a ≡ false = ground (arith, whole.seven) in
      let inside : ltb a (count t) ≡ true = ground (arith, whole.seven) in
      let first : ltb 0 (count (open_tileset t a)) ≡ true =
        ground (arith, whole.first_there a small) in
      let second : ltb b (count (open_tileset (open_tileset t a) 0)) ≡ true =
        ground (arith, whole.fifty a small) in
      let enough : leb (count (open_tileset (open_tileset t a) 0)) b ≡ false =
        ground (arith, whole.fifty a small) in
      rw (present, inside, first, enough, second)

  image_from_code-nested_image :
      (item : Item) (tilesets : TilesetCollection g) (t : Tileset)
      → tilesets background_tileset1 ≡ some t
      → image_from_code item tilesets ≡ nested_image t (tile_indices item.code)
  unfolding image_from_code
  image_from_code-nested_image item tilesets t e = rw (e, image_from_code)

  -- In a tileset with seven tilesets, each of which has a first tileset of at least 50 images, the
  -- lookup finds an image for every code that a file can hold: it neither misses nor leaves an
  -- array. The image is one of the first 50 of the first tileset of one of the first seven tilesets,
  -- and for a code outside of the table, below 100 or from 144 on, the place of the image, counted
  -- through these tilesets in order, 50 to each, is the code itself.
  pub image_from_code_found :
      (item : Item) (tilesets : TilesetCollection g) (t : Tileset)
      → tilesets background_tileset1 ≡ some t
      → IsWhole t
      → item.code < 256
      → (a b : ℕ) × (a ≤ 6)
        × (b ≤ 49)
        × ((item.code < 100) ⊎ (144 ≤ item.code) → a * 50 + b ≡ item.code)
        × (image_from_code item tilesets
            ≡ ok (supplied, some (open_image (open_tileset (open_tileset t a) 0) b)))
  image_from_code_found item tilesets t e whole byte =
      let (small, small') = tile_indices_bounds item.code byte in
      (
        (tile_indices item.code).0,
        (tile_indices item.code).1,
        small,
        small',
        tile_indices_plain item.code,
        image_from_code-nested_image item tilesets t e
            ∙ nested_image_found t _ _ whole small small',
      )
