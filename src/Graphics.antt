-- ===== src/Graphics.antt =====
-- Tilesets of libgamegraphics, which this repository only calls, and the lookup of a tile's image
-- that most layers share.
use libgamemaps.Prelude.{ℕ, Bool, ◌≤◌, ◌<◌, ◌≡◌, Option, none, some, arith, ltb, leb, if◌then◌else◌}
use libgamemaps.Result.{Result, ok, undefined, ◌>>=◌}
use libgamemaps.Map2D.{ImageType, supplied, unknown}

-- getItems().size(), openImage(images[i]), openTileset(images[i]) and the bit SubTileset of
-- images[i]->getAttr() of a tileset, for `i` in range.
pub record Graphics : Type 1 where
  pub Tileset : Type 0
  pub Image : Type 0
  pub count : Tileset → ℕ
  pub open_image : Tileset → ℕ → Image
  pub open_tileset : Tileset → ℕ → Tileset
  pub is_sub_tileset : Tileset → ℕ → Bool
  -- The bit EmptySlot of the same, and getPalette() where getCaps() has the bit HasPalette.
  pub Palette : Type 0
  pub is_empty_slot : Tileset → ℕ → Bool
  pub image_palette : Image → Option Palette
  pub tileset_palette : Tileset → Option Palette

module _ (g : Graphics) where
  open g use {Tileset, Image, count, open_image, open_tileset}

  -- TilesetCollection: the tileset for each purpose, none where the map has no such entry.
  abbrev pub TilesetCollection : Type 0
  TilesetCollection = ℕ → Option Tileset

  -- `images[index]` on the vector that getItems() returns: undefined behaviour past its end.
  unfoldable pub image_entry : Tileset → ℕ → Result Image
  image_entry t index = if ltb index (count t) then ok (open_image t index) else undefined

  unfoldable pub tileset_entry : Tileset → ℕ → Result Tileset
  tileset_entry t index = if ltb index (count t) then ok (open_tileset t index) else undefined

  -- The body of imageFromCode(): the tileset of a purpose, a test of the index, the image.
  unfoldable pub image_in : Tileset → ℕ → Result (ImageType × Option Image)
  unfolding image_entry
  image_in t index =
      if leb (count t) index
      then ok (unknown, none)
      else do image ← image_entry t index; ok (supplied, some image)

  unfoldable pub image_at : ℕ → ℕ → TilesetCollection → Result (ImageType × Option Image)
  unfolding image_in
  image_at purpose index tilesets = elim (tilesets purpose) [
    | none ↦ ok (unknown, none)
    | some t ↦ image_in t index
  ]

  -- The image is opened within the tileset, or none is supplied.
  pub image_at_present :
      (purpose index : ℕ) (tilesets : TilesetCollection) (t : Tileset)
      → tilesets purpose ≡ some t
      → index < count t
      → image_at purpose index tilesets ≡ ok (supplied, some (open_image t index))
  unfolding image_at
  image_at_present purpose index tilesets t e h = ground arith

  pub image_at_out_of_range :
      (purpose index : ℕ) (tilesets : TilesetCollection) (t : Tileset)
      → tilesets purpose ≡ some t
      → count t ≤ index
      → image_at purpose index tilesets ≡ ok (unknown, none)
  unfolding image_at
  image_at_out_of_range purpose index tilesets t e h = ground arith

  pub image_at_no_tileset :
      (purpose index : ℕ) (tilesets : TilesetCollection)
      → tilesets purpose ≡ none
      → image_at purpose index tilesets ≡ ok (unknown, none)
  unfolding image_at
  image_at_no_tileset purpose index tilesets e = ground arith
