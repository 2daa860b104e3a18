-- ===== src/Format/Got/Images.antt =====
-- The images of the items of a God of Thunder level.
use libgamemaps.Prelude.{
  ℕ, ◌+◌, ◌-◌, ◌&&◌, Option, none, some, List, [], ◌∷◌, get_elem?, ltb, leb, if◌then◌else◌,
}
use libgamemaps.Result.{Result, ok, undefined, ◌>>=◌}
use libgamemaps.Map2D.{
  Item, ImageType, supplied, unknown, digit0, digit1, digit2, digit3, digit4, digit5, digit6,
  digit7, digit8, digit9, background_tileset1, foreground_tileset1, foreground_tileset2,
}
use libgamemaps.Graphics.{Graphics, TilesetCollection, image_at, image_entry, tileset_entry}

abbrev pub max_songs : ℕ
max_songs = 10

-- Digit0 and the nine types after it.
abbrev pub digits : List ImageType
digits =
    digit0 ∷ digit1 ∷ digit2 ∷ digit3 ∷ digit4 ∷ digit5 ∷ digit6 ∷ digit7 ∷ digit8 ∷ digit9 ∷ []

module _ (g : Graphics) where
  open g use {Tileset, Image, count, open_tileset}

  -- Layer_GOTBackground::imageFromCode()
  unfoldable pub background_image_from_code :
      Item → TilesetCollection g → Result (ImageType × Option Image)
  background_image_from_code item tilesets = image_at g background_tileset1 item.code tilesets

  -- Layer_GOTFlags::imageFromCode(): a digit for a song.
  unfoldable pub flags_image : Item → TilesetCollection g → Result (ImageType × Option Image)
  flags_image item tilesets =
      if leb 256 item.code && ltb item.code (256 + max_songs)
      then elim (get_elem? digits (item.code - 256)) [
        | some digit ↦ ok (digit, none)
        | none ↦ undefined
      ]
      else image_at g background_tileset1 item.code tilesets

  -- The first image of the tileset of an actor; `ts[item->code]` is not tested. The branch for a
  -- nested tileset that cannot be opened is left out, since the parameter opens each.
  unfoldable pub actor_in : Tileset → ℕ → Result (ImageType × Option Image)
  actor_in t code = do
    tsub ← tileset_entry g t code
    if leb (count tsub) code
        then ok (unknown, none)
        else do image ← image_entry g tsub 0; ok (supplied, some image)

  -- Layer_GOTActor::imageFromCode()
  unfoldable pub actor_image : Item → TilesetCollection g → Result (ImageType × Option Image)
  actor_image item tilesets = elim (tilesets foreground_tileset1) [
    | none ↦ ok (unknown, none)
    | some t ↦ actor_in t item.code
  ]

  -- Layer_GOTObject::imageFromCode()
  unfoldable pub object_image : Item → TilesetCollection g → Result (ImageType × Option Image)
  object_image item tilesets = image_at g foreground_tileset2 item.code tilesets
