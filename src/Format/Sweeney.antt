-- ===== src/Format/Sweeney.antt =====
-- src/fmt-map-xargon.cpp: the maps of Jill of the Jungle and of Xargon, a grid of 128 x 64 words in
-- columns, a list of objects, the saved state of a game, and texts. A second file gives the image
-- of each map code.
pub mod Objects
pub mod Ends
mod Tests
pub mod Texts
pub mod RoundTrip
pub mod Map
pub mod Opening
pub mod Columns
use libgamemaps.Prelude.{
  ℕ, zero, suc, ◌+◌, ◌-◌, ◌*◌, ◌/◌, ◌%◌, ◌^◌, bit_or, ◌&&◌, Bool, Option, none, some, List, [], ◌∷◌,
  ◌++◌, length, replicate, ltb, leb, ◌==◌, if◌then◌else◌,
}
use mathlib.Core.Option
use libgamemaps.Result.{
  Result, ok, throw, undefined, assertion_failed, assert, check, not_implemented, wrong_layer_count,
  background_cut, objects_cut, text_missing, ◌>>=◌, ◌>>◌,
}
use libgamemaps.Stream.{Streams}
use libgamemaps.Map2D.{
  Item, default_item, codes, text_item, Layer, Map2D, ImageType, supplied, unknown, Certainty,
  definitely_no, definitely_yes, background_tileset1,
}
use libgamemaps.Map2D.MapCaps
use libgamemaps.Map2D.LayerCaps
use libgamemaps.Map2D.Generic.{new_map2d, get_layer_count, get_layer, cast_map2d}
use libgamemaps.Grid.{store}
use libgamemaps.Grid.Words.{write_words}
use libgamemaps.Graphics.{Graphics, TilesetCollection, image_entry, tileset_entry}
use Objects.{
  obj_entry_len, catch_short_read, read_strings, read_objects, write_objects, write_strings,
}

abbrev pub map_width : ℕ
map_width = 128

abbrev pub map_height : ℕ
map_height = 64

abbrev pub offset_objlayer : ℕ
offset_objlayer = map_width * map_height * 2

abbrev pub safety_max_strings : ℕ
safety_max_strings = 512

-- The members of MapType_Sweeney, which the constructors of the two formats set.
pub record SweeneyType : Type 0 where
  pub viewport_width : ℕ
  pub viewport_height : ℕ
  pub len_savedata : ℕ

-- MapType_Sweeney::image_map, the entries that were set last in front.
abbrev pub ImageMap : Type 0
ImageMap = List (ℕ × ℕ)

-- `(*imgMap)[code]`: a code without an entry gets the entry 0.
unfoldable pub image_of : ImageMap → ℕ → ℕ
image_of [] code = 0
image_of ((c, v) ∷ img_map) code = if c == code then v else image_of img_map code

-- Layer_SweeneyBackground
unfoldable pub background_layer : List Item → List Item → Layer
background_layer items valid_items = record {
  title = "Background";
  caps = LayerCaps.has_palette;
  width = 0;
  height = 0;
  tile_width = 0;
  tile_height = 0;
  items = items;
  valid_items = valid_items;
}

-- The clouds and the two texts.
pub valid_obj_items : List Item
valid_obj_items =
    default_item 0 0 0x33
    ∷ record (default_item 0 0 0) { type = text_item; text_content = codes "Small text" }
    ∷ record (default_item 0 0 0) { type = text_item; text_content = codes "Large text" }
    ∷ []

-- Layer_SweeneyObject
unfoldable pub object_layer : List Item → Layer
object_layer items = record {
  title = "Objects";
  caps = LayerCaps.has_own_tile_size + LayerCaps.has_palette;
  width = 0;
  height = 0;
  tile_width = 1;
  tile_height = 1;
  items = items;
  valid_items = valid_obj_items;
}

module _ (g : Graphics) where
  open g use {Tileset, Image, Palette, count, is_empty_slot, image_palette, tileset_palette}

  -- `tilesets[i]->getAttr() & Tileset::EmptySlot`, undefined behaviour past the end.
  unfoldable pub empty_slot : Tileset → ℕ → Result Bool
  empty_slot t i = if ltb i (count t) then ok (is_empty_slot t i) else undefined

  -- The body of Layer_SweeneyBackground::imageFromCode() from the tileset on.
  unfoldable pub image_in_tileset : Tileset → ℕ → Result (ImageType × Option Image)
  image_in_tileset t v = do
    let ti = v / 2 ^ 8 % 256
    let i = v % 256
    no_tileset ← empty_slot t ti
    if no_tileset then ok (unknown, none) else do
      tls ← tileset_entry g t ti
      if leb (count tls) i then ok (unknown, none) else do
        no_image ← empty_slot tls i
        if no_image
            then ok (unknown, none)
            else do image ← image_entry g tls i; ok (supplied, some image)

  -- Layer_SweeneyBackground::imageFromCode(), without its messages.
  unfoldable pub image_from_code :
      ImageMap → Item → TilesetCollection g → Result (ImageType × Option Image)
  image_from_code img_map item tilesets = elim (tilesets background_tileset1) [
    | none ↦ ok (unknown, none)
    | some t ↦ image_in_tileset t (image_of img_map (item.code % 2 ^ 12))
  ]

  -- Layer_SweeneyObject::imageFromCode()
  unfoldable pub object_image : Item → TilesetCollection g → Result (ImageType × Option Image)
  object_image item tilesets = ok (unknown, none)

  -- The palette of the image 5.0, if there is such an image and it has one.
  unfoldable pub tile_palette : Tileset → Result (Option Palette)
  tile_palette t = if leb (count t) 5 then ok none else do
    tls ← tileset_entry g t 5
    if leb (count tls) 0 then ok none else do img ← image_entry g tls 0; ok (image_palette img)

  -- getPalette() of both layers, without its message: the palette of that image, else the tileset's.
  unfoldable pub get_palette : TilesetCollection g → Result (Option Palette)
  get_palette tilesets = elim (tilesets background_tileset1) [
    | none ↦ ok none
    | some t ↦ do
      from_tile ← tile_palette t
      ok (elim from_tile [ some p ↦ some p | none ↦ tileset_palette t ])
  ]

module _ (lib : Streams) where
  open lib use {
    Input, Output, size, seek_get, skip, tell_get, read_u8, read_u16le, write, write_u16le, flush,
  }

  -- The loop of `isInstance` over the texts, `n` of them at most: whether it comes to the end of the
  -- file.
  unfoldable pub check_strings : ℕ → ℕ → ℕ → Input → Result Certainty
  check_strings zero len_map off_strings input = ok definitely_no
  check_strings (suc n) len_map off_strings input = do
    (len_str, input') ← read_u16le input
    let next = off_strings + len_str + 2 + 1
    let later = do input'' ← seek_get next input'; check_strings n len_map next input''
    if next == len_map
        then ok definitely_yes
        else if ltb len_map (next + 2)
        then ok definitely_no
        else later

  unfoldable pub is_instance : SweeneyType → Input → Result Certainty
  is_instance format input =
      let len_map = size input in
      if ltb len_map (offset_objlayer + 2) then ok definitely_no else do
        input1 ← seek_get offset_objlayer input
        (num_objects, input2) ← read_u16le input1
        let off_strings = offset_objlayer + 2 + num_objects * obj_entry_len + format.len_savedata
        if len_map == off_strings
            then ok definitely_yes
            else if ltb len_map (off_strings + 3)
            then ok definitely_no
            else do
              input3 ← seek_get off_strings input2
              check_strings safety_max_strings len_map off_strings input3

  unfoldable pub create : Result Map2D
  create = throw not_implemented

  -- The loop over the second file with `len` bytes left: the permitted tiles, and the image of each.
  -- A round takes 7 bytes at least, so the rounds are counted by `fuel`, and none says that it ran
  -- out. Where `len` would fall below 0 it is 0, and the loop ends as well.
  unfoldable pub read_dma : ℕ → ℕ → ImageMap → Input → Result (Option (List Item × ImageMap))
  read_dma zero len img_map dma = ok none
  read_dma (suc fuel) len img_map dma = do
    (map_code, dma1) ← read_u16le dma
    (tile, dma2) ← read_u8 dma1
    (tileset, dma3) ← read_u8 dma2
    (flags, dma4) ← read_u16le dma3
    (namelen, dma5) ← read_u8 dma4
    let img_map' = (map_code, bit_or (tileset % 64 * 2 ^ 8) tile) ∷ img_map
    left ← skip namelen dma5
    let valid = default_item 0 0 map_code
    let len' = len - (7 + namelen)
    let continued = do
      later ← read_dma fuel len' img_map' left
      ok (Option.map (λ (r : List Item × ImageMap). (valid ∷ r.0, r.1)) later)
    if ltb 7 len' then continued else ok (some (valid ∷ [], img_map'))

  -- The inner loop over the background, `n` cells of column `x` from row `y` on.
  unfoldable pub read_column : ℕ → ℕ → ℕ → Input → Result (List Item × Input)
  read_column x y zero input = ok ([], input)
  read_column x y (suc n) input = do
    (code, input') ← read_u16le input
    (tiles, left) ← read_column x (y + 1) n input'
    ok ((if code % 2 ^ 10 == 0 then tiles else default_item x y code ∷ tiles), left)

  -- The outer loop, `n` columns from column `x` on.
  unfoldable pub read_columns : ℕ → ℕ → Input → Result (List Item × Input)
  read_columns x zero input = ok ([], input)
  read_columns x (suc n) input = do
    (column, input') ← read_column x 0 map_height input
    (tiles, left) ← read_columns (x + 1) n input'
    ok (column ++ tiles, left)

  -- `open`, from the number of objects on: the objects, with the texts of the file.
  unfoldable pub open_objects : SweeneyType → ℕ → Input → Result (List Item)
  open_objects format len_map input = do
    (num_objects, input1) ← read_u16le input
    if ltb len_map (num_objects * obj_entry_len) then throw objects_cut else do
      let off_strings = num_objects * obj_entry_len + format.len_savedata
      input2 ← skip off_strings input1
      if ltb len_map off_strings then throw text_missing else do
        let left = len_map - off_strings
        strings ← catch_short_read (read_strings lib left left input2)
        texts ← elim strings [ none ↦ undefined | some texts ↦ ok texts ]
        input3 ← seek_get (offset_objlayer + 2) input2
        (objects, input4) ← read_objects lib num_objects texts input3
        assert (tell_get input4 == offset_objlayer + 2 + num_objects * obj_entry_len)
        ok objects

  -- The read position after the texts is not used, since the next step moves it. The image map
  -- goes into the two layers; it is the second part of the result here.
  unfoldable pub open_map : SweeneyType → Input → Option Input → Result (Map2D × ImageMap)
  open_map format input extra1 = do
    dma ← elim extra1 [ none ↦ assertion_failed | some f ↦ ok f ]
    dma' ← seek_get 0 dma
    read ← read_dma (size dma + 1) (size dma) [] dma'
    (valid_bg_items, img_map) ← elim read [ none ↦ undefined | some r ↦ ok r ]
    if ltb (size input) (offset_objlayer + 2) then throw background_cut else do
      input1 ← seek_get 0 input
      (tiles, input2) ← read_columns 0 map_width input1
      objects ← open_objects format (size input - offset_objlayer - 2) input2
      m ←
          new_map2d [] [] MapCaps.has_viewport format.viewport_width format.viewport_height
            map_width map_height 16 16
            (background_layer tiles valid_bg_items ∷ object_layer objects ∷ []) none
      ok (m, img_map)

  -- The loop over the items of the background in `write`.
  unfoldable pub put_tiles : List Item → List ℕ → Result (List ℕ)
  put_tiles [] bg = ok bg
  put_tiles (item ∷ items) bg = do
    assert (ltb item.x map_width && ltb item.y map_height)
    bg' ← store bg (item.x * map_height + item.y) (item.code % 2 ^ 16)
    put_tiles items bg'

  -- The loop that writes the saved state, `n` bytes 0.
  unfoldable pub write_savedata : ℕ → Output → Result Output
  write_savedata zero output = ok output
  write_savedata (suc n) output = do output' ← write (0 ∷ []) output; write_savedata n output'

  unfoldable pub write_map : SweeneyType → Option Map2D → Output → Result Output
  write_map format map output = do
    m ← cast_map2d map
    check (get_layer_count m == 2) wrong_layer_count
    bg_layer ← get_layer m 0
    bg ← put_tiles bg_layer.items (replicate (map_width * map_height) 0)
    output1 ← write_words lib bg output
    obj_layer ← get_layer m 1
    output2 ← write_u16le (length obj_layer.items % 2 ^ 16) output1
    output3 ← write_objects lib obj_layer.items output2
    output4 ← write_savedata format.len_savedata output3
    output5 ← write_strings lib obj_layer.items output4
    flush output5
