-- ===== src/Format/Sweeney/Map.antt =====
-- The bytes of a map of src/fmt-map-xargon.cpp without texts, and the map that they open into.
use libgamemaps.Prelude.{
  ℕ, zero, suc, ◌+◌, ◌*◌, ◌%◌, ◌^◌, ◌<◌, ◌≡◌, refl, sym, ap, ◌∙◌, subst, none, some, List, [], ◌∷◌,
  ◌++◌, map, All, length, drop, drop-append, replicate, length-append, length-replicate,
  append_assoc, append-nil, arith,
}
use native.Mathlib.Nat.{mod-eq_of_lt}
use libgamemaps.Result.{ok}
use libgamemaps.Stream.{Streams}
use libgamemaps.Stream.Bytes.{words_bytes}
use libgamemaps.Stream.Write.{Holds, Holds-write, Holds-write_u16le, Holds-flush}
use libgamemaps.Map2D.{Item, Layer, Map2D}
use libgamemaps.Map2D.MapCaps
use libgamemaps.Map2D.Generic.{get_layer_count, get_layer, cast_map2d}
use libgamemaps.Grid.{grid_items}
use libgamemaps.Grid.Words.{Holds-write_words}
use libgamemaps.Format.Sweeney.{
  SweeneyType, map_width, map_height, offset_objlayer, background_layer, object_layer, put_tiles,
  write_savedata, write_map,
}
use libgamemaps.Format.Sweeney.Columns.{swapped, keep_tile}
use libgamemaps.Format.Sweeney.Objects.{obj_entry_len, write_strings}
use libgamemaps.Format.Sweeney.Objects.Storing.{
  IsStorable, word_bytes, objects_bytes, objects_bytes-append, length-objects_bytes, reopened,
  Holds-write_objects,
}

-- The bytes of a map with these tiles, column by column, and these objects.
abbrev pub level_bytes : SweeneyType → List ℕ → List Item → List ℕ
level_bytes format codes objects =
    words_bytes codes
    ++ word_bytes (length objects) (objects_bytes objects (replicate format.len_savedata 0))

-- The map that they open into.
abbrev pub level_map : SweeneyType → List Item → List Item → List Item → Map2D
level_map format valid tiles objects = record {
  attributes = [];
  graphics_filenames = [];
  caps = MapCaps.has_viewport;
  viewport_x = format.viewport_width;
  viewport_y = format.viewport_height;
  width = map_width;
  height = map_height;
  tile_width = 16;
  tile_height = 16;
  layers = background_layer tiles valid ∷ object_layer objects ∷ [];
  paths = none;
}

abbrev pub level : SweeneyType → List Item → List ℕ → List Item → Map2D
level format valid codes objects =
    level_map format valid (map swapped (grid_items keep_tile map_height 0 codes))
      (map reopened objects)

-- A map of the format's shape: two layers, and objects without texts that the file can hold.
pub record IsShaped (m : Map2D) (tiles objects : Layer) : Type 0 where
  pub two_layers : m.layers ≡ tiles ∷ objects ∷ []
  pub count_fits : length objects.items < 2 ^ 16
  pub all_storable : All (λ (obj : Item). IsStorable obj) objects.items

pub length-words_bytes : (codes : List ℕ) → length (words_bytes codes) ≡ length codes * 2
unfolding words_bytes
length-words_bytes [] = refl
length-words_bytes (c ∷ codes) = omega (arith, length-words_bytes codes)

-- The parts of a file as they are written, each behind those before.
level_parts :
    (n : ℕ) (tiles saved : List ℕ) (objects : List Item)
    → (tiles ++ word_bytes n [] ++ objects_bytes objects [] ++ saved)
      ≡ tiles ++ word_bytes n (objects_bytes objects saved)
level_parts n tiles saved objects =
    append_assoc (tiles ++ word_bytes n []) (objects_bytes objects []) saved
    ∙ append_assoc tiles (word_bytes n []) (objects_bytes objects [] ++ saved)
    ∙ ap (λ (l : List ℕ). tiles ++ word_bytes n l) (objects_bytes-append objects saved)

module _ (format : SweeneyType) (codes : List ℕ) (objects : List Item)
    (len : length codes ≡ map_width * map_height) where
  tiles_len : length (words_bytes codes) ≡ offset_objlayer
  tiles_len = omega (arith, length-words_bytes codes)

  pub drop-level_bytes_tiles :
      drop offset_objlayer (level_bytes format codes objects)
      ≡ word_bytes (length objects) (objects_bytes objects (replicate format.len_savedata 0))
  drop-level_bytes_tiles =
      drop-append offset_objlayer (words_bytes codes)
        (word_bytes (length objects) (objects_bytes objects (replicate format.len_savedata 0)))
        tiles_len

  pub drop-level_bytes :
      drop (offset_objlayer + 2) (level_bytes format codes objects)
      ≡ objects_bytes objects (replicate format.len_savedata 0)
  drop-level_bytes =
      let tiles = words_bytes codes in
      let count = word_bytes (length objects) [] in
      let left = objects_bytes objects (replicate format.len_savedata 0) in
      ap (drop (offset_objlayer + 2)) (sym (append_assoc tiles count left))
      ∙ drop-append (offset_objlayer + 2) (tiles ++ count) left
          (length-append tiles count ∙ ap (λ (k : ℕ). k + 2) tiles_len)

  pub drop-level_bytes_saved :
      drop (offset_objlayer + 2 + length objects * obj_entry_len) (level_bytes format codes objects)
      ≡ replicate format.len_savedata 0
  drop-level_bytes_saved =
      let tiles = words_bytes codes in
      let count = word_bytes (length objects) [] in
      let saved : List ℕ = replicate format.len_savedata 0 in
      ap (drop (offset_objlayer + 2 + length objects * obj_entry_len))
        (sym (level_parts (length objects) tiles saved objects))
      ∙ drop-append _ (tiles ++ count ++ objects_bytes objects []) saved (
          length-append (tiles ++ count) (objects_bytes objects [])
          ∙ omega (arith, length-append tiles count, tiles_len, length-objects_bytes objects []))

  pub length-level_bytes :
      length (level_bytes format codes objects)
      ≡ offset_objlayer + 2 + (length objects * obj_entry_len + format.len_savedata)
  length-level_bytes =
      let saved : List ℕ = replicate format.len_savedata 0 in
      let saved_len : length saved ≡ format.len_savedata = length-replicate format.len_savedata _ in
      length-append (words_bytes codes) (word_bytes (length objects) (objects_bytes objects saved))
      ∙ omega (arith, tiles_len, length-objects_bytes objects saved, saved_len)

module _ (lib : Streams) where
  open lib use {
    Input, Output, contents, rest, size, size_lem, seek_get, seek_get_lem, tell_get, tell_get_lem,
    read_u16le, read_u16le_lem, skip,
  }

  Holds-write_savedata :
      (n : ℕ) (bytes : List ℕ) (o : Output)
      → Holds lib bytes o
      → (o' : Output) × (write_savedata lib n o ≡ ok o') × Holds lib (bytes ++ replicate n 0) o'
  unfolding write_savedata
  Holds-write_savedata zero bytes o h = (o, refl, rw (append-nil bytes) h)
  Holds-write_savedata (suc n) bytes o h =
      let (o1, writes, h1) = Holds-write lib (0 ∷ []) h in
      let (o2, writes', h2) = Holds-write_savedata n _ o1 h1 in
      (o2, rw writes writes', rw (append_assoc bytes (0 ∷ []) (replicate n 0)) at h2)

  write_strings_none :
      (objects : List Item) (o : Output)
      → All (λ (obj : Item). IsStorable obj) objects
      → write_strings lib objects o ≡ ok o
  unfolding write_strings
  write_strings_none [] o fits = refl
  write_strings_none (obj ∷ objects) o (fit, fits) =
      rw fit.no_text (write_strings_none objects o fits)

  pub write_map-level :
      {m : Map2D} {tiles objects : Layer} (format : SweeneyType) (codes : List ℕ) (o : Output)
      → IsShaped m tiles objects
      → Holds lib [] o
      → put_tiles lib tiles.items (replicate (map_width * map_height) 0) ≡ ok codes
      → (o' : Output) × (write_map lib format (some m) o ≡ ok o')
        × Holds lib (level_bytes format codes objects.items) o'
  unfolding write_map cast_map2d get_layer_count get_layer
  write_map-level {m} {tiles} {objects} format codes o shape fresh painted =
      let (o1, writes1, h1) = Holds-write_words lib codes [] o fresh in
      let (o2, writes2, h2) = Holds-write_u16le lib (length objects.items % 2 ^ 16) h1 in
      let (o3, writes3, h3) = Holds-write_objects lib objects.items _ o2 shape.all_storable h2 in
      let (o4, writes4, h4) = Holds-write_savedata format.len_savedata _ o3 h3 in
      let (o5, flushes, h5) = Holds-flush lib h4 in
      let no_texts = write_strings_none objects.items o4 shape.all_storable in
      (
        o5,
        rw (shape.two_layers, painted, writes1, writes2, writes3, writes4, no_texts) flushes,
        subst (λ l. Holds lib l o5)
            (level_parts (length objects.items % 2 ^ 16) (words_bytes codes)
                (replicate format.len_savedata 0) objects.items
              ∙ ap
                  (λ (n : ℕ).
                    words_bytes codes
                    ++ word_bytes n (objects_bytes objects.items (replicate format.len_savedata 0)))
                  (mod-eq_of_lt shape.count_fits))
            h5,
      )
