-- ===== src/Format/Sweeney/Opening.antt =====
-- Opening and recognising the bytes of a map of src/fmt-map-xargon.cpp without texts.
use libgamemaps.Prelude.{
  ℕ, ◌+◌, ◌-◌, ◌*◌, ◌/◌, ◌%◌, ◌^◌, ◌<◌, ◌≡◌, sym, ap, ◌∙◌, true, some, List, [], map, All, length,
  drop, replicate, length-replicate, append-nil, arith, le→ltb, ◌==◌,
}
use libgamemaps.Result.{ok, ◌>>=◌, >>=-eq-ok}
use libgamemaps.Stream.{Streams}
use libgamemaps.Stream.Bytes.{word_of_bytes}
use libgamemaps.Stream.Read.{from_start, skip_exactly}
use libgamemaps.Map2D.{Item, definitely_yes}
use libgamemaps.Map2D.Generic.{new_map2d}
use libgamemaps.Grid.Words.{AllWords}
use libgamemaps.Format.Sweeney.{
  SweeneyType, ImageMap, map_width, map_height, offset_objlayer, read_dma, read_columns,
  open_objects, open_map, is_instance,
}
use libgamemaps.Format.Sweeney.Columns.{read_columns-grid_items}
use libgamemaps.Format.Sweeney.Objects.{obj_entry_len, catch_short_read, read_strings, read_objects}
use libgamemaps.Format.Sweeney.Objects.Storing.{
  IsStorable, word_bytes, objects_bytes, length-objects_bytes, reopened, read_objects-objects_bytes,
}
use libgamemaps.Format.Sweeney.Map.{
  level_bytes, level_map, level, drop-level_bytes, drop-level_bytes_tiles, drop-level_bytes_saved,
  length-level_bytes,
}

module _ (lib : Streams) where
  open lib use {
    Input, Output, contents, rest, size, size_lem, seek_get, seek_get_lem, tell_get, tell_get_lem,
    read_u16le, read_u16le_lem, skip,
  }

  open_objects_steps :
      (format : SweeneyType) {n : ℕ} {objects : List Item} {s s1 s2 s3 s4 : Input}
      → read_u16le s ≡ ok (n, s1)
      → skip (n * obj_entry_len + format.len_savedata) s1 ≡ ok s2
      → seek_get (offset_objlayer + 2) s2 ≡ ok s3
      → read_objects lib n [] s3 ≡ ok (objects, s4)
      → tell_get s4 ≡ offset_objlayer + 2 + n * obj_entry_len
      → open_objects lib format (n * obj_entry_len + format.len_savedata) s ≡ ok objects
  unfolding open_objects read_strings catch_short_read
  open_objects_steps format {n} counts skips seeks reads tells =
      let off = n * obj_entry_len + format.len_savedata in
      let none_left : off - off ≡ 0 = omega arith in
      let there : (offset_objlayer + 2 + n * obj_entry_len
            == offset_objlayer + 2 + n * obj_entry_len)
          ≡ true =
        ground arith in
      rw
        (
          counts,
          le→ltb off (n * obj_entry_len) (omega arith),
          skips,
          le→ltb off off (omega arith),
          none_left,
        )
        (rw (seeks, reads, tells, there))

  -- The objects are read, and nothing is left for the texts.
  open_objects-level :
      (format : SweeneyType) (codes : List ℕ) (objects : List Item) (s : Input)
      → length codes ≡ map_width * map_height
      → length objects < 2 ^ 16
      → All (λ (obj : Item). IsStorable obj) objects
      → contents s ≡ level_bytes format codes objects
      → rest s
        ≡ word_bytes (length objects) (objects_bytes objects (replicate format.len_savedata 0))
      → open_objects lib format (length objects * obj_entry_len + format.len_savedata) s
        ≡ ok (map reopened objects)
  open_objects-level format codes objects s len fits storable whole e =
      let n = length objects in
      let saved = replicate format.len_savedata 0 in
      let left = objects_bytes objects saved in
      let left_len : length left ≡ n * obj_entry_len + format.len_savedata =
        length-objects_bytes objects saved
        ∙ ap (λ (k : ℕ). n * obj_entry_len + k) (length-replicate format.len_savedata 0) in
      let (s1, counts, c1, e1) = read_u16le_lem s (n % 256) (n / 256 % 256) left e in
      let (s2, skips, c2, e2) =
        skip_exactly lib (n * obj_entry_len + format.len_savedata) s1 left []
          (e1 ∙ sym (append-nil left)) left_len in
      let whole2 : contents s2 ≡ level_bytes format codes objects = c2 ∙ c1 ∙ whole in
      let (s3, seeks, c3, e3) =
        seek_get_lem (offset_objlayer + 2) s2
          (rw whole2 (omega (arith, length-level_bytes format codes objects len))) in
      let (s4, reads, c4, e4) =
        read_objects-objects_bytes lib objects saved s3 storable (
          e3
          ∙ ap (drop (offset_objlayer + 2)) whole2
          ∙ drop-level_bytes format codes objects len) in
      let whole4 : contents s4 ≡ level_bytes format codes objects = c4 ∙ c3 ∙ whole2 in
      let tells =
        tell_get_lem s4 (offset_objlayer + 2 + n * obj_entry_len)
          (rw whole4 (omega (arith, length-level_bytes format codes objects len)))
          (e4
            ∙ sym (drop-level_bytes_saved format codes objects len)
            ∙ ap (drop (offset_objlayer + 2 + n * obj_entry_len)) (sym whole4)) in
      open_objects_steps format (counts ∙ ap (λ (k : ℕ). ok (k, s1)) (word_of_bytes n fits)) skips
        seeks reads tells

  open_map_steps :
      (format : SweeneyType) {valid tiles objects : List Item} {img_map : ImageMap}
      {input dma dma' s1 s2 : Input} (left : ℕ)
      → seek_get 0 dma ≡ ok dma'
      → read_dma lib (size dma + 1) (size dma) [] dma' ≡ ok (some (valid, img_map))
      → size input ≡ offset_objlayer + 2 + left
      → seek_get 0 input ≡ ok s1
      → read_columns lib 0 map_width s1 ≡ ok (tiles, s2)
      → open_objects lib format left s2 ≡ ok objects
      → open_map lib format input (some dma) ≡ ok (level_map format valid tiles objects, img_map)
  unfolding open_map new_map2d
  open_map_steps format {input} left starts images total seeks reads opens =
      let len_map : size input - offset_objlayer - 2 ≡ left = omega (arith, total) in
      rw (
        starts,
        images,
        le→ltb (size input) (offset_objlayer + 2) (omega (arith, total)),
        seeks,
        reads,
        len_map,
        opens,
      )

  -- A file of such bytes opens, with the image map of the second file.
  pub open_map-level :
      (format : SweeneyType) (codes : List ℕ) (objects valid : List Item) (img_map : ImageMap)
      (input dma : Input)
      → length codes ≡ map_width * map_height
      → AllWords codes
      → length objects < 2 ^ 16
      → All (λ (obj : Item). IsStorable obj) objects
      → (seek_get 0 dma >>= read_dma lib (size dma + 1) (size dma) []) ≡ ok (some (valid, img_map))
      → contents input ≡ level_bytes format codes objects
      → open_map lib format input (some dma) ≡ ok (level format valid codes objects, img_map)
  open_map-level format codes objects valid img_map input dma len words fits storable images e =
      let n = length objects in
      let left = word_bytes n (objects_bytes objects (replicate format.len_savedata 0)) in
      let total : size input ≡ offset_objlayer + 2 + (n * obj_entry_len + format.len_savedata) =
        size_lem input ∙ ap length e ∙ length-level_bytes format codes objects len in
      let (s1, seeks, c1, e1) = from_start lib input in
      let (s2, reads, c2, e2) =
        read_columns-grid_items lib map_width codes left 0 s1 len words (e1 ∙ e) in
      let opens = open_objects-level format codes objects s2 len fits storable (c2 ∙ c1 ∙ e) e2 in
      let (dma', starts, images') = >>=-eq-ok (seek_get 0 dma) _ images in
      open_map_steps format (n * obj_entry_len + format.len_savedata) starts images' total seeks
        reads opens

  is_instance_steps :
      (format : SweeneyType) {n : ℕ} {input s1 s2 : Input}
      → size input ≡ offset_objlayer + 2 + (n * obj_entry_len + format.len_savedata)
      → seek_get offset_objlayer input ≡ ok s1
      → read_u16le s1 ≡ ok (n, s2)
      → is_instance lib format input ≡ ok definitely_yes
  unfolding is_instance
  is_instance_steps format {n} {input} total seeks counts =
      let off = offset_objlayer + 2 + n * obj_entry_len + format.len_savedata in
      let whole : (size input == off) ≡ true = ground (arith, total) in
      rw (le→ltb (size input) (offset_objlayer + 2) (omega (arith, total)), seeks, counts, whole)

  -- A file of such bytes is recognised.
  pub is_instance-level :
      (format : SweeneyType) (codes : List ℕ) (objects : List Item) (input : Input)
      → length codes ≡ map_width * map_height
      → length objects < 2 ^ 16
      → contents input ≡ level_bytes format codes objects
      → is_instance lib format input ≡ ok definitely_yes
  is_instance-level format codes objects input len fits e =
      let n = length objects in
      let total = length-level_bytes format codes objects len in
      let (s1, seeks, _, e1) =
        seek_get_lem offset_objlayer input (omega (arith, total, ap length e)) in
      let (s2, counts, _, _) =
        read_u16le_lem s1 (n % 256) (n / 256 % 256) _
          (e1 ∙ ap (drop offset_objlayer) e ∙ drop-level_bytes_tiles format codes objects len) in
      is_instance_steps format (size_lem input ∙ ap length e ∙ total) seeks
        (counts ∙ ap (λ (k : ℕ). ok (k, s2)) (word_of_bytes n fits))
