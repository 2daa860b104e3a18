-- ===== src/Format/Sweeney/Objects/Storing.antt =====
-- The 31 bytes that an object of src/fmt-map-xargon.cpp is written as, and what they are read as.
use libgamemaps.Prelude.{
  ℕ, ◌+◌, ◌*◌, ◌/◌, ◌%◌, ◌^◌, ◌<◌, ◌≡◌, refl, ap, ◌∙◌, false, bit_or, bit_or-shifted, List, [], ◌∷◌,
  ◌++◌, map, All, length, append_assoc, append-nil, arith, if◌then◌else◌,
}
use libgamemaps.Result.{ok}
use libgamemaps.Stream.{Streams}
use libgamemaps.Stream.Bytes.{word_of_bytes}
use libgamemaps.Stream.Write.{Holds, Holds-write_u8, Holds-write_u16le, Holds-write_u32le}
use libgamemaps.Map2D.{Item, default_item}
use libgamemaps.Format.Sweeney.Objects.{
  obj_entry_len, with_movement, with_text, object_of, is_text, is_moving, read_object, read_objects,
  write_object, write_objects,
}

-- The speeds that `write` stores.
abbrev pub speed_x : Item → ℕ
speed_x obj = if is_moving obj then obj.movement_speed_x else 0

abbrev pub speed_y : Item → ℕ
speed_y obj = if is_moving obj then obj.movement_speed_y else 0

-- The numbers of an object fit into the fields of the file, and it has no text.
pub record IsStorable (obj : Item) : Type 0 where
  pub code_fits : obj.code < 2 ^ 24
  pub x_fits : obj.x < 2 ^ 16
  pub y_fits : obj.y < 2 ^ 16
  pub speed_x_fits : speed_x obj < 2 ^ 16
  pub speed_y_fits : speed_y obj < 2 ^ 16
  pub no_text : is_text obj ≡ false

abbrev pub word_bytes : ℕ → List ℕ → List ℕ
word_bytes v back = v % 256 ∷ v / 256 % 256 ∷ back

-- The bytes of an object without a text, and those behind it.
abbrev pub object_bytes : Item → List ℕ → List ℕ
object_bytes obj back =
    obj.code % 256 % 256
    ∷ word_bytes obj.x (
        word_bytes obj.y (
          word_bytes (speed_x obj) (
            word_bytes (speed_y obj) (
              word_bytes 16 (
                word_bytes 16 (
                  word_bytes (obj.code / 2 ^ 8)
                    (0 ∷ 0 ∷ 0 ∷ 0 ∷ 0 ∷ 0 ∷ 0 ∷ 0 ∷ 0 ∷ 0 ∷ 0 ∷ 0 ∷ 0 ∷ 0 ∷ 0 ∷ 0 ∷ back)))))))

-- The object that those bytes are read as.
abbrev pub reopened : Item → Item
reopened obj = with_movement (speed_x obj) (speed_y obj) (default_item obj.x obj.y obj.code)

abbrev pub objects_bytes : List Item → List ℕ → List ℕ
objects_bytes [] back = back
objects_bytes (obj ∷ objects) back = object_bytes obj (objects_bytes objects back)

pub objects_bytes-append :
    (objects : List Item) (back : List ℕ)
    → objects_bytes objects [] ++ back ≡ objects_bytes objects back
objects_bytes-append [] back = refl
objects_bytes-append (obj ∷ objects) back =
    ap (object_bytes obj) (objects_bytes-append objects back)

pub length-objects_bytes :
    (objects : List Item) (back : List ℕ)
    → length (objects_bytes objects back) ≡ length objects * obj_entry_len + length back
length-objects_bytes [] back = omega arith
length-objects_bytes (obj ∷ objects) back = omega (arith, length-objects_bytes objects back)

module _ (lib : Streams) where
  open lib use {
    Input, Output, contents, rest, read_u16le_lem, write_u16le, read_u8, read_u16le, read_u32le,
    read_u8_lem, read_u32le_lem,
  }

  -- A word behind `front`, which has been written behind `bytes`.
  word_after :
      (bytes front : List ℕ) {o : Output} (v : ℕ)
      → Holds lib (bytes ++ front) o
      → (o' : Output) × (write_u16le v o ≡ ok o')
        × Holds lib (bytes ++ (front ++ word_bytes v [])) o'
  word_after bytes front v h =
      let (o', writes, h') = Holds-write_u16le lib v h in
      (o', writes, rw (append_assoc bytes front (word_bytes v [])) at h')

  Holds-write_object :
      (obj : Item) (bytes : List ℕ) (o : Output)
      → is_text obj ≡ false
      → Holds lib bytes o
      → (o' : Output) × (write_object lib obj o ≡ ok o')
        × Holds lib (bytes ++ object_bytes obj []) o'
  unfolding write_object
  Holds-write_object obj bytes o plain h =
      let (o1, writes1, h1) = Holds-write_u8 lib (obj.code % 256) bytes o h in
      let (o2, writes2, h2) = word_after bytes (obj.code % 256 % 256 ∷ []) obj.x h1 in
      let (o3, writes3, h3) = word_after bytes _ obj.y h2 in
      let (o4, writes4, h4) = word_after bytes _ (speed_x obj) h3 in
      let (o5, writes5, h5) = word_after bytes _ (speed_y obj) h4 in
      let (o6, writes6, h6) = word_after bytes _ 16 h5 in
      let (o7, writes7, h7) = word_after bytes _ 16 h6 in
      let (o8, writes8, h8) = word_after bytes _ (obj.code / 2 ^ 8) h7 in
      let (o9, writes9, h9) = word_after bytes _ 0 h8 in
      let (o10, writes10, h10) = word_after bytes _ 0 h9 in
      let (o11, writes11, h11) = word_after bytes _ 0 h10 in
      let (o12, writes12, h12) = word_after bytes _ 0 h11 in
      let (o13, writes13, h13) = Holds-write_u32le lib 0 h12 in
      let h13' = rw (append_assoc bytes _ (0 ∷ 0 ∷ 0 ∷ 0 ∷ [])) at h13 in
      let (o14, writes14, h14) = word_after bytes _ 0 h13' in
      let (o15, writes15, h15) = word_after bytes _ 0 h14 in
      (
        o15,
        rw (writes1, writes2, writes3, writes4, writes5, writes6, writes7, writes8)
            (rw (writes9, writes10, writes11, writes12, plain, writes13, writes14) writes15),
        h15,
      )

  read_object-steps :
      {code x y spd_horiz spd_vert sub_type : ℕ}
      {s s1 s2 s3 s4 s5 s6 s7 s8 s9 s10 s11 s12 s13 s14 s15 : Input}
      → read_u8 s ≡ ok (code, s1)
      → read_u16le s1 ≡ ok (x, s2)
      → read_u16le s2 ≡ ok (y, s3)
      → read_u16le s3 ≡ ok (spd_horiz, s4)
      → read_u16le s4 ≡ ok (spd_vert, s5)
      → read_u16le s5 ≡ ok (16, s6)
      → read_u16le s6 ≡ ok (16, s7)
      → read_u16le s7 ≡ ok (sub_type, s8)
      → read_u16le s8 ≡ ok (0, s9)
      → read_u16le s9 ≡ ok (0, s10)
      → read_u16le s10 ≡ ok (0, s11)
      → read_u16le s11 ≡ ok (0, s12)
      → read_u32le s12 ≡ ok (0, s13)
      → read_u16le s13 ≡ ok (0, s14)
      → read_u16le s14 ≡ ok (0, s15)
      → read_object lib [] s
        ≡ ok (
          with_movement spd_horiz spd_vert (default_item x y (bit_or code (sub_type * 2 ^ 8))),
          [],
          s15,
        )
  unfolding read_object object_of with_text
  read_object-steps h1 h2 h3 h4 h5 h6 h7 h8 h9 h10 h11 h12 h13 h14 h15 =
      rw (h1, h2, h3, h4, h5) (rw (h6, h7, h8, h9, h10) (rw (h11, h12, h13, h14, h15)))

  pub read_word_on :
      (s : Input) (v : ℕ) (back : List ℕ)
      → v < 2 ^ 16
      → rest s ≡ word_bytes v back
      → (s' : Input) × (read_u16le s ≡ ok (v, s')) × (contents s' ≡ contents s) × (rest s' ≡ back)
  read_word_on s v back fits e =
      rw (word_of_bytes v fits) at (read_u16le_lem s (v % 256) (v / 256 % 256) back e)

  read_object-object_bytes :
      (obj : Item) (back : List ℕ) (s : Input)
      → IsStorable obj
      → rest s ≡ object_bytes obj back
      → (s' : Input) × (read_object lib [] s ≡ ok (reopened obj, [], s'))
        × (contents s' ≡ contents s)
        × (rest s' ≡ back)
  read_object-object_bytes obj back s fits e =
      let (s1, reads1, c1, e1) = read_u8_lem s (obj.code % 256 % 256) _ e in
      let (s2, reads2, c2, e2) = read_word_on s1 obj.x _ fits.x_fits e1 in
      let (s3, reads3, c3, e3) = read_word_on s2 obj.y _ fits.y_fits e2 in
      let (s4, reads4, c4, e4) = read_word_on s3 (speed_x obj) _ fits.speed_x_fits e3 in
      let (s5, reads5, c5, e5) = read_word_on s4 (speed_y obj) _ fits.speed_y_fits e4 in
      let (s6, reads6, c6, e6) = read_word_on s5 16 _ (omega arith) e5 in
      let (s7, reads7, c7, e7) = read_word_on s6 16 _ (omega arith) e6 in
      let (s8, reads8, c8, e8) =
        read_word_on s7 (obj.code / 2 ^ 8) _ (omega (arith, fits.code_fits)) e7 in
      let (s9, reads9, c9, e9) = read_word_on s8 0 _ (omega arith) e8 in
      let (s10, reads10, c10, e10) = read_word_on s9 0 _ (omega arith) e9 in
      let (s11, reads11, c11, e11) = read_word_on s10 0 _ (omega arith) e10 in
      let (s12, reads12, c12, e12) = read_word_on s11 0 _ (omega arith) e11 in
      let (s13, reads13, c13, e13) = read_u32le_lem s12 0 0 0 0 _ e12 in
      let (s14, reads14, c14, e14) = read_word_on s13 0 _ (omega arith) e13 in
      let (s15, reads15, c15, e15) = read_word_on s14 0 _ (omega arith) e14 in
      let code : bit_or (obj.code % 256 % 256) (obj.code / 2 ^ 8 * 2 ^ 8) ≡ obj.code =
        bit_or-shifted 8 (obj.code % 256 % 256) (obj.code / 2 ^ 8) (omega arith) ∙ omega arith in
      (
        s15,
        read_object-steps reads1 reads2 reads3 reads4 reads5 reads6 reads7 reads8 reads9 reads10
              reads11 reads12 reads13 reads14 reads15
            ∙ ap
                (λ (c : ℕ).
                  ok (
                    with_movement (speed_x obj) (speed_y obj) (default_item obj.x obj.y c),
                    [],
                    s15,
                  ))
                code,
        c15 ∙ c14 ∙ c13 ∙ c12 ∙ c11 ∙ c10 ∙ c9 ∙ c8 ∙ c7 ∙ c6 ∙ c5 ∙ c4 ∙ c3 ∙ c2 ∙ c1,
        e15,
      )

  pub Holds-write_objects :
      (objects : List Item) (bytes : List ℕ) (o : Output)
      → All (λ (obj : Item). IsStorable obj) objects
      → Holds lib bytes o
      → (o' : Output) × (write_objects lib objects o ≡ ok o')
        × Holds lib (bytes ++ objects_bytes objects []) o'
  unfolding write_objects
  Holds-write_objects [] bytes o fits h = (o, refl, rw (append-nil bytes) h)
  Holds-write_objects (obj ∷ objects) bytes o (fit, fits) h =
      let (o1, writes1, h1) = Holds-write_object obj bytes o fit.no_text h in
      let (o2, writes2, h2) = Holds-write_objects objects _ o1 fits h1 in
      (
        o2,
        rw writes1 writes2,
        rw (append_assoc bytes (object_bytes obj []) (objects_bytes objects [])) at h2,
      )

  pub read_objects-objects_bytes :
      (objects : List Item) (back : List ℕ) (s : Input)
      → All (λ (obj : Item). IsStorable obj) objects
      → rest s ≡ objects_bytes objects back
      → (s' : Input) × (read_objects lib (length objects) [] s ≡ ok (map reopened objects, s'))
        × (contents s' ≡ contents s)
        × (rest s' ≡ back)
  unfolding read_objects
  read_objects-objects_bytes [] back s fits e = (s, refl, refl, e)
  read_objects-objects_bytes (obj ∷ objects) back s (fit, fits) e =
      let (s1, reads1, c1, e1) = read_object-object_bytes obj _ s fit e in
      let (s2, reads2, c2, e2) = read_objects-objects_bytes objects back s1 fits e1 in
      (s2, rw (reads1, reads2), c2 ∙ c1, e2)
