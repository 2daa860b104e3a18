-- ===== src/Format/Nukem2/Attributes.antt =====
-- The attributes of a Duke Nukem II level, src/fmt-map-nukem2.cpp: six filenames, a byte of flags and
-- a number. `open` keeps them all in one variable `attr`, whose fields stay as they are until they
-- are set again, and copies it into the list each time.
use libgamemaps.Prelude.{
  ℕ, ◌-◌, ◌*◌, ◌/◌, ◌%◌, ◌^◌, bit_or, none, some, List, [], ◌∷◌, ◌++◌, length, replicate, get_elem?,
  ltb, ◌==◌, if◌then◌else◌,
}
use Prim.Native.String.{String}
use libgamemaps.Result.{Result, ok, throw, undefined, string_too_long, ◌>>=◌}
use libgamemaps.Stream.{Streams}
use libgamemaps.Map2D.{
  integer, enum, filename, Attribute, GraphicsFilename, background_tileset1, background_image,
}

-- `substr(0, find_last_not_of(' ') + 1)`: the text without the spaces at its end.
unfoldable pub trim_one : ℕ → List ℕ → List ℕ
trim_one b [] = if b == b' ' then [] else b ∷ []
trim_one b (c ∷ later) = b ∷ c ∷ later

unfoldable pub trim_spaces : List ℕ → List ℕ
trim_spaces [] = []
trim_spaces (b ∷ bs) = trim_one b (trim_spaces bs)

-- `val += std::string(padamt, ' ')`: a negative number of spaces is more than a string can hold.
unfoldable pub pad_spaces : List ℕ → Result (List ℕ)
pad_spaces val =
    if ltb 12 (length val)
    then throw string_too_long
    else ok (val ++ replicate (12 - length val) b' ')

unfoldable pub filename_attribute : Attribute → String → String → List ℕ → String → Attribute
filename_attribute attr name desc value extension = record attr {
  type = filename;
  name = name;
  desc = desc;
  filename_value = value;
  filename_valid_extension = extension;
}

-- The names of the values are pushed behind those of the attribute before.
unfoldable pub enum_attribute : Attribute → String → String → ℕ → List String → Attribute
enum_attribute attr name desc value names = record attr {
  type = enum;
  name = name;
  desc = desc;
  enum_value = value;
  enum_value_names = attr.enum_value_names ++ names;
}

-- The attributes 3 to 7, after `attr` was used for the filenames, and what `attr` is then.
unfoldable pub flag_attributes : Attribute → ℕ → ℕ → List Attribute × Attribute
flag_attributes attr flags alt_back =
    let use_alt =
      enum_attribute attr "Use alt backdrop?" "When should the alternate backdrop file be used?"
        (flags / 2 ^ 6 % 4)
        ("Never" ∷ "After destroying force field" ∷ "After teleporting"
          ∷ "Both? (this value has an unknown/untested effect)" ∷ []) in
    let quake =
      enum_attribute use_alt "Earthquake" "Should the level shake like there is an earthquake?"
        (flags / 2 ^ 5 % 2) ("No" ∷ "Yes" ∷ []) in
    let scroll =
      enum_attribute quake "Backdrop movement"
        "Should the backdrop move when the player is stationary?" (flags / 2 ^ 3 % 4)
        ("No" ∷ "Scroll left" ∷ "Scroll up" ∷ "3 (this value has an unknown/untested effect)"
          ∷ []) in
    let parallax =
      enum_attribute scroll "Parallax" "How should the backdrop scroll when the player moves?"
        (flags % 4)
        ("Fixed - no movement" ∷ "Horizontal and vertical movement" ∷ "Horizontal movement only"
          ∷ "3 (this value has an unknown/untested effect)" ∷ []) in
    let alt = record parallax {
      type = integer;
      name = "Alt backdrop";
      desc = "Number of alternate backdrop file (DROPx.MNI)";
      integer_value = alt_back;
      integer_min_value = 1;
      integer_max_value = 24;
    } in
    (use_alt ∷ quake ∷ scroll ∷ parallax ∷ alt ∷ [], alt)

-- `map->attributes[index]`: undefined behaviour past the end.
unfoldable pub attribute_entry : List Attribute → ℕ → Result Attribute
attribute_entry attributes index = elim (get_elem? attributes index) [
  | none ↦ undefined
  | some attr ↦ ok attr
]

-- The byte of flags that `write` makes of the attributes 3 to 6.
unfoldable pub attribute_flags : List Attribute → Result ℕ
attribute_flags attributes = do
  use_alt ← attribute_entry attributes 3
  let with_alt = bit_or 0 (use_alt.enum_value * 2 ^ 6 % 2 ^ 32) % 256
  quake ← attribute_entry attributes 4
  let with_quake = bit_or with_alt (quake.enum_value * 2 ^ 5 % 2 ^ 32) % 256
  scroll ← attribute_entry attributes 5
  let with_scroll = bit_or with_quake (scroll.enum_value * 2 ^ 3 % 2 ^ 32) % 256
  parallax ← attribute_entry attributes 6
  ok (bit_or with_scroll parallax.enum_value % 256)

-- The body of the constructor Map2D_Nukem2: a file whose name is empty is left out.
unfoldable pub graphics_file : ℕ → String → List ℕ → List (ℕ × GraphicsFilename)
graphics_file purpose type [] = []
graphics_file purpose type (b ∷ bs) = (purpose, record { filename = b ∷ bs; type = type }) ∷ []

unfoldable pub graphics_files : Attribute → Attribute → List (ℕ × GraphicsFilename)
graphics_files czone backdrop =
    graphics_file background_tileset1 "tls-nukem2-czone" czone.filename_value
    ++ graphics_file background_image "img-nukem2-backdrop" backdrop.filename_value

module _ (lib : Streams) where
  open lib use {Input, Output, read_null_padded, write_null_padded}

  -- One of the filenames of `open`.
  unfoldable pub read_filename :
      Attribute → String → String → String → Input → Result (Attribute × Input)
  read_filename attr name desc extension input = do
    (value, left) ← read_null_padded 13 input
    ok (filename_attribute attr name desc (trim_spaces value) extension, left)

  -- One of the first three filenames of `write`, padded with spaces.
  unfoldable pub write_filename : List Attribute → ℕ → Output → Result Output
  write_filename attributes index output = do
    attr ← attribute_entry attributes index
    val ← pad_spaces attr.filename_value
    write_null_padded val 13 output

  -- One of the last three, padded with nulls only.
  unfoldable pub write_unpadded : List Attribute → ℕ → Output → Result Output
  write_unpadded attributes index output = do
    attr ← attribute_entry attributes index
    write_null_padded attr.filename_value 13 output
