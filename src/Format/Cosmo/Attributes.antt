-- ===== src/Format/Cosmo/Attributes.antt =====
-- The attributes of a Cosmo level: six fields packed into the 16 bits of the file's flags.
use libgamemaps.Prelude.{
  ℕ, ◌*◌, ◌/◌, ◌%◌, ◌^◌, bit_or, none, some, List, [], ◌∷◌, get_elem?, ltb, if◌then◌else◌,
}
use Prim.Native.String.{String}
use libgamemaps.Result.{Result, ok, throw, wrong_attribute_count, wrong_attribute_type, ◌>>◌}
use libgamemaps.Map2D.{enum, codes, blank_attribute, Attribute, GraphicsFilename, background_image}

-- The backdrops.
abbrev pub backdrop_names : List String
backdrop_names =
    "0 - Blank (bdblank.mni)" ∷ "1 - Pipe (bdpipe.mni)" ∷ "2 - Red Sky (bdredsky.mni)"
    ∷ "3 - Rock (bdrocktk.mni)" ∷ "4 - Jungle (bdjungle.mni)" ∷ "5 - Star (bdstar.mni)"
    ∷ "6 - Weird (bdwierd.mni)" ∷ "7 - Cave (bdcave.mni)" ∷ "8 - Ice (bdice.mni)"
    ∷ "9 - Shrum (bdshrum.mni)" ∷ "10 - Tech (bdtechms.mni)" ∷ "11 - New sky (bdnewsky.mni)"
    ∷ "12 - Star 2 (bdstar2.mni)" ∷ "13 - Star 3 (bdstar3.mni)" ∷ "14 - Forest (bdforest.mni)"
    ∷ "15 - Mountain (bdmountn.mni)" ∷ "16 - Guts (bdguts.mni)" ∷ "17 - Broken Tech (bdbrktec.mni)"
    ∷ "18 - Clouds (bdclouds.mni)" ∷ "19 - Future city (bdfutcty.mni)" ∷ "20 - Ice 2 (bdice2.mni)"
    ∷ "21 - Cliff (bdcliff.mni)" ∷ "22 - Spooky (bdspooky.mni)" ∷ "23 - Crystal (bdcrystl.mni)"
    ∷ "24 - Circuit (bdcircut.mni)" ∷ "25 - Circuit PC (bdcircpc.mni)" ∷ []

-- No and yes.
abbrev pub yes_no : List String
yes_no = "No" ∷ "Yes" ∷ []

-- The palette animations.
abbrev pub pal_anim_names : List String
pal_anim_names =
    "0 - No animation" ∷ "1 - Lightning" ∷ "2 - Cycle: red -> yellow -> white"
    ∷ "3 - Cycle: red -> green -> blue" ∷ "4 - Cycle: black -> grey -> white"
    ∷ "5 - Flashing: red -> magenta -> white" ∷ "6 - Dark magenta -> black, bomb trigger"
    ∷ "7 - Unknown/unused" ∷ []

-- The songs.
abbrev pub music_names : List String
music_names =
    "0 - Caves (mcaves.mni)" ∷ "1 - Scarry (mscarry.mni)" ∷ "2 - Boss (mboss.mni)"
    ∷ "3 - Run Away (mrunaway.mni)" ∷ "4 - Circus (mcircus.mni)" ∷ "5 - Tech World (mtekwrd.mni)"
    ∷ "6 - Easy Level (measylev.mni)" ∷ "7 - Rock It (mrockit.mni)" ∷ "8 - Happy (mhappy.mni)"
    ∷ "9 - Devo (mdevo.mni)" ∷ "10 - Dadoda (mdadoda.mni)" ∷ "11 - Bells (mbells.mni)"
    ∷ "12 - Drums (mdrums.mni)" ∷ "13 - Banjo (mbanjo.mni)" ∷ "14 - Easy 2 (measy2.mni)"
    ∷ "15 - Tech 2 (mteck2.mni)" ∷ "16 - Tech 3 (mteck3.mni)" ∷ "17 - Tech 4 (mteck4.mni)"
    ∷ "18 - ZZ Top (mzztop.mni)" ∷ []

-- The file of each backdrop, for the cases of the switch.
abbrev pub backdrop_files : List String
backdrop_files =
    "bdblank.mni" ∷ "bdpipe.mni" ∷ "bdredsky.mni" ∷ "bdrocktk.mni" ∷ "bdjungle.mni" ∷ "bdstar.mni"
    ∷ "bdwierd.mni" ∷ "bdcave.mni" ∷ "bdice.mni" ∷ "bdshrum.mni" ∷ "bdtechms.mni" ∷ "bdnewsky.mni"
    ∷ "bdstar2.mni" ∷ "bdstar3.mni" ∷ "bdforest.mni" ∷ "bdmountn.mni" ∷ "bdguts.mni"
    ∷ "bdbrktec.mni" ∷ "bdclouds.mni" ∷ "bdfutcty.mni" ∷ "bdice2.mni" ∷ "bdcliff.mni"
    ∷ "bdspooky.mni" ∷ "bdcrystl.mni" ∷ "bdcircut.mni" ∷ "bdcircpc.mni" ∷ []

-- An attribute of type Enum.
abbrev enum_attribute : String → String → ℕ → List String → Attribute
enum_attribute name desc value names = record blank_attribute {
  type = enum;
  name = name;
  desc = desc;
  enum_value = value;
  enum_value_names = names;
}

-- The attributes that `open` makes of the flags. `& 0x1F`, `& 1` and `& 7` are remainders here.
unfoldable pub flag_attributes : ℕ → List Attribute
flag_attributes flags =
    enum_attribute "Backdrop" "Index of backdrop to draw behind level." (flags % 32) backdrop_names
    ∷ enum_attribute "Rain" "Is it raining in this level?" (flags / 2 ^ 5 % 2) yes_no
    ∷ enum_attribute "Scroll X" "Should the backdrop scroll horizontally?" (flags / 2 ^ 6 % 2)
        yes_no
    ∷ enum_attribute "Scroll Y" "Should the backdrop scroll vertically?" (flags / 2 ^ 7 % 2) yes_no
    ∷ enum_attribute "Palette animation"
        "Type of colour animation to use in this level.  Only dark magenta (EGA colour 5) is animated."
        (flags / 2 ^ 8 % 8) pal_anim_names
    ∷ enum_attribute "Music" "Index of the song to play as background music in the level."
        (flags / 2 ^ 11) music_names
    ∷ []

-- The file of a backdrop: the switch, with its default.
unfoldable pub backdrop_file : ℕ → String
backdrop_file drop_num = elim (get_elem? backdrop_files drop_num) [
  | some filename ↦ filename
  | none ↦ "bdblank.mni"
]

-- The body of the constructor Map2D_Cosmo: backdrop 0 names no file.
unfoldable pub backdrop_graphics : ℕ → List (ℕ × GraphicsFilename)
unfolding backdrop_file
backdrop_graphics drop_num =
    if ltb 0 drop_num
    then (
      background_image,
      record { filename = codes (backdrop_file drop_num); type = "img-cosmo-backdrop" },
    )
      ∷ []
    else []

-- `attr->type != Map::Attribute::Enum`
unfoldable pub check_enum : Attribute → Result (Unit {0})
check_enum attr = elim attr.type [ enum ↦ ok tt | _ ↦ throw wrong_attribute_type ]

-- `flags |= attr->enumValue << shift`: the value is shifted as a 32-bit number, and the flags have
-- 16 bits.
unfoldable pub or_flags : ℕ → ℕ → Attribute → ℕ
or_flags flags shift attr = bit_or flags (attr.enum_value * 2 ^ shift % 2 ^ 32) % 2 ^ 16

-- `write`, from the test of the number of attributes on: the flags.
unfoldable pub attribute_flags : List Attribute → Result ℕ
unfolding check_enum or_flags
attribute_flags (backdrop ∷ rain ∷ scroll_x ∷ scroll_y ∷ pal_anim ∷ music ∷ []) = do
  check_enum backdrop
  let with_backdrop = or_flags 0 0 backdrop
  check_enum rain
  let with_rain = or_flags with_backdrop 5 rain
  check_enum scroll_x
  let with_scroll_x = or_flags with_rain 6 scroll_x
  check_enum scroll_y
  let with_scroll_y = or_flags with_scroll_x 7 scroll_y
  check_enum pal_anim
  let with_pal_anim = or_flags with_scroll_y 8 pal_anim
  check_enum music
  ok (or_flags with_pal_anim 11 music)
attribute_flags _ = throw wrong_attribute_count
