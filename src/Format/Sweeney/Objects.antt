-- ===== src/Format/Sweeney/Objects.antt =====
-- The objects of the maps of src/fmt-map-xargon.cpp, 31 bytes each, and the texts at the end of the
-- file that some of them refer to.
pub mod Storing
use libgamemaps.Prelude.{
  ℕ, zero, suc, ◌+◌, ◌-◌, ◌/◌, ◌%◌, ◌^◌, ◌*◌, Bool, bit_and, bit_or, ◌||◌, Option, none, some, List,
  [], ◌∷◌, length, not, ltb, ◌==◌, if◌then◌else◌,
}
use mathlib.Core.Option
use libgamemaps.Result.{
  Result, ok, throw, short_read, text_cut, text_cut_unexpectedly, text_too_long, ◌>>=◌,
}
use libgamemaps.Stream.{Streams}
use libgamemaps.Map2D.{Item, default_item, text_item, movement}

abbrev pub obj_entry_len : ℕ
obj_entry_len = 31

-- What an object takes from its speeds: the fields of an item that moves.
unfoldable pub with_movement : ℕ → ℕ → Item → Item
with_movement spd_horiz spd_vert obj =
    if not (spd_horiz == 0) || not (spd_vert == 0)
    then record obj {
      type = bit_or obj.type movement;
      movement_speed_x = spd_horiz;
      movement_speed_y = spd_vert;
      movement_dist_left = 0;
      movement_dist_right = 0;
      movement_dist_up = 0;
      movement_dist_down = 0;
    }
    else obj

-- What an object takes from its pointer: the next text, while there is one.
unfoldable pub with_text : ℕ → List (List ℕ) → Item → Item × List (List ℕ)
with_text pointer [] obj =
    if pointer == 0
    then (obj, [])
    else (record obj { type = bit_or obj.type text_item; text_font = 0 }, [])
with_text pointer (text ∷ texts) obj = if pointer == 0 then (obj, text ∷ texts) else (
  record obj { type = bit_or obj.type text_item; text_font = 0; text_content = text },
  texts,
)

-- The item that `open` makes of the fields of an object, with the texts that are left.
unfoldable pub object_of :
    (x y code spd_horiz spd_vert pointer : ℕ) → List (List ℕ) → Item × List (List ℕ)
object_of x y code spd_horiz spd_vert pointer texts =
    let (obj, texts') = with_text pointer texts (default_item x y code) in
    (with_movement spd_horiz spd_vert obj, texts')

-- `try { ... } catch (const stream::incomplete_read&)`
unfoldable pub catch_short_read {ℓ} : {A : Type ℓ} → Result A → Result A
catch_short_read (throw short_read) = throw text_cut_unexpectedly
catch_short_read r = r

-- `obj->type & Map2D::Layer::Item::Text`, and the same of Movement.
abbrev pub is_text : Item → Bool
is_text obj = not (bit_and obj.type text_item == 0)

abbrev pub is_moving : Item → Bool
is_moving obj = not (bit_and obj.type movement == 0)

module _ (lib : Streams) where
  open lib use {
    Input, Output, read, read_u8, read_u16le, read_u32le, write, write_u8, write_u16le, write_u32le,
  }

  -- The loop that reads the texts, with `off_strings` bytes left. A round reads two bytes at least,
  -- so the rounds are counted by `fuel`, and none says that it ran out.
  unfoldable pub read_strings : ℕ → ℕ → Input → Result (Option (List (List ℕ)))
  read_strings zero off_strings input = ok (if ltb off_strings 2 then some [] else none)
  read_strings (suc fuel) off_strings input = if ltb off_strings 2 then ok (some []) else do
    (len, input') ← read_u16le input
    let len_str = (len + 1) % 2 ^ 16
    let later = do
      (next, input'') ← read len_str input'
      strings ← read_strings fuel (off_strings - 2 - len_str) input''
      ok (Option.map (λ (texts : List (List ℕ)). next ∷ texts) strings)
    if ltb (off_strings - 2) len_str then throw text_cut else later

  -- One round of the loop over the objects.
  unfoldable pub read_object : List (List ℕ) → Input → Result (Item × List (List ℕ) × Input)
  read_object texts input = do
    (code, input1) ← read_u8 input
    (x, input2) ← read_u16le input1
    (y, input3) ← read_u16le input2
    (spd_horiz, input4) ← read_u16le input3
    (spd_vert, input5) ← read_u16le input4
    (width, input6) ← read_u16le input5
    (height, input7) ← read_u16le input6
    (sub_type, input8) ← read_u16le input7
    (sub_state, input9) ← read_u16le input8
    (state_count, input10) ← read_u16le input9
    (link, input11) ← read_u16le input10
    (flags, input12) ← read_u16le input11
    (pointer, input13) ← read_u32le input12
    (info, input14) ← read_u16le input13
    (zap_hold, left) ← read_u16le input14
    let read_code = bit_or code (sub_type * 2 ^ 8)
    let (obj, texts') = object_of x y read_code spd_horiz spd_vert pointer texts
    ok (obj, texts', left)

  unfoldable pub read_objects : ℕ → List (List ℕ) → Input → Result (List Item × Input)
  read_objects zero texts input = ok ([], input)
  read_objects (suc n) texts input = do
    (obj, texts', input') ← read_object texts input
    (objects, left) ← read_objects n texts' input'
    ok (obj ∷ objects, left)

  -- One round of the loop that writes the objects.
  unfoldable pub write_object : Item → Output → Result Output
  write_object obj output = do
    output1 ← write_u8 (obj.code % 256) output
    output2 ← write_u16le obj.x output1
    output3 ← write_u16le obj.y output2
    output4 ← write_u16le (if is_moving obj then obj.movement_speed_x else 0) output3
    output5 ← write_u16le (if is_moving obj then obj.movement_speed_y else 0) output4
    output6 ← write_u16le 16 output5
    output7 ← write_u16le 16 output6
    output8 ← write_u16le (obj.code / 2 ^ 8) output7
    output9 ← write_u16le 0 output8
    output10 ← write_u16le 0 output9
    output11 ← write_u16le 0 output10
    output12 ← write_u16le 0 output11
    output13 ← write_u32le (if is_text obj then 1 else 0) output12
    output14 ← write_u16le 0 output13
    write_u16le 0 output14

  unfoldable pub write_objects : List Item → Output → Result Output
  write_objects [] output = ok output
  write_objects (obj ∷ objects) output = do
    output' ← write_object obj output
    write_objects objects output'

  -- The loop that writes the texts, each behind one byte for its length.
  unfoldable pub write_string : Item → Output → Result Output
  write_string obj output =
      if ltb 255 (length obj.text_content)
      then throw text_too_long
      else do output' ← write_u8 (length obj.text_content) output; write obj.text_content output'

  unfoldable pub write_strings : List Item → Output → Result Output
  write_strings [] output = ok output
  write_strings (obj ∷ objects) output = do
    output' ← (if is_text obj then write_string obj output else ok output)
    write_strings objects output'
