-- ===== src/Format/Sweeney/Texts.antt =====
-- The texts of the maps of src/fmt-map-xargon.cpp: `write` stores the length of a text in one byte and
-- no null behind it, and `open` reads a length of two bytes and takes a null behind the text.
use libgamemaps.Prelude.{
  ℕ, zero, suc, ◌+◌, ◌-◌, ◌*◌, ◌%◌, ◌^◌, ◌≤◌, ◌<◌, ◌≡◌, refl, ap, ◌∙◌, inl, inr, true, List, [],
  ◌∷◌, ◌++◌, All, length, append_assoc, append-nil, arith, lt→ltb, le→ltb, if◌then◌else◌,
  Bool-cases,
}
use libgamemaps.Result.{ok, throw, text_cut}
use libgamemaps.Stream.{Streams}
use libgamemaps.Stream.Write.{Holds, Holds-write, Holds-write_u8}
use libgamemaps.Map2D.{Item}
use libgamemaps.Format.Sweeney.Objects.{
  is_text, catch_short_read, read_strings, write_string, write_strings,
}

-- The bytes of the texts of some objects.
abbrev pub texts_bytes : List Item → List ℕ
texts_bytes [] = []
texts_bytes (obj ∷ objects) =
    if is_text obj
    then length obj.text_content ∷ (obj.text_content ++ texts_bytes objects)
    else texts_bytes objects

-- Every text has a length that fits into a byte.
abbrev pub AllShort : List Item → Type 0
AllShort = All (λ (obj : Item). length obj.text_content < 256)

module _ (lib : Streams) where
  open lib use {Input, Output, rest, read_u16le, read_u16le_lem}

  Holds-write_string :
      (obj : Item) (bytes : List ℕ) (o : Output)
      → length obj.text_content < 256
      → Holds lib bytes o
      → (o' : Output) × (write_string lib obj o ≡ ok o')
        × Holds lib (bytes ++ (length obj.text_content ∷ obj.text_content)) o'
  unfolding write_string
  Holds-write_string obj bytes o short h =
      let n = length obj.text_content in
      let (o1, writes1, h1) = Holds-write_u8 lib n bytes o h in
      let (o2, writes2, h2) = Holds-write lib obj.text_content h1 in
      let byte : n % 256 ≡ n = omega arith in
      let h2' = rw byte at h2 in
      (
        o2,
        rw (le→ltb 255 n (omega arith), writes1, writes2),
        rw (append_assoc bytes (n ∷ []) obj.text_content) at h2',
      )

  pub Holds-write_strings :
      (objects : List Item) (bytes : List ℕ) (o : Output)
      → AllShort objects
      → Holds lib bytes o
      → (o' : Output) × (write_strings lib objects o ≡ ok o')
        × Holds lib (bytes ++ texts_bytes objects) o'
  unfolding write_strings
  Holds-write_strings [] bytes o short h = (o, refl, rw (append-nil bytes) h)
  Holds-write_strings (obj ∷ objects) bytes o (short, shorts) h = elim (Bool-cases (is_text obj)) [
    | inl text ↦
        let (o1, writes1, h1) = Holds-write_string obj bytes o short h in
        let (o2, writes2, h2) = Holds-write_strings objects _ o1 shorts h1 in
        let parts =
          append_assoc bytes (length obj.text_content ∷ obj.text_content) (texts_bytes objects) in
        (o2, rw (text, writes1) writes2, rw text (rw parts at h2))
    | inr plain ↦
        let (o2, writes2, h2) = Holds-write_strings objects bytes o shorts h in
        (o2, rw plain writes2, rw plain h2)
  ]

  read_strings_cut :
      (fuel left len : ℕ) (s s' : Input)
      → 2 ≤ left
      → read_u16le s ≡ ok (len, s')
      → left < len
      → len < 2 ^ 16 - 1
      → read_strings lib (suc fuel) left s ≡ throw text_cut
  unfolding read_strings
  read_strings_cut fuel left len s s' two reads long fits =
      let word : (len + 1) % 2 ^ 16 ≡ len + 1 = omega arith in
      rw (le→ltb left 2 two, reads, word, lt→ltb (left - 2) (len + 1) (omega arith))

  texts_cut :
      (left n c : ℕ) (more : List ℕ) (s : Input)
      → rest s ≡ n ∷ c ∷ more
      → 2 ≤ left
      → left < 256 * c
      → n < 256
      → c < 255
      → catch_short_read (read_strings lib left left s) ≡ throw text_cut
  unfolding catch_short_read
  texts_cut zero n c more s e two less short char = absurd (omega arith)
  texts_cut (suc left) n c more s e two less short char =
      let (s', reads, _, _) = read_u16le_lem s n c more e in
      ap catch_short_read
        (read_strings_cut left (suc left) (n + 256 * c) s s' two reads (omega arith) (omega arith))

  -- Objects whose texts have at most 255 characters, the first of which has a text that starts with
  -- a character `c` other than 255, can be written. Where the bytes that they were written as, less
  -- than 256 * c of them, are all that is left of a stream, reading the texts throws the error that
  -- the text of an object was cut off.
  pub write_strings-text_cut :
      (obj : Item) (objects : List Item) (c : ℕ) (text bytes : List ℕ) (o : Output)
      → is_text obj ≡ true
      → obj.text_content ≡ c ∷ text
      → c < 255
      → AllShort (obj ∷ objects)
      → length (texts_bytes (obj ∷ objects)) < 256 * c
      → Holds lib bytes o
      → (o' : Output) × (new : List ℕ) × (write_strings lib (obj ∷ objects) o ≡ ok o')
        × Holds lib (bytes ++ new) o'
        × ((s : Input)
            → rest s ≡ new
            → catch_short_read (read_strings lib (length new) (length new) s) ≡ throw text_cut)
  write_strings-text_cut obj objects c text bytes o has_text starts char short less h =
      let (o', writes, h') = Holds-write_strings (obj ∷ objects) bytes o short h in
      let more = text ++ texts_bytes objects in
      let parts : texts_bytes (obj ∷ objects) ≡ suc (length text) ∷ c ∷ more =
        rw (has_text, starts) in
      let fits : suc (length text) < 256 = rw starts at short.0 in
      (
        o',
        texts_bytes (obj ∷ objects),
        writes,
        h',
        λ s e.
            texts_cut (length (texts_bytes (obj ∷ objects))) (suc (length text)) c more s
              (e ∙ parts) (omega (arith, ap length parts)) less fits char,
      )
