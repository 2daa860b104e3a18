-- ===== src/Format/Harry/Instance.antt =====
-- Which files are Halloween Harry levels.
use libgamemaps.Prelude.{
  ℕ, ◌+◌, ◌-◌, ◌*◌, ◌/◌, ◌%◌, ◌^◌, ◌≤◌, ◌<◌, ◌≡◌, ◌≢◌, refl, ap, ◌∙◌, ◌⊎◌, inl, inr, true, false,
  not, List, [], ◌∷◌, ◌++◌, All, length, length-append, arith, ltb, leb, lt→ltb, le→ltb, ◌==◌,
  ==_refl, Bool-cases, if◌then◌else◌,
}
use native.Mathlib.Decide.{dec_lt}
use libgamemaps.Result.{Result, ok, undefined}
use libgamemaps.Stream.{Streams}
use libgamemaps.Stream.Read.{from_start, read_exactly, skip_exactly}
use libgamemaps.Map2D.{Certainty, definitely_no, definitely_yes}
use libgamemaps.Grid.Words.{read_word}
use libgamemaps.Format.Harry.{signature, same_bytes, any_char_above, check_actors, is_instance}

-- A byte that, as a signed char, is at most `max`.
abbrev pub CharAtMost : ℕ → ℕ → Type 0
CharAtMost max b = (b ≤ max) ⊎ (128 ≤ b)

-- The parts of a file up to the number of actors.
pub record Head : Type 0 where
  pub sig : List ℕ
  pub skipped : List ℕ
  pub palette : List ℕ
  pub tile_flags : List ℕ
  pub unknown_block : List ℕ
  pub num_actors : ℕ

pub record IsHead (p : Head) : Type 0 where
  pub sig_length : length p.sig ≡ 0x12
  pub skipped_length : length p.skipped ≡ 11
  pub palette_length : length p.palette ≡ 768
  pub tile_flags_length : length p.tile_flags ≡ 256
  pub unknown_block_length : length p.unknown_block ≡ 10
  pub num_actors_fits : p.num_actors < 2 ^ 16

-- The bytes of a file with these parts and `more` behind them.
abbrev pub head_bytes : Head → List ℕ → List ℕ
head_bytes p more =
    p.sig
    ++ (p.skipped
        ++ (p.palette
            ++ (p.tile_flags
                ++ (p.unknown_block ++ (p.num_actors % 256 ∷ p.num_actors / 256 % 256 ∷ more)))))

-- The signature, and colours and flags in range.
pub record InRange (p : Head) : Type 0 where
  pub signed : p.sig ≡ signature
  pub colours : All (CharAtMost 0x40) p.palette
  pub flags : All (CharAtMost 0x01) p.tile_flags

same_bytes-eq : (xs ys : List ℕ) → same_bytes xs ys ≡ true → xs ≡ ys
unfolding same_bytes
same_bytes-eq [] [] e = refl
same_bytes-eq [] (y ∷ ys) e = cc
same_bytes-eq (x ∷ xs) [] e = cc
same_bytes-eq (x ∷ xs) (y ∷ ys) e =
    let head : x ≡ y = ground arith in
    let tail : same_bytes xs ys ≡ true = ground arith in
    rw head (ap (λ l. y ∷ l) (same_bytes-eq xs ys tail))

same_bytes_refl : (xs : List ℕ) → same_bytes xs xs ≡ true
unfolding same_bytes
same_bytes_refl [] = refl
same_bytes_refl (x ∷ xs) = rw (==_refl x, same_bytes_refl xs)

any_char_above-false :
    (max : ℕ) (bytes : List ℕ) → All (CharAtMost max) bytes → any_char_above max bytes ≡ false
unfolding any_char_above
any_char_above-false max [] h = refl
any_char_above-false max (b ∷ bytes) (small, h) =
    let later = any_char_above-false max bytes h in
    elim small [ inl le ↦ ground (arith, later) | inr big ↦ ground (arith, later) ]

All-of_any_char_above :
    (max : ℕ) (bytes : List ℕ) → any_char_above max bytes ≡ false → All (CharAtMost max) bytes
unfolding any_char_above
All-of_any_char_above max [] e = tt
All-of_any_char_above max (b ∷ bytes) e =
    (ground arith, All-of_any_char_above max bytes (ground arith))

-- The tests of the parts, and what follows them.
abbrev tests : Head → Result Certainty → Result Certainty
tests p last =
    if not (same_bytes p.sig signature)
    then ok definitely_no
    else if any_char_above 0x40 p.palette
    then ok definitely_no
    else if any_char_above 0x01 p.tile_flags
    then ok definitely_no
    else last

tests_fail : (p : Head) (last : Result Certainty) → ¬ InRange p → tests p last ≡ ok definitely_no
tests_fail p last other = elim (Bool-cases (same_bytes p.sig signature)) [
  | inr signed ↦ rw signed
  | inl signed ↦ elim (Bool-cases (any_char_above 0x40 p.palette)) [
    | inl colours ↦ rw (signed, colours)
    | inr colours ↦ elim (Bool-cases (any_char_above 0x01 p.tile_flags)) [
      | inl flags ↦ rw (signed, colours, flags)
      | inr flags ↦ absurd (
          other (record {
            signed = same_bytes-eq p.sig signature signed;
            colours = All-of_any_char_above 0x40 p.palette colours;
            flags = All-of_any_char_above 0x01 p.tile_flags flags;
          }))
    ]
  ]
]

tests_pass : (p : Head) (last : Result Certainty) → InRange p → tests p last ≡ last
tests_pass p last good = rw (
  good.signed,
  same_bytes_refl signature,
  any_char_above-false 0x40 p.palette good.colours,
  any_char_above-false 0x01 p.tile_flags good.flags,
)

length-head_bytes :
    (p : Head) (more : List ℕ) → IsHead p → length (head_bytes p more) ≡ 1065 + length more
length-head_bytes p more shape =
    let tail = p.num_actors % 256 ∷ p.num_actors / 256 % 256 ∷ more in
    omega (
      arith,
      shape.sig_length,
      shape.skipped_length,
      shape.palette_length,
      shape.tile_flags_length,
      shape.unknown_block_length,
      length-append p.sig (p.skipped ++ (p.palette ++ (p.tile_flags ++ (p.unknown_block ++ tail)))),
      length-append p.skipped (p.palette ++ (p.tile_flags ++ (p.unknown_block ++ tail))),
      length-append p.palette (p.tile_flags ++ (p.unknown_block ++ tail)),
      length-append p.tile_flags (p.unknown_block ++ tail),
      length-append p.unknown_block tail,
    )

-- What the last test says of the dimensions and the number of bytes of the cells.
abbrev cells_test : ℕ → ℕ → ℕ → Result Certainty
cells_test w h count =
    if leb (2 ^ 31) (w * h * 2)
    then undefined
    else if not (count == w * h * 2)
    then ok definitely_no
    else ok definitely_yes

-- The bytes behind the number of actors, where the actors are whole.
abbrev pub body_bytes : List ℕ → ℕ → ℕ → List ℕ → List ℕ
body_bytes actors w h cells = actors ++ (w % 256 ∷ w / 256 % 256 ∷ h % 256 ∷ h / 256 % 256 ∷ cells)

module _ (lib : Streams) where
  open lib use {Input, contents, rest, size, size_lem}

  check_actors_cut :
      (n left : ℕ) (more : List ℕ) (s : Input)
      → n < 2 ^ 16
      → rest s ≡ n % 256 ∷ n / 256 % 256 ∷ more
      → left ≡ 2 + length more
      → 4 ≤ length more
      → length more < n * 128 + 4
      → check_actors lib left s ≡ ok definitely_no
  unfolding check_actors
  check_actors_cut n left more s fits e count long cut =
      let (s1, reads, _) = read_word lib s n more fits e in
      let enough : leb 6 left ≡ true = ground arith in
      let short : ltb (left - 2) (n * 128 + 4) ≡ true = lt→ltb _ _ (omega arith) in
      rw (enough, reads, short)

  check_actors_whole :
      (n left w h : ℕ) (actors cells : List ℕ) (s : Input)
      → n < 2 ^ 16
      → w < 2 ^ 16
      → h < 2 ^ 16
      → length actors ≡ n * 128
      → rest s ≡ n % 256 ∷ n / 256 % 256 ∷ body_bytes actors w h cells
      → left ≡ 6 + n * 128 + length cells
      → check_actors lib left s ≡ cells_test w h (length cells)
  unfolding check_actors
  check_actors_whole n left w h actors cells s fits fits_w fits_h len e count =
      let (s1, reads1, left1) = read_word lib s n _ fits e in
      let (s2, skips2, _, left2) = skip_exactly lib (n * 128) s1 actors _ left1 len in
      let (s3, reads3, left3) = read_word lib s2 w _ fits_w left2 in
      let (s4, reads4, _) = read_word lib s3 h _ fits_h left3 in
      let enough : leb 6 left ≡ true = ground arith in
      let room : ltb (left - 2) (n * 128 + 4) ≡ false = le→ltb _ _ (omega arith) in
      let still : leb 4 (left - 2 - n * 128) ≡ true = ground arith in
      let bytes : left - 2 - n * 128 - 4 ≡ length cells = omega arith in
      rw (enough, reads1, room, skips2, still, reads3, reads4, bytes)

  -- A file that is long enough comes through the tests of its parts to the number of actors.
  is_instance-tests :
      (p : Head) (more : List ℕ) (input : Input)
      → IsHead p
      → contents input ≡ head_bytes p more
      → 4 ≤ length more
      → (s : Input) × (rest s ≡ p.num_actors % 256 ∷ p.num_actors / 256 % 256 ∷ more)
        × (is_instance lib input ≡ tests p (check_actors lib (2 + length more) s))
  unfolding is_instance
  is_instance-tests p more input shape e enough =
      let count : size input ≡ 1065 + length more =
        size_lem input ∙ ap length e ∙ length-head_bytes p more shape in
      let long : ltb (size input) 1069 ≡ false = le→ltb _ _ (omega arith) in
      let (s0, runs, _, left0) = from_start lib input in
      let (s1, reads1, _, left1) = read_exactly lib 0x12 s0 p.sig _ (left0 ∙ e) shape.sig_length in
      let (s2, skips2, _, left2) = skip_exactly lib 11 s1 p.skipped _ left1 shape.skipped_length in
      let (s3, reads3, _, left3) = read_exactly lib 768 s2 p.palette _ left2 shape.palette_length in
      let (s4, reads4, _, left4) =
        read_exactly lib 256 s3 p.tile_flags _ left3 shape.tile_flags_length in
      let (s5, skips5, _, left5) =
        skip_exactly lib 10 s4 p.unknown_block _ left4 shape.unknown_block_length in
      let left : size input - 0x12 - 11 - 768 - 256 - 10 ≡ 2 + length more = omega arith in
      (s5, left5, rw (long, runs, reads1, skips2, reads3, reads4, skips5, left))

  is_instance_short :
      (input : Input) → length (contents input) < 1069 → is_instance lib input ≡ ok definitely_no
  unfolding is_instance
  is_instance_short input short = rw (size_lem input, lt→ltb (length (contents input)) 1069 short)

  cut_short :
      (p : Head) (more : List ℕ) (input : Input)
      → IsHead p
      → contents input ≡ head_bytes p more
      → length more < 4
      → is_instance lib input ≡ ok definitely_no
  cut_short p more input shape e short =
      is_instance_short input (omega (arith, ap length e, length-head_bytes p more shape))

  cut_actors :
      (p : Head) (more : List ℕ) (input : Input)
      → IsHead p
      → contents input ≡ head_bytes p more
      → InRange p
      → length more < p.num_actors * 128 + 4
      → is_instance lib input ≡ ok definitely_no
  cut_actors p more input shape e good cut = elim (dec_lt (length more) 4) [
    | yes short ↦ cut_short p more input shape e short
    | no long ↦
        let (s, left, runs) = is_instance-tests p more input shape e (omega arith) in
        runs
        ∙ tests_pass p _ good
        ∙ check_actors_cut p.num_actors _ more s shape.num_actors_fits left refl (omega arith) cut
  ]

  out_of_range :
      (p : Head) (more : List ℕ) (input : Input)
      → IsHead p
      → contents input ≡ head_bytes p more
      → ¬ InRange p
      → is_instance lib input ≡ ok definitely_no
  out_of_range p more input shape e bad = elim (dec_lt (length more) 4) [
    | yes short ↦ cut_short p more input shape e short
    | no long ↦
        let (s, left, runs) = is_instance-tests p more input shape e (omega arith) in
        runs ∙ tests_fail p _ bad
  ]

  whole_actors :
      (p : Head) (actors cells : List ℕ) (w h : ℕ) (input : Input)
      → IsHead p
      → contents input ≡ head_bytes p (body_bytes actors w h cells)
      → InRange p
      → length actors ≡ p.num_actors * 128
      → w < 2 ^ 16
      → h < 2 ^ 16
      → is_instance lib input ≡ cells_test w h (length cells)
  whole_actors p actors cells w h input shape e good len fits_w fits_h =
      let behind = w % 256 ∷ w / 256 % 256 ∷ h % 256 ∷ h / 256 % 256 ∷ cells in
      let count = length-append actors behind in
      let (s, left, runs) =
        is_instance-tests p (body_bytes actors w h cells) input shape e (omega (arith, count)) in
      runs
      ∙ tests_pass p _ good
      ∙ check_actors_whole p.num_actors _ w h actors cells s shape.num_actors_fits fits_w fits_h len
          left (omega (arith, count, len))

  -- A file of fewer than 1069 bytes is reported as definitely no level. One that is cut into its
  -- parts and the bytes behind the number of actors is reported as definitely none where it does not
  -- have the signature, a byte of the palette lies between 65 and 127, or a tile flag between 2 and
  -- 127. Where none of this is so, it is reported as definitely none if these bytes are fewer than
  -- the actors and the dimensions take. If they are not, twice the product of the dimensions is
  -- undefined behaviour from 2 ^ 31 on, and below that the file is reported as definitely a level if
  -- it is the number of bytes of the cells, and else as definitely none.
  pub is_instance_decides_harry :
      (input : Input)
      → (length (contents input) < 1069 → is_instance lib input ≡ ok definitely_no)
        × ((p : Head) (more : List ℕ)
            → IsHead p
            → contents input ≡ head_bytes p more
            → (¬ InRange p → is_instance lib input ≡ ok definitely_no)
              × (InRange p
                  → length more < p.num_actors * 128 + 4
                  → is_instance lib input ≡ ok definitely_no)
              × ((actors cells : List ℕ) (w h : ℕ)
                  → InRange p
                  → more ≡ body_bytes actors w h cells
                  → length actors ≡ p.num_actors * 128
                  → w < 2 ^ 16
                  → h < 2 ^ 16
                  → (2 ^ 31 ≤ w * h * 2 → is_instance lib input ≡ undefined)
                    × (w * h * 2 < 2 ^ 31
                        → length cells ≡ w * h * 2
                        → is_instance lib input ≡ ok definitely_yes)
                    × (w * h * 2 < 2 ^ 31
                        → length cells ≢ w * h * 2
                        → is_instance lib input ≡ ok definitely_no)))
  is_instance_decides_harry input = (
    is_instance_short input,
    λ p more shape e. (
      out_of_range p more input shape e,
      cut_actors p more input shape e,
      λ actors cells w h good parts len fits_w fits_h.
          let decided =
            whole_actors p actors cells w h input shape (e ∙ ap (head_bytes p) parts) good len
              fits_w fits_h in
          (
            λ over. let big : leb (2 ^ 31) (w * h * 2) ≡ true = ground arith in decided ∙ rw big,
            λ fits same.
                let small : leb (2 ^ 31) (w * h * 2) ≡ false = ground arith in
                decided ∙ rw (small, same, ==_refl (w * h * 2)),
            λ fits other.
                let small : leb (2 ^ 31) (w * h * 2) ≡ false = ground arith in
                let unequal : (length cells == w * h * 2) ≡ false = ground arith in
                decided ∙ rw (small, unequal),
          ),
    ),
  )
