-- ===== src/Format/Vinyl/Instance.antt =====
-- Which files are Vinyl Goddess From Mars levels.
use libgamemaps.Prelude.{
  ℕ, zero, suc, ◌+◌, ◌*◌, ◌%◌, ◌^◌, ◌≤◌, ◌<◌, ◌≡◌, ◌≢◌, refl, ap, ◌∙◌, not, List, [], ◌∷◌, ◌++◌,
  inl, inr, length, length-append, All, arith, ltb, lt→ltb, le→ltb, ◌==◌, ==_refl, ==_iff,
  Bool-cases, if◌then◌else◌,
}
use libgamemaps.Result.{ok}
use libgamemaps.Stream.{Streams}
use libgamemaps.Stream.Bytes.{words_bytes}
use libgamemaps.Map2D.{definitely_no, definitely_yes}
use libgamemaps.Grid.Area.{area_le}
use libgamemaps.Grid.Words.{AllWords, read_word, length-words_bytes}
use libgamemaps.Format.{any_above, any_above-false, All-of_any_above}
use libgamemaps.Format.Vinyl.{max_valid_bgtilecode, scan_words, is_instance}
use libgamemaps.Format.Vinyl.Map.{level_bytes, map_len-word, read_dimensions}

module _ (lib : Streams) where
  open lib use {Input, contents, rest, size, size_lem, read_u16le, read_u16le_lem, read_u16le_short}

  scan_words-any_above :
      (codes back : List ℕ) (s : Input)
      → AllWords codes
      → rest s ≡ words_bytes codes ++ back
      → scan_words lib (length codes) s
        ≡ (if any_above max_valid_bgtilecode codes then ok definitely_no else ok definitely_yes)
  unfolding scan_words any_above words_bytes
  scan_words-any_above [] back s small e = refl
  scan_words-any_above (c ∷ codes) back s (p, small) e =
      let (s', reads, left) = read_word lib s c (words_bytes codes ++ back) p e in
      let later = scan_words-any_above codes back s' small left in
      elim (Bool-cases (ltb max_valid_bgtilecode c)) [
        | inl above ↦ rw (reads, above)
        | inr below ↦ rw (reads, below) later
      ]

  -- A file that ends within the background is none, whatever its words are.
  scan_words_short :
      (n : ℕ) (bytes : List ℕ) (s : Input)
      → length bytes < n * 2
      → rest s ≡ bytes
      → scan_words lib n s ≡ ok definitely_no
  unfolding scan_words
  scan_words_short zero bytes s h e = absurd (omega arith)
  scan_words_short (suc n) [] s h e =
      rw (read_u16le_short s (omega (arith, ap length e)), scan_words)
  scan_words_short (suc n) (b ∷ []) s h e =
      rw (read_u16le_short s (omega (arith, ap length e)), scan_words)
  scan_words_short (suc n) (lo ∷ hi ∷ bytes) s h e =
      let (s', reads, _, left) = read_u16le_lem s lo hi bytes e in
      let later = scan_words_short n bytes s' (omega arith) left in
      elim (Bool-cases (ltb max_valid_bgtilecode (lo + 256 * hi))) [
        | inl above ↦ rw (reads, above, scan_words)
        | inr below ↦ rw (reads, below, scan_words) later
      ]

  size-level_bytes :
      (input : Input) (w h : ℕ) (body : List ℕ)
      → contents input ≡ level_bytes w h body
      → size input ≡ length body + 4
  size-level_bytes input w h body e = size_lem input ∙ rw e (omega arith)

  -- The test of the size, and the scan.
  is_instance_dimensions :
      (input : Input) (w h : ℕ) (body : List ℕ)
      → w < 2 ^ 16
      → h < 2 ^ 16
      → contents input ≡ level_bytes w h body
      → (s : Input) × (rest s ≡ body)
        × (is_instance lib input ≡ (
            if not (length body + 4 == (4 + w * h * 3) % 2 ^ 32)
            then ok definitely_no
            else scan_words lib (w * h) s))
  unfolding is_instance
  is_instance_dimensions input w h body pw ph e =
      let (s, s', s'', runs, reads, reads', left) = read_dimensions lib input w h body pw ph e in
      (
        s'',
        left,
        rw (
          size-level_bytes input w h body e,
          le→ltb (length body + 4) 4 (omega arith),
          runs,
          reads,
          reads',
          map_len-word w h pw ph,
        ),
      )

  is_instance_short :
      (input : Input) → length (contents input) < 4 → is_instance lib input ≡ ok definitely_no
  unfolding is_instance
  is_instance_short input h = rw (size_lem input, lt→ltb (length (contents input)) 4 h)

  is_instance_size :
      (input : Input) (w h : ℕ) (body : List ℕ)
      → w < 2 ^ 16
      → h < 2 ^ 16
      → contents input ≡ level_bytes w h body
      → length body ≢ w * h * 3
      → is_instance lib input ≡ ok definitely_no
  is_instance_size input w h body pw ph e ne =
      let (s, left, runs) = is_instance_dimensions input w h body pw ph e in
      runs ∙ elim (Bool-cases (length body + 4 == (4 + w * h * 3) % 2 ^ 32)) [
        | inr differ ↦ rw differ
        | inl same ↦
            let wrapped : length body + 4 ≡ (4 + w * h * 3) % 2 ^ 32 = (==_iff _ _).0 same in
            rw same (
              scan_words_short (w * h) body s
                (omega (arith, wrapped, area_le w h 65535 (omega arith) (omega arith))) left)
      ]

  -- A file of fewer than 4 bytes is reported as definitely no level. Any other file starts with a
  -- height and a width. If what follows is not three bytes for each cell it is reported as
  -- definitely none, also where the expected size wraps around. If it is a word and then a byte
  -- for each cell, and the size does not wrap around, it is reported as definitely a level where
  -- every word is at most 481, and as definitely none otherwise.
  pub is_instance_decides_vinyl :
      (input : Input)
      → (length (contents input) < 4 → is_instance lib input ≡ ok definitely_no)
        × ((w h : ℕ) (body : List ℕ)
            → w < 2 ^ 16
            → h < 2 ^ 16
            → contents input ≡ level_bytes w h body
            → (length body ≢ w * h * 3 → is_instance lib input ≡ ok definitely_no)
              × ((bg fg : List ℕ)
                  → body ≡ words_bytes bg ++ fg
                  → AllWords bg
                  → length bg ≡ w * h
                  → length fg ≡ w * h
                  → w * h * 3 + 4 < 2 ^ 32
                  → (All (λ c. c ≤ max_valid_bgtilecode) bg
                      → is_instance lib input ≡ ok definitely_yes)
                    × (¬ All (λ c. c ≤ max_valid_bgtilecode) bg
                        → is_instance lib input ≡ ok definitely_no)))
  is_instance_decides_vinyl input = (
    is_instance_short input,
    λ w h body pw ph e. (
      is_instance_size input w h body pw ph e,
      λ bg fg split words len len' fits.
          let (s, left, runs) = is_instance_dimensions input w h body pw ph e in
          let count : length body + 4 ≡ (4 + w * h * 3) % 2 ^ 32 =
            omega
              (arith, ap length split, length-append (words_bytes bg) fg, length-words_bytes bg) in
          let scan : is_instance lib input ≡ (
              if any_above max_valid_bgtilecode bg then ok definitely_no else ok definitely_yes) =
            runs
            ∙ rw (count, ==_refl ((4 + w * h * 3) % 2 ^ 32))
                (rw len at (scan_words-any_above bg fg s words (left ∙ split))) in
          (
            λ small. scan ∙ rw (any_above-false max_valid_bgtilecode bg small),
            λ large. elim (Bool-cases (any_above max_valid_bgtilecode bg)) [
              | inl above ↦ scan ∙ rw above
              | inr below ↦ absurd (large (All-of_any_above max_valid_bgtilecode bg below))
            ],
          ),
    ),
  )
