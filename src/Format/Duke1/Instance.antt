-- ===== src/Format/Duke1/Instance.antt =====
-- Which files are Duke Nukem 1 levels.
use libgamemaps.Prelude.{
  ℕ, ◌≤◌, ◌≡◌, ◌≢◌, sym, ◌∙◌, inl, inr, List, length, All, arith, Bool-cases, if◌then◌else◌,
}
use libgamemaps.Result.{ok}
use libgamemaps.Stream.{Streams}
use libgamemaps.Stream.Bytes.{AllBytes}
use libgamemaps.Stream.Read.{from_start}
use libgamemaps.Map2D.{definitely_no, definitely_yes}
use libgamemaps.Grid.Words.{
  bytes_words, bytes_words-AllWords, length-bytes_words, words_bytes-bytes_words,
  reads_above-any_above,
}
use native.Mathlib.Decide.{ℕ_discrete}
use libgamemaps.Format.{any_above, any_above-false, All-of_any_above}
use libgamemaps.Format.Duke1.{layer_len, filesize, max_valid_tilecode, is_instance}

-- The bytes of a level: 23040 of them, their words at most 0xF000.
pub record IsLevel (bytes : List ℕ) : Type 0 where
  pub fits : length bytes ≡ filesize
  pub codes : All (λ c. c ≤ max_valid_tilecode) (bytes_words bytes)

module _ (lib : Streams) where
  open lib use {Input, contents, size_lem}

  is_instance_size :
      (input : Input)
      → length (contents input) ≢ filesize
      → is_instance lib input ≡ ok definitely_no
  unfolding is_instance
  is_instance_size input ne = rw (size_lem input) (ground arith)

  is_instance_scan :
      (input : Input)
      → length (contents input) ≡ filesize
      → AllBytes (contents input)
      → is_instance lib input ≡ (
          if any_above max_valid_tilecode (bytes_words (contents input))
          then ok definitely_no
          else ok definitely_yes)
  unfolding is_instance
  is_instance_scan input len bytes =
      let (s, runs, same, left) = from_start lib input in
      let scanned =
        reads_above-any_above lib max_valid_tilecode (bytes_words (contents input)) s
          (bytes_words-AllWords (contents input) bytes)
          (left ∙ sym (words_bytes-bytes_words layer_len (contents input) len bytes)) in
      let count = length-bytes_words layer_len (contents input) len in
      rw (size_lem input, len, runs, rw count at scanned)

  -- A file of bytes is reported as definitely a Duke Nukem 1 level if it has 23040 bytes and its
  -- little-endian words are at most 0xF000, and as definitely none otherwise; the test itself
  -- never fails.
  pub is_instance_decides_duke1 :
      (input : Input)
      → AllBytes (contents input)
      → (IsLevel (contents input) → is_instance lib input ≡ ok definitely_yes)
        × (¬ IsLevel (contents input) → is_instance lib input ≡ ok definitely_no)
  is_instance_decides_duke1 input bytes =
      let words = bytes_words (contents input) in
      (
        λ level.
            is_instance_scan input level.fits bytes
            ∙ rw (any_above-false max_valid_tilecode words level.codes),
        λ not_level. elim (ℕ_discrete (length (contents input)) filesize) [
          | no ne ↦ is_instance_size input ne
          | yes len ↦ elim (Bool-cases (any_above max_valid_tilecode words)) [
            | inl above ↦ is_instance_scan input len bytes ∙ rw above
            | inr below ↦ absurd (
                not_level
                  (record { fits = len; codes = All-of_any_above max_valid_tilecode words below }))
          ]
        ],
      )
