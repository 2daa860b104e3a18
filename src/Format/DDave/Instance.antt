-- ===== src/Format/DDave/Instance.antt =====
-- Which files are Dangerous Dave levels.
use libgamemaps.Prelude.{
  ℕ, ◌≤◌, ◌≡◌, ◌≢◌, sym, ◌∙◌, List, inl, inr, length, take, drop, length-take, length-drop,
  take-append-drop, All, arith, Bool-cases, if◌then◌else◌,
}
use libgamemaps.Result.{ok}
use native.Mathlib.Decide.{ℕ_discrete}
use libgamemaps.Stream.{Streams}
use libgamemaps.Stream.Read.{try_read_exactly}
use libgamemaps.Map2D.{definitely_no, definitely_yes}
use libgamemaps.Format.{any_above, any_above-false, All-of_any_above}
use libgamemaps.Format.DDave.{layer_off_bg, layer_len_bg, filesize, max_valid_tilecode, is_instance}

-- The bytes of the background layer.
abbrev pub background : List ℕ → List ℕ
background bytes = take layer_len_bg (drop layer_off_bg bytes)

-- The bytes of a level: 1280 of them, those of the background at most 52.
pub record IsLevel (bytes : List ℕ) : Type 0 where
  pub fits : length bytes ≡ filesize
  pub codes : All (λ c. c ≤ max_valid_tilecode) (background bytes)

length-background : (bytes : List ℕ) → length bytes ≡ filesize → length (background bytes) ≡ 1000
length-background bytes len =
    length-take 1000 (drop 256 bytes) (omega (arith, length-drop 256 bytes))

module _ (lib : Streams) where
  open lib use {Input, contents, size_lem, seek_get_lem}

  is_instance_size :
      (input : Input)
      → length (contents input) ≢ filesize
      → is_instance lib input ≡ ok definitely_no
  unfolding is_instance
  is_instance_size input ne = rw (size_lem input) (ground arith)

  is_instance_scan :
      (input : Input)
      → length (contents input) ≡ filesize
      → is_instance lib input ≡ (
          if any_above max_valid_tilecode (background (contents input))
          then ok definitely_no
          else ok definitely_yes)
  unfolding is_instance
  is_instance_scan input len =
      let bytes = contents input in
      let bg = background bytes in
      let len_bg = length-background bytes len in
      let (s, runs, _, left) = seek_get_lem layer_off_bg input (omega arith) in
      let (s', reads, _, _) =
        try_read_exactly lib layer_len_bg s bg (drop layer_len_bg (drop layer_off_bg bytes))
          (left ∙ sym (take-append-drop layer_len_bg (drop layer_off_bg bytes))) len_bg in
      rw (size_lem input, len, runs, reads, len_bg)

  -- A file is reported as definitely a level of this format if it has 1280 bytes, those of its
  -- background layer at most 52, and as definitely none otherwise; the test itself never fails.
  pub is_instance_decides_ddave :
      (input : Input)
      → (IsLevel (contents input) → is_instance lib input ≡ ok definitely_yes)
        × (¬ IsLevel (contents input) → is_instance lib input ≡ ok definitely_no)
  is_instance_decides_ddave input = (
    λ level.
        is_instance_scan input level.fits
        ∙ rw (any_above-false max_valid_tilecode (background (contents input)) level.codes),
    λ not_level. elim (ℕ_discrete (length (contents input)) filesize) [
      | no ne ↦ is_instance_size input ne
      | yes len ↦ elim (Bool-cases (any_above max_valid_tilecode (background (contents input)))) [
        | inl above ↦ is_instance_scan input len ∙ rw above
        | inr below ↦ absurd (
            not_level (record {
              fits = len;
              codes = All-of_any_above max_valid_tilecode (background (contents input)) below;
            }))
      ]
    ],
  )
