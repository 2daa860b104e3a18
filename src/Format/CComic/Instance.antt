-- ===== src/Format/CComic/Instance.antt =====
-- Which files are Captain Comic levels, and one that is but cannot be opened.
use libgamemaps.Prelude.{
  ℕ, ◌+◌, ◌*◌, ◌%◌, ◌^◌, ◌≤◌, ◌<◌, ◌≡◌, ◌≢◌, ◌∙◌, true, not, List, [], inl, inr, length, All, arith,
  lt→ltb, le→ltb, ◌==◌, ==_refl, Bool-cases, if◌then◌else◌,
}
use libgamemaps.Result.{ok, assertion_failed}
use native.Mathlib.Decide.{ℕ_discrete}
use native.Mathlib.Nat.{mod-eq_of_lt}
use libgamemaps.Stream.{Streams}
use libgamemaps.Stream.Read.{try_read_to_end}
use libgamemaps.Map2D.{definitely_no, definitely_yes}
use libgamemaps.Format.{any_above, any_above-false, All-of_any_above}
use libgamemaps.Format.CComic.{max_valid_tilecode, is_instance, open_map}
use libgamemaps.Grid.Area.{area_le}
use libgamemaps.Format.CComic.Map.{level_bytes, map_len-word, read_dimensions, open_map_empty}

-- The codes fit the dimensions and are at most 87.
pub record IsLevel (w h : ℕ) (codes : List ℕ) : Type 0 where
  pub fits : length codes ≡ w * h
  pub in_range : All (λ c. c ≤ max_valid_tilecode) codes

module _ (lib : Streams) where
  open lib use {Input, contents, size, size_lem}

  size-level_bytes :
      (input : Input) (w h : ℕ) (codes : List ℕ)
      → contents input ≡ level_bytes w h codes
      → size input ≡ length codes + 4
  size-level_bytes input w h codes e = size_lem input ∙ rw e (omega arith)

  no_wrap : (w h : ℕ) → w < 2 ^ 16 → h < 2 ^ 16 → (w * h + 4) % 2 ^ 32 ≡ w * h + 4
  no_wrap w h pw ph = mod-eq_of_lt (omega (arith, area_le w h 65535 (omega arith) (omega arith)))

  is_instance_size :
      (input : Input) (w h : ℕ) (codes : List ℕ)
      → w < 2 ^ 16
      → h < 2 ^ 16
      → contents input ≡ level_bytes w h codes
      → length codes ≢ w * h
      → is_instance lib input ≡ ok definitely_no
  unfolding is_instance
  is_instance_size input w h codes pw ph e ne =
      let (s, s', s'', runs, reads, reads', left) = read_dimensions lib input w h codes pw ph e in
      let differ : not (length codes + 4 == w * h + 4) ≡ true = ground arith in
      rw (
        size-level_bytes input w h codes e,
        le→ltb (length codes + 4) 4 (omega arith),
        runs,
        reads,
        reads',
        map_len-word w h pw ph,
        no_wrap w h pw ph,
        differ,
      )

  is_instance_scan :
      (input : Input) (w h : ℕ) (codes : List ℕ)
      → w < 2 ^ 16
      → h < 2 ^ 16
      → contents input ≡ level_bytes w h codes
      → length codes ≡ w * h
      → is_instance lib input
        ≡ (if any_above max_valid_tilecode codes then ok definitely_no else ok definitely_yes)
  unfolding is_instance
  is_instance_scan input w h codes pw ph e len =
      let (s, s', s'', runs, reads, reads', left) = read_dimensions lib input w h codes pw ph e in
      let (_, reads'', _, _) = try_read_to_end lib (w * h) s'' codes left len in
      rw (
        size-level_bytes input w h codes e,
        le→ltb (length codes + 4) 4 (omega arith),
        runs,
        reads,
        reads',
        map_len-word w h pw ph,
        no_wrap w h pw ph,
        len,
        ==_refl (w * h + 4),
        reads'',
        len,
        ==_refl (w * h),
      )

  is_instance_short :
      (input : Input) → length (contents input) < 4 → is_instance lib input ≡ ok definitely_no
  unfolding is_instance
  is_instance_short input h = rw (size_lem input, lt→ltb (length (contents input)) 4 h)

  -- A file of fewer than 4 bytes is reported as definitely no level. Any other file, read as a
  -- width, a height and codes, is reported as definitely a level if there are width times height
  -- codes, each at most 87, and as definitely none otherwise.
  pub is_instance_decides_ccomic :
      (input : Input)
      → (length (contents input) < 4 → is_instance lib input ≡ ok definitely_no)
        × ((w h : ℕ) (codes : List ℕ)
            → w < 2 ^ 16
            → h < 2 ^ 16
            → contents input ≡ level_bytes w h codes
            → (IsLevel w h codes → is_instance lib input ≡ ok definitely_yes)
              × (¬ IsLevel w h codes → is_instance lib input ≡ ok definitely_no))
  is_instance_decides_ccomic input = (
    is_instance_short input,
    λ w h codes pw ph e. (
      λ level.
          is_instance_scan input w h codes pw ph e level.fits
          ∙ rw (any_above-false max_valid_tilecode codes level.in_range),
      λ not_level. elim (ℕ_discrete (length codes) (w * h)) [
        | no ne ↦ is_instance_size input w h codes pw ph e ne
        | yes len ↦ elim (Bool-cases (any_above max_valid_tilecode codes)) [
          | inl above ↦ is_instance_scan input w h codes pw ph e len ∙ rw above
          | inr below ↦ absurd (
              not_level
                (record { fits = len; in_range = All-of_any_above max_valid_tilecode codes below }))
        ]
      ],
    ),
  )

  -- A file of four bytes with a width or a height of 0 is reported as definitely a level, and
  -- opening it fails at an assertion of the map's constructor.
  pub empty_level_aborts :
      (input : Input) (w h : ℕ)
      → w < 2 ^ 16
      → h < 2 ^ 16
      → w * h ≡ 0
      → contents input ≡ level_bytes w h []
      → (is_instance lib input ≡ ok definitely_yes) × (open_map lib input ≡ assertion_failed)
  unfolding any_above
  empty_level_aborts input w h pw ph no_area e = (
    is_instance_scan input w h [] pw ph e (omega arith),
    open_map_empty lib input w h pw ph no_area e,
  )
