-- ===== src/Format/Cosmo/Instance.antt =====
-- Which files are Cosmo levels, and which of them cannot be opened.
use libgamemaps.Prelude.{
  ℕ, ◌+◌, ◌-◌, ◌*◌, ◌/◌, ◌^◌, ◌≤◌, ◌<◌, ◌≡◌, ap, ◌∙◌, ◌⊎◌, List, [], ◌∷◌, ◌++◌, length,
  length-append, arith, true, false, ltb, if◌then◌else◌, drop, lt→ltb, le→ltb,
}
use libgamemaps.Result.{ok, throw, undefined, map_truncated}
use libgamemaps.Stream.{Streams}
use libgamemaps.Stream.Bytes.{words_bytes, words_bytes-append}
use libgamemaps.Stream.Read.{from_start}
use libgamemaps.Map2D.{definitely_no, definitely_yes}
use libgamemaps.Grid.Words.{read_word, length-words_bytes}
use libgamemaps.Format.Cosmo.{layer_len_bg, max_width, max_actors, is_instance, open_map}
use libgamemaps.Format.Cosmo.Storing.{
  Actor, AllActors, actor_words, read_actors-actor_items, length-actor_words,
}
use libgamemaps.Format.Cosmo.Map.{level_words}

-- The bytes of a file: flags, a width, a number of words of actors, and what follows.
abbrev pub header_bytes : ℕ → ℕ → ℕ → List ℕ → List ℕ
header_bytes flags w ints body = words_bytes (flags ∷ w ∷ ints ∷ []) ++ body

module _ (lib : Streams) where
  open lib use {Input, contents, rest, size, size_lem, seek_get_lem}

  size-header_bytes :
      (input : Input) (flags w ints : ℕ) (body : List ℕ)
      → contents input ≡ header_bytes flags w ints body
      → size input ≡ length body + 6
  unfolding words_bytes
  size-header_bytes input flags w ints body e = size_lem input ∙ rw e (omega arith)

  is_instance_header :
      (input : Input) (flags w ints : ℕ) (body : List ℕ)
      → w < 2 ^ 16
      → ints < 2 ^ 16
      → contents input ≡ header_bytes flags w ints body
      → layer_len_bg ≤ length body
      → is_instance lib input ≡ (
          if ltb max_width w
          then ok definitely_no
          else if ltb (max_actors * 3) ints
          then ok definitely_no
          else if ltb (length body + 6) (6 + ints * 3)
          then ok definitely_no
          else ok definitely_yes)
  unfolding is_instance words_bytes
  is_instance_header input flags w ints body pw pi e long =
      let count = size-header_bytes input flags w ints body e in
      let (s, runs, _, left) = seek_get_lem 2 input (omega (arith, count, size_lem input)) in
      let (s1, reads1, left1) = read_word lib s w _ pw (left ∙ ap (drop 2) e) in
      let (s2, reads2, _) = read_word lib s1 ints _ pi left1 in
      rw (count, le→ltb (length body + 6) (6 + layer_len_bg) (omega arith), runs, reads1, reads2)

  -- A file of fewer than 65534 bytes is reported as definitely no level. Any longer file that
  -- starts with flags, a width and a number of words of actors is reported as definitely a level
  -- where the width is at most 512 and the number at most 1536, and as definitely none where one
  -- of them is larger. The last test, of the size against the number of actors, never fails.
  pub is_instance_decides_cosmo :
      (input : Input)
      → (length (contents input) < 6 + layer_len_bg → is_instance lib input ≡ ok definitely_no)
        × ((flags w ints : ℕ) (body : List ℕ)
            → w < 2 ^ 16
            → ints < 2 ^ 16
            → contents input ≡ header_bytes flags w ints body
            → layer_len_bg ≤ length body
            → (w ≤ max_width → ints ≤ max_actors * 3 → is_instance lib input ≡ ok definitely_yes)
              × ((max_width < w) ⊎ (max_actors * 3 < ints)
                  → is_instance lib input ≡ ok definitely_no))
  unfolding is_instance
  is_instance_decides_cosmo input = (
    λ short. rw (size_lem input, lt→ltb (length (contents input)) (6 + layer_len_bg) short),
    λ flags w ints body pw pi e long.
        let decides = is_instance_header input flags w ints body pw pi e long in
        (λ narrow few. decides ∙ ground arith, λ large. decides ∙ ground arith),
  )

  -- A file of a width of 0 with at most 512 actors is reported as definitely a level where it is
  -- long enough, and opening it divides by zero.
  pub open_map_divides_by_zero_cosmo :
      (input : Input) (flags : ℕ) (actors : List Actor) (bg : List ℕ)
      → flags < 2 ^ 16
      → AllActors (2 ^ 16) (2 ^ 16) actors
      → length actors ≤ max_actors
      → layer_len_bg ≤ length bg * 2
      → contents input ≡ words_bytes (level_words flags 0 actors bg)
      → (is_instance lib input ≡ ok definitely_yes) × (open_map lib input ≡ undefined)
  unfolding open_map words_bytes
  open_map_divides_by_zero_cosmo input flags actors bg pf inside few long e =
      let body = words_bytes (actor_words actors ++ bg) in
      let len : length body ≡ length actors * 6 + length bg * 2 =
        length-words_bytes (actor_words actors ++ bg)
        ∙ omega (arith, length-append (actor_words actors) bg, length-actor_words actors) in
      let count = size-header_bytes input flags 0 (length actors * 3) body e in
      let (s, runs, _, left) = from_start lib input in
      let (s1, reads1, left1) = read_word lib s flags _ pf (left ∙ e) in
      let (s2, reads2, left2) = read_word lib s1 0 _ (omega arith) left1 in
      let (s3, reads3, left3) = read_word lib s2 (length actors * 3) _ (omega arith) left2 in
      let (s4, reads4, _) =
        read_actors-actor_items lib (2 ^ 16) (2 ^ 16) actors (words_bytes bg) s3 (omega arith)
          (omega arith) inside (left3 ∙ words_bytes-append (actor_words actors) bg) in
      let third : length actors * 3 / 3 ≡ length actors = omega arith in
      let enough : ltb (size input - 6) (length actors * 6) ≡ false = le→ltb _ _ (omega arith) in
      (
        ((is_instance_decides_cosmo input).1 flags 0 (length actors * 3) body (omega arith)
              (omega arith) e (omega arith)).0
            (omega arith) (omega arith),
        rw (runs, reads1, reads2, reads3, third, enough, reads4),
      )

  -- A file whose header is followed by fewer bytes than its actors take throws.
  pub open_map_truncated_cosmo :
      (input : Input) (flags w ints : ℕ) (body : List ℕ)
      → flags < 2 ^ 16
      → w < 2 ^ 16
      → ints < 2 ^ 16
      → contents input ≡ header_bytes flags w ints body
      → length body < ints / 3 * 6
      → open_map lib input ≡ throw map_truncated
  unfolding open_map words_bytes
  open_map_truncated_cosmo input flags w ints body pf pw pi e short =
      let count = size-header_bytes input flags w ints body e in
      let (s, runs, _, left) = from_start lib input in
      let (s1, reads1, left1) = read_word lib s flags _ pf (left ∙ e) in
      let (s2, reads2, left2) = read_word lib s1 w _ pw left1 in
      let (s3, reads3, _) = read_word lib s2 ints _ pi left2 in
      let few : ltb (size input - 6) (ints / 3 * 6) ≡ true = lt→ltb _ _ (omega arith) in
      rw (runs, reads1, reads2, reads3, few)
