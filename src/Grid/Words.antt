-- ===== src/Grid/Words.antt =====
-- The loops of the formats whose cells are 16-bit words: src/fmt-map-duke1.cpp reads, tests and
-- writes one word at a time.
use libgamemaps.Prelude.{
  ℕ, zero, suc, ◌+◌, ◌*◌, ◌/◌, ◌%◌, ◌^◌, ◌<◌, ◌≡◌, refl, ap, ◌∙◌, Bool, true, false, List, [], ◌∷◌,
  ◌++◌, All, length, append-nil, append_assoc, arith, ltb, if◌then◌else◌, Bool-cases, inl, inr,
}
use libgamemaps.Result.{Result, ok, ◌>>=◌}
use libgamemaps.Stream.{Streams}
use libgamemaps.Stream.Bytes.{AllBytes, words_bytes, word_of_bytes}
use libgamemaps.Stream.Write.{Holds, Holds-write_u16le}
use libgamemaps.Map2D.{Item, default_item}
use libgamemaps.Grid.{grid_items}
use libgamemaps.Format.{any_above}

-- Every number is a 16-bit word.
abbrev pub AllWords : List ℕ → Type 0
AllWords = All (λ v. v < 2 ^ 16)

-- The words that bytes hold, two by two.
unfoldable pub bytes_words : List ℕ → List ℕ
bytes_words (lo ∷ hi ∷ bytes) = (lo + 256 * hi) ∷ bytes_words bytes
bytes_words _ = []

pub bytes_words-AllWords : (bytes : List ℕ) → AllBytes bytes → AllWords (bytes_words bytes)
unfolding bytes_words
bytes_words-AllWords [] h = tt
bytes_words-AllWords (lo ∷ []) h = tt
bytes_words-AllWords (lo ∷ hi ∷ bytes) (p, (q, h)) = (omega arith, bytes_words-AllWords bytes h)

pub length-bytes_words :
    (n : ℕ) (bytes : List ℕ) → length bytes ≡ n * 2 → length (bytes_words bytes) ≡ n
unfolding bytes_words
length-bytes_words zero [] e = refl
length-bytes_words (suc n) [] e = absurd (omega arith)
length-bytes_words n (lo ∷ []) e = absurd (omega arith)
length-bytes_words zero (lo ∷ hi ∷ bytes) e = absurd (omega arith)
length-bytes_words (suc n) (lo ∷ hi ∷ bytes) e =
    omega (arith, length-bytes_words n bytes (omega arith))

pub words_bytes-bytes_words :
    (n : ℕ) (bytes : List ℕ)
    → length bytes ≡ n * 2
    → AllBytes bytes
    → words_bytes (bytes_words bytes) ≡ bytes
unfolding bytes_words words_bytes
words_bytes-bytes_words zero [] e h = refl
words_bytes-bytes_words (suc n) [] e h = absurd (omega arith)
words_bytes-bytes_words n (lo ∷ []) e h = absurd (omega arith)
words_bytes-bytes_words zero (lo ∷ hi ∷ bytes) e h = absurd (omega arith)
words_bytes-bytes_words (suc n) (lo ∷ hi ∷ bytes) e (p, (q, h)) =
    let low : (lo + 256 * hi) % 256 ≡ lo = omega arith in
    let high : (lo + 256 * hi) / 256 % 256 ≡ hi = omega arith in
    rw (low, high, words_bytes-bytes_words n bytes (omega arith) h)

pub length-words_bytes : (vs : List ℕ) → length (words_bytes vs) ≡ length vs * 2
unfolding words_bytes
length-words_bytes [] = refl
length-words_bytes (v ∷ vs) = omega (arith, length-words_bytes vs)

module _ (lib : Streams) where
  open lib use {Input, Output, contents, rest, read_u16le, write_u16le, read_u16le_lem}

  -- The loop of `open`, `n` cells from cell `i` on, in rows of `width` cells.
  unfoldable pub read_cells : (ℕ → Bool) → ℕ → ℕ → ℕ → Input → Result (List Item × Input)
  read_cells keep width zero i input = ok ([], input)
  read_cells keep width (suc n) i input = do
    (tile_code, input') ← read_u16le input
    (tiles, input'') ← read_cells keep width n (i + 1) input'
    let t = default_item (i % width) (i / width) tile_code
    ok ((if keep tile_code then t ∷ tiles else tiles), input'')

  -- The loop of `isInstance` over `n` words: does one exceed the largest valid code?
  unfoldable pub reads_above : ℕ → ℕ → Input → Result Bool
  reads_above max zero input = ok false
  reads_above max (suc n) input = do
    (tile, input') ← read_u16le input
    if ltb max tile then ok true else reads_above max n input'

  -- The loop that writes an array of words.
  unfoldable pub write_words : List ℕ → Output → Result Output
  write_words [] output = ok output
  write_words (v ∷ vs) output = do output' ← write_u16le v output; write_words vs output'

  pub read_word :
      (s : Input) (v : ℕ) (bytes : List ℕ)
      → v < 2 ^ 16
      → rest s ≡ v % 256 ∷ v / 256 % 256 ∷ bytes
      → (s' : Input) × (read_u16le s ≡ ok (v, s')) × (rest s' ≡ bytes)
  read_word s v bytes small e =
      let (s', reads, _, left) = read_u16le_lem s (v % 256) (v / 256 % 256) bytes e in
      (s', reads ∙ ap (λ u. ok (u, s')) (word_of_bytes v small), left)

  -- The cells that are read are those of the grid of words.
  pub read_cells-grid_items :
      (keep : ℕ → Bool) (w i : ℕ) (codes back : List ℕ) (s : Input)
      → AllWords codes
      → rest s ≡ words_bytes codes ++ back
      → (s' : Input) × (read_cells keep w (length codes) i s ≡ ok (grid_items keep w i codes, s'))
        × (rest s' ≡ back)
  unfolding read_cells grid_items words_bytes
  read_cells-grid_items keep w i [] back s small e = (s, refl, e)
  read_cells-grid_items keep w i (c ∷ codes) back s (p, small) e =
      let (s', reads, left) = read_word s c (words_bytes codes ++ back) p e in
      let (s'', reads', left') = read_cells-grid_items keep w (i + 1) codes back s' small left in
      (s'', rw (reads, reads'), left')

  pub reads_above-any_above :
      (max : ℕ) (codes : List ℕ) (s : Input)
      → AllWords codes
      → rest s ≡ words_bytes codes
      → reads_above max (length codes) s ≡ ok (any_above max codes)
  unfolding reads_above words_bytes any_above
  reads_above-any_above max [] s small e = refl
  reads_above-any_above max (c ∷ codes) s (p, small) e =
      let (s', reads, left) = read_word s c (words_bytes codes) p e in
      let later = reads_above-any_above max codes s' small left in
      elim (Bool-cases (ltb max c)) [
        | inl above ↦ rw (reads, above)
        | inr below ↦ rw (reads, below) later
      ]

  pub Holds-write_words :
      (vs bytes : List ℕ) (o : Output)
      → Holds lib bytes o
      → (o' : Output) × (write_words vs o ≡ ok o') × Holds lib (bytes ++ words_bytes vs) o'
  unfolding write_words words_bytes
  Holds-write_words [] bytes o h = (o, refl, rw (append-nil bytes) h)
  Holds-write_words (v ∷ vs) bytes o h =
      let (o', writes, h') = Holds-write_u16le lib v h in
      let (o'', writes', h'') = Holds-write_words vs _ o' h' in
      (
        o'',
        rw writes writes',
        rw (← append_assoc bytes (v % 256 ∷ v / 256 % 256 ∷ []) (words_bytes vs)) h'',
      )
