-- ===== src/Stream/Bytes.antt =====
-- Bytes, and 16-bit little-endian words as two of them.
use libgamemaps.Prelude.{
  ℕ, ◌+◌, ◌*◌, ◌%◌, ◌/◌, ◌^◌, ◌<◌, ◌≡◌, refl, ap, List, [], ◌∷◌, ◌++◌, All, arith,
}

abbrev pub IsByte : ℕ → Type 0
IsByte b = b < 256

abbrev pub AllBytes : List ℕ → Type 0
AllBytes = All IsByte

pub AllBytes-append : (xs ys : List ℕ) → AllBytes xs → AllBytes ys → AllBytes (xs ++ ys)
AllBytes-append [] ys hx hy = hy
AllBytes-append (x ∷ xs) ys (h, hx) hy = (h, AllBytes-append xs ys hx hy)

-- What `u16le` writes for each of a list of words.
unfoldable pub words_bytes : List ℕ → List ℕ
words_bytes [] = []
words_bytes (v ∷ vs) = v % 256 ∷ v / 256 % 256 ∷ words_bytes vs

pub word_of_bytes : (v : ℕ) → v < 2 ^ 16 → v % 256 + 256 * (v / 256 % 256) ≡ v
word_of_bytes v h = omega arith

pub words_bytes-append :
    (xs ys : List ℕ) → words_bytes (xs ++ ys) ≡ words_bytes xs ++ words_bytes ys
unfolding words_bytes
words_bytes-append [] ys = refl
words_bytes-append (x ∷ xs) ys = ap (λ l. x % 256 ∷ x / 256 % 256 ∷ l) (words_bytes-append xs ys)
