-- ===== src/Grid/Padded.antt =====
-- Grids that end in cells of the default code.
use libgamemaps.Prelude.{
  ℕ, zero, suc, ◌+◌, ◌*◌, ◌≡◌, refl, ap, ◌∙◌, Bool, false, List, [], ◌∷◌, ◌++◌, replicate, arith,
}
use libgamemaps.Stream.Bytes.{words_bytes}
use libgamemaps.Grid.{grid_items}

module _ (keep : ℕ → Bool) (d : ℕ) (skipped : keep d ≡ false) where
  grid_items-replicate : (w i k : ℕ) → grid_items keep w i (replicate k d) ≡ []
  unfolding grid_items
  grid_items-replicate w i zero = refl
  grid_items-replicate w i (suc k) = rw skipped (grid_items-replicate w (i + 1) k)

  -- Cells of the default code at the end make no items.
  pub grid_items-padded :
      (w i k : ℕ) (codes : List ℕ)
      → grid_items keep w i (codes ++ replicate k d) ≡ grid_items keep w i codes
  unfolding grid_items
  grid_items-padded w i k [] = grid_items-replicate w i k
  grid_items-padded w i k (c ∷ codes) = rw (grid_items-padded w (i + 1) k codes)

-- Words that are 0 are bytes that are 0.
pub words_bytes-zeros : (k : ℕ) → words_bytes (replicate k 0) ≡ replicate (k * 2) 0
unfolding words_bytes
words_bytes-zeros zero = refl
words_bytes-zeros (suc k) =
    ap (λ (l : List ℕ). 0 ∷ 0 ∷ l) (words_bytes-zeros k)
    ∙ ap (λ (n : ℕ). replicate n 0) {x = suc (suc (k * 2))} {y = suc k * 2} (omega arith)
