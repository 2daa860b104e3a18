-- ===== src/Format/Nukem2/Tests.antt =====
-- Duke Nukem II levels in memory: the theorems at concrete inputs.
use libgamemaps.Prelude.{
  ℕ, zero, suc, ◌≡◌, ◌≢◌, refl, ap, inl, inr, none, some, List, [], ◌∷◌, ◌++◌, drop,
  length-replicate, replicate, arith,
}
use libgamemaps.Result.{ok}
use libgamemaps.Stream.Memory.{Source, Sink, memory, file, empty}
use libgamemaps.Map2D.{Map2D}
use libgamemaps.Format.Nukem2.Cells.{cell_word, cell_extra, cell_extras, read_cell}
use libgamemaps.Format.Nukem2.Extra.{read_extra}
use libgamemaps.Format.Nukem2.Tiles.{IsCell, AllCells, both_cell}
use libgamemaps.Format.Nukem2.Ends.{read_extra_ends}
use libgamemaps.Format.Nukem2.RoundTrip.{ReadsBack, write_cells-ReadsBack}
use libgamemaps.Format.Nukem2.{write_cells}

both_cell_example : read_cell (cell_word 7 130) (cell_extra 7 130) ≡ (some 7, some 2)
both_cell_example = both_cell 7 130 (omega arith) (omega arith) (omega arith)

read_extra_ends_example : read_extra memory 40 3 3 0 0 (file (130 ∷ 1 ∷ [])) ≢ ok none
read_extra_ends_example = read_extra_ends memory 40 3 3 0 0 (file (130 ∷ 1 ∷ [])) (omega arith)

-- A level with a tile of both layers in its first cell.
abbrev bg : List ℕ
bg = 5 ∷ replicate 32749 0

abbrev fg : List ℕ
fg = 120 ∷ replicate 32749 0xFFFF

cells-replicate : (n b f : ℕ) → IsCell b f → AllCells (replicate n b) (replicate n f)
cells-replicate zero b f h = tt
cells-replicate (suc n) b f h = (h, cells-replicate n b f h)

extras-replicate :
    (n b f : ℕ) → cell_extras (replicate n b) (replicate n f) ≡ replicate n (cell_extra b f)
unfolding cell_extras
extras-replicate zero b f = refl
extras-replicate (suc n) b f = ap (λ l. cell_extra b f ∷ l) (extras-replicate n b f)

last_two : drop 32748 (cell_extras bg fg) ≡ 0 ∷ 0 ∷ []
unfolding cell_extras cell_extra
last_two = ap (drop 32747) (extras-replicate 32749 0 0xFFFF)

write_cells-ReadsBack_example :
    (o : Sink) × (bytes : List ℕ) × (write_cells memory 128 200 bg fg empty ≡ ok o)
    × (o.written ≡ bytes)
    × ((s : Source) (back : List ℕ) → s.rest ≡ bytes ++ back → ReadsBack memory 128 bg fg s back)
write_cells-ReadsBack_example =
    write_cells-ReadsBack memory 128 200 bg fg empty (omega arith) (omega arith) (omega arith)
      (ap suc (length-replicate {A = ℕ} 32749 0))
      ((omega arith, inr (omega arith)), cells-replicate 32749 0 0xFFFF (omega arith, inl refl))
      last_two (record { bytes_written = refl; at_end = refl })
