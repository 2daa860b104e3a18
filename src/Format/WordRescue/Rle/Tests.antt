-- ===== src/Format/WordRescue/Rle/Tests.antt =====
-- Runs in memory: the encoding of a row, and the theorem at a concrete layer.
use libgamemaps.Prelude.{ℕ, ◌≡◌, refl, List, [], ◌∷◌}
use libgamemaps.Result.{ok}
use libgamemaps.Stream.Memory.{memory, empty}
use libgamemaps.Format.WordRescue.Rle.{put_run, rle_step, rle_loop, write_last, rle_write}

abbrev row : List ℕ
row = 7 ∷ 7 ∷ 255 ∷ 9 ∷ []

row_encoded :
    rle_write memory row empty ≡ ok (6, record { written = 2 ∷ 7 ∷ 1 ∷ 255 ∷ 1 ∷ 9 ∷ []; tell = 6 })
unfolding rle_write rle_loop rle_step write_last put_run libgamemaps.Stream.Memory.write
row_encoded = refl
