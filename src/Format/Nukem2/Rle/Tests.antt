-- ===== src/Format/Nukem2/Rle/Tests.antt =====
-- The extra bits of three groups of cells in memory.
use libgamemaps.Prelude.{
  ℕ, ◌-◌, ◌*◌, ◌^◌, ◌<◌, ◌≡◌, refl, some, List, [], ◌∷◌, ◌++◌, length, take, replicate, arith,
}
use libgamemaps.Result.{ok}
use libgamemaps.Stream.Bytes.{AllBytes}
use libgamemaps.Stream.Memory.{Source, memory}
use libgamemaps.Format.Nukem2.Extra.{raw_extra, filled, read_extra}
use libgamemaps.Format.Nukem2.Rle.{rle_encode, rle_loop, rle_step, rle_last, put_diff, put_same}
use libgamemaps.Format.Nukem2.Rle.RoundTrip.{read_extra-rle_encode}

abbrev cells : List ℕ
cells = 32 ∷ 0 ∷ 0 ∷ 96 ∷ 0 ∷ 64 ∷ 0 ∷ 0 ∷ 0 ∷ 64 ∷ 0 ∷ 0 ∷ []

-- Different bytes, a run, and bytes 0 that are left out.
encoded : rle_encode (1 ∷ 2 ∷ 7 ∷ 7 ∷ 7 ∷ 0 ∷ 0 ∷ []) ≡ ok (254 ∷ 1 ∷ 2 ∷ 3 ∷ 7 ∷ 0 ∷ 0 ∷ [])
unfolding rle_encode rle_loop rle_step rle_last put_diff put_same
encoded = refl

read_extra-rle_encode_example :
    (bytes : List ℕ) × (rle_encode (raw_extra 3 cells) ≡ ok bytes)
    × AllBytes bytes
    × (length bytes < 2 ^ 16)
    × ((s : Source) (back : List ℕ)
        → s.rest ≡ bytes ++ back
        → (values : List ℕ) × (left : Source) × (read_extra memory 14
              (length bytes)
              (length bytes)
              0
              0
              s
            ≡ ok (some (values, left)))
          × (left.rest ≡ back)
          × (filled 14 values ≡ take (3 * 4) cells ++ replicate (14 - 3 * 4) 0))
read_extra-rle_encode_example =
    read_extra-rle_encode memory 14 3 cells (omega arith) (omega arith) (omega arith) (omega arith)
      (omega arith)
