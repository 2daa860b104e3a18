-- ===== src/Format/Nukem2/Extra.antt =====
-- The extra bits of the foreground tiles of a Duke Nukem II level, src/fmt-map-nukem2.cpp: two bits
-- of each cell, four cells to a byte, and the loop of `open` that reads the run-length encoded
-- bytes. The array of the extra bits has `total` cells and is zero from the place `ev` on, so a read
-- gives the cells from that place on.
use libgamemaps.Prelude.{
  ℕ, zero, suc, ◌+◌, ◌-◌, ◌*◌, ◌/◌, ◌%◌, ◌^◌, bit_or, true, false, Option, none, some, List, [],
  ◌∷◌, ◌++◌, replicate, take, ltb, leb, ◌==◌, if◌then◌else◌,
}
use mathlib.Core.Option
use libgamemaps.Result.{Result, ok, ◌>>=◌}
use libgamemaps.Stream.{Streams}

-- `(code << 5) & 0x60` and its three neighbours: the cells of a byte.
unfoldable pub extra_values : ℕ → List ℕ
extra_values code =
    (code % 4 * 32) ∷ (code / 4 % 4 * 32) ∷ (code / 16 % 4 * 32) ∷ (code / 64 % 4 * 32) ∷ []

-- The byte that four cells go into.
unfoldable pub extra_byte : ℕ → ℕ → ℕ → ℕ → ℕ
extra_byte e0 e1 e2 e3 = bit_or (bit_or (bit_or (e0 / 2 ^ 5) (e1 / 2 ^ 3)) (e2 / 2)) (e3 * 2)

-- The bytes of `n` groups of four cells.
unfoldable pub raw_extra : ℕ → List ℕ → List ℕ
raw_extra (suc n) (e0 ∷ e1 ∷ e2 ∷ e3 ∷ extra) = extra_byte e0 e1 e2 e3 ∷ raw_extra n extra
raw_extra _ _ = []

-- The inner loop over a run of `n` equal bytes: its cells, and the place behind them.
unfoldable pub same_run : ℕ → ℕ → ℕ → ℕ → List ℕ × ℕ
same_run total zero code ev = ([], ev)
same_run total (suc n) code ev =
    let later = same_run total n code (ev + 4) in
    if leb total (ev + 4) then ([], ev) else (extra_values code ++ later.0, later.1)

-- A run of bytes 0 only moves the place on.
unfoldable pub repeated_run : ℕ → ℕ → ℕ → ℕ → List ℕ × ℕ
repeated_run total n code ev =
    if code == 0 then (replicate (n * 4) 0, ev + n * 4) else same_run total n code ev

-- The whole array of `total` cells.
unfoldable pub filled : ℕ → List ℕ → List ℕ
filled total values = take total (values ++ replicate total 0)

module _ (lib : Streams) where
  open lib use {Input, Output, skip, read_u8}

  -- The inner loop over `n` different bytes: the cells, the count of bytes `i`, the place and the
  -- stream behind them.
  unfoldable pub literal_run : ℕ → ℕ → ℕ → ℕ → Input → Result (List ℕ × ℕ × ℕ × Input)
  literal_run total zero i ev input = ok ([], i, ev, input)
  literal_run total (suc n) i ev input = do
    (code, input') ← read_u8 input
    elim (leb total (ev + 4)) [
      | true ↦ ok ([], i + 1, ev, input')
      | false ↦ do
        (values, i', ev', left) ← literal_run total n (i + 1) (ev + 4) input'
        ok (extra_values code ++ values, i', ev', left)
    ]

  -- One round of the loop, up to its last test.
  unfoldable pub extra_run : ℕ → ℕ → ℕ → Input → Result (List ℕ × ℕ × ℕ × Input)
  extra_run total i ev input = do
    (code, input') ← read_u8 input
    if leb 128 code then literal_run total (256 - code) i ev input' else do
      (code', input'') ← read_u8 input'
      let (values, ev') = repeated_run total code code' ev
      ok (values, i + 1, ev', input'')

  -- The loop over the `len_extra` bytes, from byte `i` on. A round reads a byte at least, so the
  -- rounds are counted by `fuel`, and none says that it ran out.
  unfoldable pub read_extra : ℕ → ℕ → ℕ → ℕ → ℕ → Input → Result (Option (List ℕ × Input))
  read_extra total len_extra zero i ev input =
      ok (if leb len_extra i then some ([], input) else none)
  read_extra total len_extra (suc fuel) i ev input =
      if leb len_extra i then ok (some ([], input)) else do
        (values, i', ev', input') ← extra_run total i ev input
        let skipped = do
          left ← skip ((len_extra + 2 ^ 32 - i' - 1) % 2 ^ 32) input'
          ok (some (values, left))
        let continued = do
          later ← read_extra total len_extra fuel (i' + 1) ev' input'
          ok (Option.map (λ (r : List ℕ × Input). (values ++ r.0, r.1)) later)
        if ltb total (ev' + 4) then skipped else continued
