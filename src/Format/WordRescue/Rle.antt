-- ===== src/Format/WordRescue/Rle.antt =====
-- The run-length encoding of a layer in src/fmt-map-wordresc.cpp: rleWrite(), and the loop of
-- `open` that reads the background layer.
pub mod Runs
pub mod Reading
pub mod RoundTrip
mod Tests
use libgamemaps.Prelude.{
  ℕ, zero, suc, ◌+◌, ◌*◌, ◌/◌, ◌%◌, Option, none, some, List, [], ◌∷◌, ◌++◌, ltb, leb, ◌==◌,
  if◌then◌else◌,
}
use libgamemaps.Result.{Result, ok, undefined, ◌>>=◌}
use libgamemaps.Stream.{Streams}
use libgamemaps.Map2D.{Item, default_item}

abbrev pub default_bgtile : ℕ
default_bgtile = 0xFF

-- The variables of rleWrite() and the stream.
pub record RleState (Output : Type 0) : Type 0 where
  pub last_count : ℕ
  pub last_code : ℕ
  pub len_written : ℕ
  pub output : Output

-- The inner loop of `open`: `num` items from cell `i` on.
unfoldable pub run_items : ℕ → ℕ → ℕ → ℕ → List Item
run_items width zero i code = []
run_items width (suc num) i code =
    default_item (i % width) (i / width) code ∷ run_items width num (i + 1) code

module _ (lib : Streams) where
  open lib use {Input, Output, read_u8, write_u8}

  -- A run is written, and the count of bytes moves on.
  unfoldable pub put_run : RleState Output → Result (RleState Output)
  put_run s = do
    output' ← write_u8 s.last_count s.output
    output'' ← write_u8 s.last_code output'
    ok (record s { len_written = s.len_written + 2; output = output'' })

  -- One round of the loop, at `data[i]`.
  unfoldable pub rle_step : RleState Output → ℕ → Result (RleState Output)
  rle_step s code =
      if code == s.last_code
      then if s.last_count == 0xFF
        then (put_run s >>= λ s'. ok (record s' { last_count = 1 }))
        else ok (record s { last_count = s.last_count + 1 })
      else (put_run s >>= λ s'. ok (record s' { last_code = code; last_count = 1 }))

  unfoldable pub rle_loop : RleState Output → List ℕ → Result (RleState Output)
  rle_loop s [] = ok s
  rle_loop s (code ∷ codes) = do s' ← rle_step s code; rle_loop s' codes

  -- The last run
  unfoldable pub write_last : RleState Output → Result (RleState Output)
  write_last s = if ltb 0 s.last_count then put_run s else ok s

  -- rleWrite(), which takes `data[0]` also where there is no data.
  unfoldable pub rle_write : List ℕ → Output → Result (ℕ × Output)
  rle_write [] o = undefined
  rle_write (first ∷ codes) o = do
    s ←
        rle_loop (record { last_count = 0; last_code = first; len_written = 0; output = o })
          (first ∷ codes)
    s' ← write_last s
    ok (s'.len_written, s'.output)

  -- The loop of `open` over the runs of the background layer, from cell `i` of `total` on. A run
  -- may be empty, so the rounds are counted by `fuel`, and none says that it ran out.
  unfoldable pub read_tiles : ℕ → ℕ → ℕ → ℕ → Input → Result (Option (List Item × Input))
  read_tiles width total zero i input = ok (if leb total i then some ([], input) else none)
  read_tiles width total (suc fuel) i input = if leb total i then ok (some ([], input)) else do
    (num, input') ← read_u8 input
    (code, input'') ← read_u8 input'
    later ← read_tiles width total fuel (i + num) input''
    ok (elim later [
      | none ↦ none
      | some (tiles, left) ↦
          some
            ((if code == default_bgtile then tiles else run_items width num i code ++ tiles), left)
    ])
