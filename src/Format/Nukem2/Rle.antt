-- ===== src/Format/Nukem2/Rle.antt =====
-- The run-length encoding of the extra bits in the `write` of src/fmt-map-nukem2.cpp.
pub mod Tokens
pub mod Coding
pub mod Reading
pub mod RoundTrip
mod Tests
use libgamemaps.Prelude.{
  ℕ, zero, suc, ◌+◌, ◌-◌, not, ◌&&◌, List, [], ◌∷◌, ◌++◌, length, take, drop, ltb, ◌==◌,
  if◌then◌else◌,
}
use libgamemaps.Result.{Result, ok, assertion_failed}

-- The variables of the loop.
pub record RleState : Type 0 where
  pub rle_extra : List ℕ
  pub diff_count : List ℕ
  pub last_byte : ℕ
  pub last_byte_count : ℕ

-- The loop that writes the different bytes, at most `max` at a time. Each round takes a byte at
-- least, so the number of bytes is enough fuel.
unfoldable pub put_diff : ℕ → ℕ → List ℕ → List ℕ
put_diff max zero diff = []
put_diff max (suc fuel) [] = []
put_diff max (suc fuel) (byte ∷ bytes) =
    let diff = byte ∷ bytes in
    let len = if ltb max (length diff) then max else length diff in
    (256 - len) ∷ (take len diff ++ put_diff max fuel (drop len diff))

-- The loop that writes `count` times the same byte, at most 127 at a time. Each round takes one at
-- least, so the count is enough fuel.
unfoldable pub put_same : ℕ → ℕ → ℕ → List ℕ
put_same zero byte count = []
put_same (suc fuel) byte zero = []
put_same (suc fuel) byte (suc n) =
    let count = suc n in
    let amt = if ltb 127 count then 127 else count in amt ∷ byte ∷ put_same fuel byte (count - amt)

-- One round of the loop, at the byte `*i`.
unfoldable pub rle_step : RleState → ℕ → RleState
rle_step s byte =
    if s.last_byte == byte
    then record s {
      rle_extra = s.rle_extra ++ put_diff 127 (length s.diff_count) s.diff_count;
      diff_count = [];
      last_byte_count = s.last_byte_count + 1;
    }
    else if ltb 1 s.last_byte_count
    then record s {
      rle_extra = s.rle_extra ++ put_same s.last_byte_count s.last_byte s.last_byte_count;
      last_byte = byte;
      last_byte_count = 1;
    }
    else record s {
      diff_count = s.diff_count ++ s.last_byte ∷ [];
      last_byte = byte;
      last_byte_count = 1;
    }

unfoldable pub rle_loop : RleState → List ℕ → RleState
rle_loop s [] = s
rle_loop s (byte ∷ bytes) = rle_loop (rle_step s byte) bytes

-- What follows the loop: the different bytes that are left, the last run unless it is of bytes 0,
-- and two bytes 0.
unfoldable pub rle_last : RleState → List ℕ
rle_last s =
    let with_diff = s.rle_extra ++ put_diff 128 (length s.diff_count) s.diff_count in
    let with_same =
      if not (s.last_byte == 0) && ltb 0 s.last_byte_count
      then with_diff ++ put_same s.last_byte_count s.last_byte s.last_byte_count
      else with_diff in
    with_same ++ 0 ∷ 0 ∷ []

-- The encoding, with the assertion that there is a byte at all.
unfoldable pub rle_encode : List ℕ → Result (List ℕ)
rle_encode [] = assertion_failed
rle_encode (first ∷ bytes) = ok (
    rle_last (
      rle_loop (record { rle_extra = []; diff_count = []; last_byte = first; last_byte_count = 1 })
        bytes))
