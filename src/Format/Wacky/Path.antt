-- ===== src/Format/Wacky/Path.antt =====
-- The path of a Wacky Wheels level, src/fmt-map-wacky.cpp: the number of its points and, for each,
-- seven words: where the step starts and ends, its angle, image and length. Coordinates are 32-bit
-- patterns. The angle and the length come from floating point, which is a parameter:
-- `heading dy dx` is `1920 + atan2(dy, dx) * 960 / M_PI` and `root n` is `sqrt(n)`, cut off to
-- an integer.
use libgamemaps.Prelude.{
  ℕ, zero, suc, ◌+◌, ◌-◌, ◌*◌, ◌%◌, ◌/◌, ◌^◌, Bool, true, false, List, [], ◌∷◌, length, ltb,
  if◌then◌else◌,
}
use libgamemaps.Result.{Result, ok, undefined, ◌>>=◌}
use libgamemaps.Stream.{Streams}
use libgamemaps.Map2D.{Point, Path2D}

abbrev pub angle_max : ℕ
angle_max = 1920

-- `a - b` on 32 bits
abbrev pub minus : ℕ → ℕ → ℕ
minus a b = (a + 2 ^ 32 - b) % 2 ^ 32

-- `firstX + i->first` and `firstY + i->second` on 32 bits
unfoldable pub absolute : Point → Point → Point
absolute (first_x, first_y) (x, y) = ((first_x + x) % 2 ^ 32, (first_y + y) % 2 ^ 32)

-- The size of the signed number with this 32-bit pattern.
abbrev pub magnitude : ℕ → ℕ
magnitude v = if ltb v (2 ^ 31) then v else 2 ^ 32 - v

-- `deltaX*deltaX + deltaY*deltaY` on 32-bit signed numbers, undefined where it overflows.
unfoldable pub square_sum : ℕ → ℕ → Result ℕ
square_sum dx dy =
    let sum = magnitude dx * magnitude dx + magnitude dy * magnitude dy in
    if ltb sum (2 ^ 31) then ok sum else undefined

-- `(int)(angle / 240.0 + 6.5) % 8`: the halves are exact in floating point.
abbrev pub image_of : ℕ → ℕ
image_of angle = (angle + 1560) / 240 % 8

module _ (lib : Streams) where
  open lib use {Input, Output, seek_get, skip, read_u16le, seek_put, write_u16le, truncate}

  -- `if (i > 0) rd->seekg(4, stream::cur)`
  unfoldable pub skip_start : Bool → Input → Result Input
  skip_start true rd = ok rd
  skip_start false rd = skip 4 rd

  -- The reading loop of `open`, for this many points more.
  unfoldable pub read_points : Bool → ℕ → ℕ → ℕ → Input → Result (List Point)
  read_points first start_x start_y zero rd = ok []
  read_points first start_x start_y (suc n) rd = do
    rd1 ← skip_start first rd
    (next_x, rd2) ← read_u16le rd1
    (next_y, rd3) ← read_u16le rd2
    rd4 ← skip 6 rd3
    points ← read_points false start_x start_y n rd4
    ok ((minus next_x start_x, minus next_y start_y) ∷ points)

  unfoldable pub read_path : Input → Result Path2D
  read_path rd = do
    rd' ← seek_get 0 rd
    (num_points, rd1) ← read_u16le rd'
    (start_x, rd2) ← read_u16le rd1
    (start_y, rd3) ← read_u16le rd2
    points ← read_points true start_x start_y num_points rd3
    ok (record {
      start = (start_x, start_y) ∷ [];
      fixed = false;
      points = points;
      max_points = 0;
      force_closed = false;
    })

  -- One point of the writing loop, from the point `(last_x, last_y)` to `(next_x, next_y)`.
  unfoldable pub write_step : (ℕ → ℕ → ℕ) → (ℕ → ℕ) → Point → Point → Output → Result Output
  write_step heading root (last_x, last_y) (next_x, next_y) rd = do
    rd1 ← write_u16le last_x rd
    rd2 ← write_u16le last_y rd1
    let delta_x = minus next_x last_x
    let delta_y = minus next_y last_y
    let angle = heading delta_y delta_x % angle_max
    sum ← square_sum delta_x delta_y
    rd3 ← write_u16le next_x rd2
    rd4 ← write_u16le next_y rd3
    rd5 ← write_u16le angle rd4
    rd6 ← write_u16le (image_of angle) rd5
    write_u16le (root sum) rd6

  unfoldable pub write_points :
      (ℕ → ℕ → ℕ) → (ℕ → ℕ) → Point → Point → List Point → Output → Result Output
  write_points heading root first last [] rd = ok rd
  write_points heading root first last (point ∷ points) rd = do
    rd' ← write_step heading root last (absolute first point) rd
    write_points heading root first (absolute first point) points rd'

  -- The part of `write` that fills the second file.
  unfoldable pub write_path : (ℕ → ℕ → ℕ) → (ℕ → ℕ) → Point → List Point → Output → Result Output
  write_path heading root start points rd = do
    rd' ← seek_put 0 rd
    let count = length points % 2 ^ 16
    rd1 ← write_u16le count rd'
    rd2 ← write_points heading root start start points rd1
    truncate (2 + count * 14) rd2
