-- ===== src/Format/Wacky/Tests.antt =====
-- Wacky Wheels levels in memory: runs of both directions.
use libgamemaps.Prelude.{ℕ, ◌-◌, ◌^◌, ◌==◌, if◌then◌else◌, false, ◌≡◌, refl, List, [], ◌∷◌, length}
use libgamemaps.Result.{ok, throw, undefined, short_read, ◌>>=◌}
use libgamemaps.Stream.Memory.{
  memory, file, empty, seek_get, read_u16le_from, skip, seek_put, write,
}
use libgamemaps.Map2D.{Point, Path2D}
use libgamemaps.Format.Wacky.{valid_items}
use libgamemaps.Format.Wacky.Path.{
  read_path, write_path, absolute, square_sum, read_points, skip_start, write_points, write_step,
}
use libgamemaps.Format.{valid_items_from}

-- Two steps, one to the right and one up, and the words of each.
abbrev steps : List ℕ
steps =
    2 ∷ 0 ∷ 10 ∷ 0 ∷ 20 ∷ 0 ∷ 13 ∷ 0 ∷ 20 ∷ 0 ∷ 0 ∷ 0 ∷ 6 ∷ 0 ∷ 3 ∷ 0 ∷ 13 ∷ 0 ∷ 20 ∷ 0 ∷ 13 ∷ 0
    ∷ 16 ∷ 0 ∷ 0 ∷ 0 ∷ 6 ∷ 0 ∷ 4 ∷ 0 ∷ []

abbrev points : List Point
points = (3, 0) ∷ (3, 2 ^ 32 - 4) ∷ []

abbrev level_path : Path2D
level_path = record {
  start = (10, 20) ∷ [];
  fixed = false;
  points = points;
  max_points = 0;
  force_closed = false;
}

-- Every step heads the same way, and both lengths are exact.
abbrev east : ℕ → ℕ → ℕ
east dy dx = 1920

abbrev root : ℕ → ℕ
root sum = if sum == 9 then 3 else 4

opens : read_path memory (file steps) ≡ ok level_path
unfolding read_path read_points skip_start seek_get read_u16le_from skip
opens = refl

cut_short : read_path memory (file (1 ∷ 0 ∷ 10 ∷ 0 ∷ 20 ∷ [])) ≡ throw short_read
unfolding read_path seek_get read_u16le_from
cut_short = refl

writes : (write_path memory east root (10, 20) points empty >>= λ o. ok o.written) ≡ ok steps
unfolding write_path write_points write_step absolute square_sum seek_put write
writes = refl

overflows : square_sum (2 ^ 31) 0 ≡ undefined
unfolding square_sum
overflows = refl

listed : length valid_items ≡ 108
unfolding valid_items valid_items_from
listed = refl
