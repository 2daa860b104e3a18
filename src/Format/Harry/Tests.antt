-- ===== src/Format/Harry/Tests.antt =====
-- Halloween Harry levels in memory: the theorems at concrete inputs.
use libgamemaps.Prelude.{
  ℕ, ◌+◌, ◌*◌, ◌^◌, ◌≤◌, ◌<◌, ◌≡◌, ◌≢◌, refl, some, List, [], ◌∷◌, ◌++◌, map, length, replicate,
  arith,
}
use libgamemaps.Result.{ok, undefined}
use libgamemaps.Stream.Memory.{Source, Sink, memory, file, empty}
use libgamemaps.Map2D.{Map2D, definitely_no, definitely_yes}
use libgamemaps.Format.Harry.{signature, is_instance, open_map, write_map}
use libgamemaps.Format.Harry.Storing.{Actor, written_actor}
use libgamemaps.Format.Harry.Map.{Header, IsHeader, level_bytes, written_header}
use libgamemaps.Format.Harry.RoundTrip.{write_map-open_map_harry}
use libgamemaps.Format.Harry.Instance.{
  Head, IsHead, InRange, head_bytes, body_bytes, is_instance_decides_harry,
}

abbrev header : Header
header = record {
  before = replicate 22 1;
  start_x = 1;
  start_y = 0;
  between = 5 ∷ 6 ∷ [];
  map_flags = 7;
  palette = replicate 768 9;
  tile_flags = replicate 256 1;
  unknown_block = replicate 10 3;
}

header-IsHeader : IsHeader header
header-IsHeader = record {
  before_length = refl;
  start_x_fits = omega arith;
  start_y_fits = omega arith;
  between_length = refl;
  palette_length = refl;
  tile_flags_length = refl;
  unknown_block_length = refl;
}

-- An actor 20 pixels from the left.
abbrev actors : List Actor
actors = record { code = 17; x = 20; y = 3; others = replicate 123 4 } ∷ []

abbrev input : Source
input = file (level_bytes header actors 2 1 ((5 ∷ 254 ∷ []) ++ (254 ∷ 6 ∷ [])))

write_map-open_map_harry_example :
    (m : Map2D) × (o : Sink) × (open_map memory input ≡ ok m)
    × (write_map memory (some m) empty ≡ ok o)
    × (o.written
        ≡ level_bytes
            (written_header header)
            (map written_actor actors)
            2
            1
            ((5 ∷ 254 ∷ []) ++ (254 ∷ 6 ∷ [])))
write_map-open_map_harry_example =
    write_map-open_map_harry memory input empty header actors 2 1 (5 ∷ 254 ∷ []) (254 ∷ 6 ∷ [])
      header-IsHeader (omega arith) (omega arith) (omega arith) (omega arith)
      ((omega arith, omega arith, omega arith, omega arith, omega arith, refl), tt) (omega arith)
      refl refl (omega arith) (omega arith) refl
      (record { nothing_written = refl; at_start = refl })

abbrev head : Head
head = record {
  sig = signature;
  skipped = replicate 11 0;
  palette = replicate 768 63;
  tile_flags = replicate 256 1;
  unknown_block = replicate 10 0;
  num_actors = 0;
}

-- A level of 2 x 1 tiles.
abbrev level_file : Source
level_file = file (head_bytes head (body_bytes [] 2 1 (replicate 4 5)))

is_instance_decides_harry_example :
    (length level_file.contents < 1069 → is_instance memory level_file ≡ ok definitely_no)
    × ((p : Head) (more : List ℕ)
        → IsHead p
        → level_file.contents ≡ head_bytes p more
        → (¬ InRange p → is_instance memory level_file ≡ ok definitely_no)
          × (InRange p
              → length more < p.num_actors * 128 + 4
              → is_instance memory level_file ≡ ok definitely_no)
          × ((actors cells : List ℕ) (w h : ℕ)
              → InRange p
              → more ≡ body_bytes actors w h cells
              → length actors ≡ p.num_actors * 128
              → w < 2 ^ 16
              → h < 2 ^ 16
              → (2 ^ 31 ≤ w * h * 2 → is_instance memory level_file ≡ undefined)
                × (w * h * 2 < 2 ^ 31
                    → length cells ≡ w * h * 2
                    → is_instance memory level_file ≡ ok definitely_yes)
                × (w * h * 2 < 2 ^ 31
                    → length cells ≢ w * h * 2
                    → is_instance memory level_file ≡ ok definitely_no)))
is_instance_decides_harry_example = is_instance_decides_harry memory level_file
