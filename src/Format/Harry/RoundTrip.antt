-- ===== src/Format/Harry/RoundTrip.antt =====
-- What opening and writing a Halloween Harry level keeps, and what it loses.
use libgamemaps.Prelude.{
  ℕ, ◌*◌, ◌/◌, ◌%◌, ◌^◌, ◌<◌, ◌≡◌, refl, some, List, [], ◌∷◌, ◌++◌, map, length, replicate,
  append_assoc, arith, lt→ltb,
}
use native.Mathlib.Nat.{mod-eq_of_lt}
use libgamemaps.Result.{ok}
use libgamemaps.Stream.{Streams, IsFresh}
use libgamemaps.Stream.Bytes.{AllBytes}
use libgamemaps.Stream.Write.{Holds, IsFresh-Holds, Holds-write, Holds-write_u16le, Holds-flush}
use libgamemaps.Map2D.{Map2D}
use libgamemaps.Map2D.Generic.{get_map_size, get_layer_count, get_layer, cast_map2d}
use libgamemaps.Grid.{grid_items}
use libgamemaps.Grid.Area.{area_le}
use libgamemaps.Grid.Asserting.{paint_asserting, paint_asserting-grid_items}
use libgamemaps.Format.{keep_other_than, keep_other_than_skips}
use libgamemaps.Format.Harry.{
  default_tile, actor_layer, background_layer, parallax, parallax_flags, open_map, write_map,
}
use libgamemaps.Format.Harry.Actors.{player_item, write_actors}
use libgamemaps.Format.Harry.Storing.{
  Actor, AllActors, actor_items, actor_bytes, written_actor, find_player-opened, Holds-write_actors,
}
use libgamemaps.Format.Harry.Map.{
  Header, IsHeader, header_bytes, level_bytes, level, written_header, open_map-level,
  Holds-write_header, parallax_byte,
}

paint_layer :
    (w h : ℕ) (codes : List ℕ)
    → 0 < w
    → length codes ≡ h * w
    → AllBytes codes
    → paint_asserting 256 w h
        (grid_items (keep_other_than default_tile) w 0 codes)
        (replicate (w * h) default_tile)
      ≡ ok codes
paint_layer w h codes pos len bytes =
    paint_asserting-grid_items 256 w h (keep_other_than default_tile) default_tile codes pos
      (keep_other_than_skips default_tile) (omega arith) bytes

parallax_flags-parallax :
    (flags : ℕ) → parallax_flags (parallax flags ∷ []) ≡ ok (parallax flags).enum_value
unfolding parallax_flags
parallax_flags-parallax flags = rw (parallax_byte flags)

length-written : (actors : List Actor) → length (map written_actor actors) ≡ length actors
length-written [] = refl
length-written (a ∷ actors) = omega (arith, length-written actors)

-- The parts of a file that are written one after another.
seven_parts :
    (a b c d e f g : List ℕ)
    → (((((a ++ b) ++ c) ++ d) ++ e) ++ f) ++ g ≡ a ++ (b ++ (c ++ (d ++ (e ++ (f ++ g)))))
seven_parts a b c d e f g = simp append_assoc

module _ (lib : Streams) where
  open lib use {Input, Output, contents, written}

  -- The player is asserted to lie in the map, and not written with the others.
  write_actors-opened :
      (x y w h : ℕ) (actors : List Actor) (bytes : List ℕ) (o : Output)
      → x < w
      → y < h
      → AllActors w h actors
      → Holds lib bytes o
      → (o' : Output) × (write_actors lib w h (player_item x y ∷ actor_items actors) o ≡ ok o')
        × Holds lib (bytes ++ actor_bytes (map written_actor actors)) o'
  unfolding write_actors
  write_actors-opened x y w h actors bytes o px py inside held =
      let (o', writes, held') = Holds-write_actors lib w h actors bytes o inside held in
      (o', rw (lt→ltb x w px, lt→ltb y h py) writes, held')

  write_map-level :
      (hd : Header) (actors : List Actor) (w h : ℕ) (bg fg : List ℕ) (o : Output)
      → w < 2 ^ 16
      → h < 2 ^ 16
      → 0 < w
      → hd.start_x < w
      → hd.start_y < h
      → AllActors w h actors
      → length actors < 2 ^ 16
      → length bg ≡ h * w
      → length fg ≡ h * w
      → AllBytes bg
      → AllBytes fg
      → Holds lib [] o
      → (o' : Output) × (write_map lib (some (level hd actors w h bg fg)) o ≡ ok o')
        × Holds lib (level_bytes (written_header hd) (map written_actor actors) w h (bg ++ fg)) o'
  unfolding write_map cast_map2d get_layer_count get_map_size get_layer background_layer actor_layer
  write_map-level hd actors w h bg fg o pw ph pos px py inside few len_bg len_fg bytes_bg bytes_fg
        fresh =
      let found = find_player-opened hd.start_x hd.start_y actors (omega arith) (omega arith) few in
      let (o1, writes1, h1) = Holds-write_header lib hd o fresh in
      let (o2, writes2, h2) = Holds-write_u16le lib (length actors) h1 in
      let (o3, writes3, h3) =
        write_actors-opened hd.start_x hd.start_y w h actors _ o2 px py inside h2 in
      let (o4, writes4, h4) = Holds-write_u16le lib w h3 in
      let (o5, writes5, h5) = Holds-write_u16le lib h h4 in
      let (o6, writes6, h6) = Holds-write lib bg h5 in
      let (o7, writes7, h7) = Holds-write lib fg h6 in
      let (o8, flushes, h8) = Holds-flush lib h7 in
      let cells : w * h % 2 ^ 32 ≡ w * h =
        mod-eq_of_lt (omega (arith, area_le w h 65535 (omega arith) (omega arith))) in
      (
        o8,
        rw
            (
              parallax_flags-parallax hd.map_flags,
              found,
              writes1,
              writes2,
              writes3,
              writes4,
              writes5,
              cells,
              paint_layer w h bg pos len_bg bytes_bg,
              writes6,
              paint_layer w h fg pos len_fg bytes_fg,
              writes7,
            )
            flushes,
        rw (length-written actors) (
            rw
              (seven_parts (header_bytes (written_header hd))
                (length actors % 256 ∷ length actors / 256 % 256 ∷ [])
                (actor_bytes (map written_actor actors)) (w % 256 ∷ w / 256 % 256 ∷ [])
                (h % 256 ∷ h / 256 % 256 ∷ []) bg fg)
              at h8),
      )

  -- A file of a width and a height of at least 1, fewer than 65536 actors whose places lie in the
  -- map, and a byte for each cell of both grids, opens where the player starts at numbers below the
  -- width and the height. Writing the map that it opens into, to a fresh stream, succeeds, keeps
  -- the player's start, the codes of the actors and both grids, and gives otherwise a file of its
  -- own: the signature, zeros for the palette, the tile flags and every other byte, a flag of 1
  -- for any flags but 0, and for the place of each actor a sixteenth of what it was.
  pub write_map-open_map_harry :
      (input : Input) (o : Output) (hd : Header) (actors : List Actor) (w h : ℕ) (bg fg : List ℕ)
      → IsHeader hd
      → w < 2 ^ 16
      → h < 2 ^ 16
      → hd.start_x < w
      → hd.start_y < h
      → AllActors w h actors
      → length actors < 2 ^ 16
      → length bg ≡ h * w
      → length fg ≡ h * w
      → AllBytes bg
      → AllBytes fg
      → contents input ≡ level_bytes hd actors w h (bg ++ fg)
      → IsFresh lib o
      → (m : Map2D) × (o' : Output) × (open_map lib input ≡ ok m)
        × (write_map lib (some m) o ≡ ok o')
        × (written o' ≡ level_bytes (written_header hd) (map written_actor actors) w h (bg ++ fg))
  write_map-open_map_harry input o hd actors w h bg fg shape pw ph px py inside few len_bg len_fg
        bytes_bg bytes_fg e fresh =
      let (o', writes, held) =
        write_map-level hd actors w h bg fg o pw ph (omega arith) px py inside few len_bg len_fg
          bytes_bg bytes_fg (IsFresh-Holds lib fresh) in
      (
        level hd actors w h bg fg,
        o',
        open_map-level lib input hd actors w h bg fg shape pw ph (omega arith) (omega arith) inside
            few len_bg len_fg e,
        writes,
        held.bytes_written,
      )
