-- ===== src/Format/Harry/Actors.antt =====
-- The actors of a Halloween Harry level, 128 bytes each, and the player among them.
use libgamemaps.Prelude.{
  ℕ, zero, suc, ◌+◌, ◌/◌, ◌%◌, ◌^◌, Bool, true, false, not, ◌&&◌, List, [], ◌∷◌, length, replicate,
  ltb, ◌==◌, if◌then◌else◌,
}
use libgamemaps.Result.{Result, ok, check, assert, too_many_players, ◌>>=◌, ◌>>◌}
use libgamemaps.Stream.{Streams}
use libgamemaps.Map2D.{Item, default_item, player}
use libgamemaps.Map2D.Caps.{has}

abbrev pub actor_len : ℕ
actor_len = 128

-- The item that `open` makes of the player's start.
abbrev pub player_item : ℕ → ℕ → Item
player_item x y = record (default_item x y 0) { type = player }

-- What the search for the player's start knows: whether it was found, the start, and the number of
-- actors less the players seen.
pub record Search : Type 0 where
  pub set_player : Bool
  pub start_x : ℕ
  pub start_y : ℕ
  pub num_actors : ℕ

-- One turn of the search; numActors is a 16-bit number.
unfoldable pub see_item : Item → Search → Result Search
see_item item s =
    if has item.type player
    then (do
      check (not s.set_player) too_many_players
      let counted = record s { num_actors = (s.num_actors + 65535) % 2 ^ 16 }
      ok (
          if item.player_number == 0
          then record counted {
            set_player = true;
            start_x = item.x % 2 ^ 16;
            start_y = item.y % 2 ^ 16;
          }
          else counted))
    else ok s

unfoldable pub find_player : List Item → Search → Result Search
find_player [] s = ok s
find_player (item ∷ items) s = do s' ← see_item item s; find_player items s'

unfoldable pub search_start : List Item → Search
search_start items = record {
  set_player = false;
  start_x = 0;
  start_y = 0;
  num_actors = length items % 2 ^ 16;
}

module _ (lib : Streams) where
  open lib use {Input, Output, skip, read_u8, read_u16le, write, write_u8, write_u16le}

  -- The loop of `open`, `n` actors.
  unfoldable pub read_actors : ℕ → Input → Result (List Item × Input)
  read_actors zero input = ok ([], input)
  read_actors (suc n) input = do
    (code, input1) ← read_u8 input
    (x, input2) ← read_u16le input1
    (y, input3) ← read_u16le input2
    input4 ← skip 123 input3
    (actors, left) ← read_actors n input4
    ok (default_item (x / 16) (y / 16) code ∷ actors, left)

  -- The body of the loop of `write` for an item that is not the player.
  unfoldable pub write_actor : Item → Output → Result Output
  write_actor item output = do
    output1 ← write_u8 item.code output
    output2 ← write_u16le item.x output1
    output3 ← write_u16le item.y output2
    write (replicate 123 0) output3

  -- The loop of `write`, with its assertion.
  unfoldable pub write_actors : ℕ → ℕ → List Item → Output → Result Output
  write_actors map_width map_height [] output = ok output
  write_actors map_width map_height (item ∷ items) output = do
    assert (ltb item.x map_width && ltb item.y map_height)
    output' ← if has item.type player then ok output else write_actor item output
    write_actors map_width map_height items output'
