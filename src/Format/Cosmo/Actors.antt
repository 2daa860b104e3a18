-- ===== src/Format/Cosmo/Actors.antt =====
-- The actors of a Cosmo level: a code, a column and a row, of 16 bits each.
use libgamemaps.Prelude.{ℕ, zero, suc, ◌+◌, ◌&&◌, List, [], ◌∷◌, ltb, ◌==◌, if◌then◌else◌}
use libgamemaps.Result.{Result, ok, assert, ◌>>=◌, ◌>>◌}
use libgamemaps.Stream.{Streams}
use libgamemaps.Map2D.{Item, default_item, movement, distance_limit, dist_indeterminate}
use libgamemaps.Map2D.Caps.{has}

-- The item of an actor: a falling star is a star that moves down without a limit.
unfoldable pub actor_item : ℕ → ℕ → ℕ → Item
actor_item code x y =
    if code == 295
    then record (default_item x y (31 + 1)) {
      type = movement;
      movement_flags = distance_limit;
      movement_dist_down = dist_indeterminate;
    }
    else default_item x y code

-- The code that `write` gives an actor.
unfoldable pub final_code : Item → ℕ
final_code item =
    if has item.type movement
      && has item.movement_flags distance_limit
      && item.movement_dist_down == dist_indeterminate
      && item.code == 31 + 1
    then 295
    else item.code

module _ (lib : Streams) where
  open lib use {Input, Output, read_u16le, write_u16le}

  -- The loop of `open`, `n` actors.
  unfoldable pub read_actors : ℕ → Input → Result (List Item × Input)
  read_actors zero input = ok ([], input)
  read_actors (suc n) input = do
    (code, input') ← read_u16le input
    (x, input'') ← read_u16le input'
    (y, input''') ← read_u16le input''
    (actors, left) ← read_actors n input'''
    ok (actor_item code x y ∷ actors, left)

  -- The loop of `write`, with its assertion.
  unfoldable pub write_actors : ℕ → ℕ → List Item → Output → Result Output
  write_actors map_width map_height [] output = ok output
  write_actors map_width map_height (item ∷ items) output = do
    assert (ltb item.x map_width && ltb item.y map_height)
    output' ← write_u16le (final_code item) output
    output'' ← write_u16le item.x output'
    output''' ← write_u16le item.y output''
    write_actors map_width map_height items output'''
