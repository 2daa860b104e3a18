-- ===== src/Format/DDave/Path.antt =====
-- The path of a Dangerous Dave level: one signed byte for each coordinate of each step, relative
-- to the point before, and an end marker if there is room. Coordinates are 32-bit patterns.
use libgamemaps.Prelude.{
  ℕ, ◌+◌, ◌-◌, ◌%◌, ◌^◌, Bool, ◌&&◌, List, [], ◌∷◌, replicate, ltb, ◌==◌, if◌then◌else◌,
}
use libgamemaps.Result.{Result, ok, throw, path_too_long, path_magic_end, ◌>>=◌}
use libgamemaps.Map2D.{Point}
use libgamemaps.Grid.{store}

abbrev pub layer_len_path : ℕ
layer_len_path = 256

abbrev pub path_end : ℕ
path_end = 0xEA

-- `(int8_t)b` widened to 32 bits
abbrev pub sign_extend : ℕ → ℕ
sign_extend b = if ltb b 128 then b else b + (2 ^ 32 - 256)

-- `(int8_t)(a - b)` for 32-bit a and b, as the byte that is stored
abbrev pub delta : ℕ → ℕ → ℕ
delta a b = (a + 2 ^ 32 - b) % 2 ^ 32 % 256

abbrev pub is_end : ℕ → ℕ → Bool
is_end x y = x == path_end && y == path_end

-- The reading loop of `open`, from the point `(next_x, next_y)` on.
unfoldable pub path_points : ℕ → ℕ → List ℕ → List Point
path_points next_x next_y (dx ∷ dy ∷ pathdata) =
    let x = (next_x + sign_extend dx) % 2 ^ 32 in
    let y = (next_y + sign_extend dy) % 2 ^ 32 in
    let points = (x, y) ∷ path_points x y pathdata in if is_end dx dy then [] else points
path_points next_x next_y _ = []

-- The variables of the writing loop of `write`.
pub record PathState : Type 0 where
  pub path : List ℕ
  pub pathpos : ℕ
  pub last_x : ℕ
  pub last_y : ℕ
  pub x : ℕ
  pub y : ℕ

-- The two stores `path[pathpos++] = ...`
unfoldable pub put_step : PathState → Result PathState
put_step s = do
  path' ← store s.path s.pathpos s.x
  path'' ← store path' (s.pathpos + 1) s.y
  ok (record s { path = path''; pathpos = s.pathpos + 2 })

-- One round of the loop.
unfoldable pub path_step : PathState → Point → Result PathState
unfolding put_step
path_step s (px, py) =
    if ltb 256 s.pathpos
    then throw path_too_long
    else let x = delta px s.last_x in
      let y = delta py s.last_y in
      if is_end x y
      then put_step (record s { last_x = px; last_y = (py + 1) % 2 ^ 32; x = x; y = (y + 1) % 256 })
      else put_step (record s { last_x = px; last_y = py; x = x; y = y })

unfoldable pub path_loop : PathState → List Point → Result PathState
path_loop s [] = ok s
path_loop s (point ∷ points) = do s' ← path_step s point; path_loop s' points

-- "Add terminator if there's enough room."
unfoldable pub add_terminator : PathState → Result (List ℕ)
add_terminator s =
    if ltb s.pathpos 256
    then (do path' ← store s.path s.pathpos path_end; store path' (s.pathpos + 1) path_end)
    else ok s.path

-- `memset(path, 0, DD_LAYER_LEN_PATH)` and the initial values of the other variables.
unfoldable pub path_start : PathState
path_start = record {
  path = replicate layer_len_path 0;
  pathpos = 0;
  last_x = 0;
  last_y = 0;
  x = 0;
  y = 0;
}

-- The 256 bytes of the path.
unfoldable pub write_path : List Point → Result (List ℕ)
write_path points = do
  s ← path_loop path_start points
  if is_end s.x s.y then throw path_magic_end else add_terminator s
