-- ===== src/Format/DDave/Storing.antt =====
-- What `write_path` stores, and what is read back from it.
use libgamemaps.Prelude.{
  ℕ, zero, suc, ◌+◌, ◌-◌, ◌*◌, ◌≤◌, ◌<◌, ◌≡◌, refl, sym, ap, ◌∙◌, ◌≢◌, inl, inr, false, List, [],
  ◌∷◌, ◌++◌, length, replicate, length-append, length-replicate, append_assoc, append-nil,
  replicate-append, arith, Bool-cases, lt→ltb, le→ltb,
}
use native.Mathlib.Decide.{dec_le}
use libgamemaps.Result.{ok, throw, undefined, path_magic_end}
use libgamemaps.Map2D.{Point}
use libgamemaps.Grid.{store}
use libgamemaps.Grid.RoundTrip.{store-append}
use libgamemaps.Format.DDave.Path.{
  path_end, delta, is_end, path_points, PathState, put_step, path_step, path_loop, add_terminator,
  path_start, write_path,
}
use libgamemaps.Format.DDave.Encoding.{
  tweaked, settled, step_y, encoding, InReach, step-is_end, path_points-encoding, length-encoding,
}

store_next :
    (front : List ℕ) (x b v : ℕ) (back : List ℕ)
    → store (front ++ x ∷ b ∷ back) (length front + 1) v ≡ ok (front ++ x ∷ v ∷ back)
store_next front x b v back =
    let at : length front + 1 ≡ length (front ++ x ∷ []) =
      omega (arith, length-append front (x ∷ [])) in
    rw (at, ← append_assoc front (x ∷ []) (b ∷ back), ← append_assoc front (x ∷ []) (v ∷ back))
      (store-append (front ++ x ∷ []) b v back)

-- Two bytes of an array are stored, and the position moves on.
put_step-append :
    (s : PathState) (front : List ℕ) (a b : ℕ) (back : List ℕ)
    → s.path ≡ front ++ a ∷ b ∷ back
    → s.pathpos ≡ length front
    → put_step s ≡ ok (record s { path = front ++ s.x ∷ s.y ∷ back; pathpos = s.pathpos + 2 })
unfolding put_step
put_step-append s front a b back e at =
    rw (e, at, store-append front a s.x (b ∷ back), store_next front s.x b s.y back)

-- One round of the loop, with room for it.
path_step-append :
    (s : PathState) (px py : ℕ) (front : List ℕ) (a b : ℕ) (back : List ℕ)
    → s.path ≡ front ++ a ∷ b ∷ back
    → s.pathpos ≡ length front
    → s.pathpos ≤ 254
    → path_step s (px, py)
      ≡ ok (record {
        path = front ++ delta px s.last_x ∷ step_y s.last_x s.last_y px py ∷ back;
        pathpos = s.pathpos + 2;
        last_x = px;
        last_y = tweaked s.last_x s.last_y (px, py);
        x = delta px s.last_x;
        y = step_y s.last_x s.last_y px py;
      })
unfolding path_step tweaked
path_step-append s px py front a b back e at room =
    elim (Bool-cases (is_end (delta px s.last_x) (delta py s.last_y))) [
      | inl q ↦
          rw (le→ltb 256 s.pathpos (omega arith)) (rw q (put_step-append _ front a b back e at))
      | inr q ↦
          rw (le→ltb 256 s.pathpos (omega arith)) (rw q (put_step-append _ front a b back e at))
    ]

two_more : (n : ℕ) → 2 * suc n ≡ suc (suc (2 * n))
two_more n = omega arith

-- The loop over points that there is room for stores their encoding and leaves the rest.
path_loop-encoding :
    (points : List Point) (s : PathState) (front back : List ℕ)
    → s.path ≡ front ++ (replicate (2 * length points) 0 ++ back)
    → s.pathpos ≡ length front
    → s.pathpos + 2 * length points ≤ 256
    → is_end s.x s.y ≡ false
    → (s' : PathState) × (path_loop s points ≡ ok s')
      × (s'.path ≡ front ++ (encoding s.last_x s.last_y points ++ back))
      × (s'.pathpos ≡ s.pathpos + 2 * length points)
      × (is_end s'.x s'.y ≡ false)
unfolding path_loop encoding
path_loop-encoding [] s front back e at room q = (s, refl, e, omega arith, q)
path_loop-encoding ((px, py) ∷ points) s front back e at room q =
    let x = delta px s.last_x in
    let y = step_y s.last_x s.last_y px py in
    let zeros = replicate (2 * length points) 0 ++ back in
    let here : s.path ≡ front ++ 0 ∷ 0 ∷ zeros =
      e ∙ ap (λ (n : ℕ). front ++ (replicate n 0 ++ back)) (two_more (length points)) in
    let s' : PathState = record {
      path = front ++ x ∷ y ∷ zeros;
      pathpos = s.pathpos + 2;
      last_x = px;
      last_y = tweaked s.last_x s.last_y (px, py);
      x = x;
      y = y;
    } in
    let (s'', runs, stored, position, calm) =
      path_loop-encoding points s' (front ++ x ∷ y ∷ []) back
        (sym (append_assoc front (x ∷ y ∷ []) zeros))
        (omega (arith, length-append front (x ∷ y ∷ []))) (omega arith)
        (step-is_end s.last_x s.last_y px py) in
    (
      s'',
      rw (path_step-append s px py front 0 0 zeros here at (omega arith)) runs,
      stored ∙ append_assoc front (x ∷ y ∷ []) _,
      omega (arith, position),
      calm,
    )

put_step-full : (s : PathState) → length s.path ≤ s.pathpos → put_step s ≡ undefined
unfolding put_step store
put_step-full s full = rw (le→ltb s.pathpos (length s.path) full)

path_step-full :
    (s : PathState) (px py : ℕ)
    → length s.path ≤ s.pathpos
    → s.pathpos ≤ 256
    → path_step s (px, py) ≡ undefined
unfolding path_step
path_step-full s px py full le =
    elim (Bool-cases (is_end (delta px s.last_x) (delta py s.last_y))) [
      | inl q ↦ rw (le→ltb 256 s.pathpos le) (rw q (put_step-full _ full))
      | inr q ↦ rw (le→ltb 256 s.pathpos le) (rw q (put_step-full _ full))
    ]

-- The points of a path that is too long are written past the array before the guard is reached.
path_loop-overrun :
    (points : List Point) (s : PathState) (front : List ℕ) (room : ℕ)
    → s.path ≡ front ++ replicate (2 * room) 0
    → s.pathpos ≡ length front
    → s.pathpos + 2 * room ≡ 256
    → room < length points
    → path_loop s points ≡ undefined
unfolding path_loop
path_loop-overrun [] s front room e at full more = absurd (omega arith)
path_loop-overrun ((px, py) ∷ points) s front zero e at full more =
    rw (path_step-full s px py (rw (e, append-nil front) (omega arith)) (omega arith))
path_loop-overrun ((px, py) ∷ points) s front (suc room) e at full more =
    let x = delta px s.last_x in
    let y = step_y s.last_x s.last_y px py in
    let zeros = replicate (2 * room) 0 in
    let here : s.path ≡ front ++ 0 ∷ 0 ∷ zeros =
      e ∙ ap (λ (n : ℕ). front ++ replicate n 0) (two_more room) in
    rw (path_step-append s px py front 0 0 zeros here at (omega arith)) (
      path_loop-overrun points _ (front ++ x ∷ y ∷ []) room
        (sym (append_assoc front (x ∷ y ∷ []) zeros))
        (omega (arith, length-append front (x ∷ y ∷ []))) (omega arith) (omega arith))

-- The end marker, where there is room for one.
abbrev terminated : ℕ → List ℕ
terminated zero = []
terminated (suc room) = path_end ∷ path_end ∷ replicate (2 * room) 0

add_terminator-append :
    (room : ℕ) (s : PathState) (front : List ℕ)
    → s.path ≡ front ++ replicate (2 * room) 0
    → s.pathpos ≡ length front
    → s.pathpos + 2 * room ≡ 256
    → add_terminator s ≡ ok (front ++ terminated room)
unfolding add_terminator
add_terminator-append zero s front e at full = rw (le→ltb s.pathpos 256 (omega arith)) (ap ok e)
add_terminator-append (suc room) s front e at full =
    let zeros = replicate (2 * room) 0 in
    let here : s.path ≡ front ++ 0 ∷ 0 ∷ zeros =
      e ∙ ap (λ (n : ℕ). front ++ replicate n 0) (two_more room) in
    rw (lt→ltb s.pathpos 256 (omega arith)) (
      rw (here, at, store-append front 0 path_end (0 ∷ zeros))
        (store_next front path_end 0 path_end zeros))

path_start-path :
    (n room : ℕ) → n + room ≡ 128 → path_start.path ≡ replicate (2 * n) 0 ++ replicate (2 * room) 0
unfolding path_start
path_start-path n room full =
    ap (λ (k : ℕ). replicate k 0) {x = 256} {y = 2 * n + 2 * room} (omega arith)
    ∙ sym (replicate-append (2 * n) (2 * room) 0)

-- Up to 128 points are stored, with an end marker if there is room.
write_path-encoding :
    (points : List Point) (room : ℕ)
    → length points + room ≡ 128
    → write_path points ≡ ok (encoding 0 0 points ++ terminated room)
unfolding write_path
write_path-encoding points room full =
    let (s, runs, stored, position, calm) =
      path_loop-encoding points path_start [] (replicate (2 * room) 0)
        (path_start-path (length points) room full) (unfold path_start in refl)
        (unfold path_start in omega arith) (unfold path_start in refl) in
    rw (runs, calm)
      (add_terminator-append room s (encoding 0 0 points) (unfold path_start in stored)
        (unfold path_start in omega (arith, position, length-encoding points 0 0))
        (unfold path_start in omega (arith, position)))

path_points-terminated : (room x y : ℕ) → path_points x y (terminated room) ≡ []
unfolding path_points
path_points-terminated zero x y = refl
path_points-terminated (suc room) x y = refl

length-terminated : (room : ℕ) → length (terminated room) ≡ 2 * room
length-terminated zero = refl
length-terminated (suc room) = omega (arith, length-replicate (2 * room) (zero))

-- A path of at most 128 points, each step of which fits a signed byte in both directions, is
-- stored in 256 bytes, and these are read back as the same points, but that a step which would
-- look like the end marker ends one pixel lower.
pub path_points-write_path :
    (points : List Point)
    → length points ≤ 128
    → InReach 0 0 points
    → (path : List ℕ) × (write_path points ≡ ok path)
      × (length path ≡ 256)
      × (path_points 0 0 path ≡ settled 0 0 points)
path_points-write_path points fits reach =
    let room = 128 - length points in
    (
      encoding 0 0 points ++ terminated room,
      write_path-encoding points room (omega arith),
      omega (
        arith,
        length-append (encoding 0 0 points) (terminated room),
        length-encoding points 0 0,
        length-terminated room,
      ),
      path_points-encoding points 0 0 (terminated room) (omega arith) (omega arith) reach
          (path_points-terminated room),
    )

-- A path of more than 128 points is stored beyond the array: the guard `pathpos > 256` lets the
-- 129th point through.
pub write_path_overrun : (points : List Point) → 128 < length points → write_path points ≡ undefined
unfolding write_path
write_path_overrun points more = rw (
    path_loop-overrun points path_start [] 128 (unfold path_start in refl)
      (unfold path_start in refl) (unfold path_start in omega arith) more)

-- Whatever the points, no write of a path ends with the message about its last point: the step
-- that looks like the end marker has been moved before the test.
pub write_path-ne-magic_end : (points : List Point) → write_path points ≢ throw path_magic_end
write_path-ne-magic_end points e = elim (dec_le (length points) 128) [
  | yes fits ↦ cc (e, write_path-encoding points (128 - length points) (omega arith))
  | no more ↦ cc (e, write_path_overrun points (omega arith))
]
