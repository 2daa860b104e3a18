-- ===== src/Format/DDave/Encoding.antt =====
-- The bytes that stand for a path, and the points that they are read back as.
use libgamemaps.Prelude.{
  ℕ, ◌+◌, ◌-◌, ◌*◌, ◌%◌, ◌^◌, ◌≤◌, ◌<◌, ◌≡◌, refl, ap, ◌∙◌, ◌⊎◌, inl, inr, true, false, List, [],
  ◌∷◌, ◌++◌, length, arith, if◌then◌else◌, Bool-cases,
}
use libgamemaps.Map2D.{Point}
use libgamemaps.Format.DDave.Path.{sign_extend, delta, is_end, path_points}

-- A difference that fits a signed byte.
abbrev pub IsInt8 : ℕ → ℕ → Type 0
IsInt8 a b = ((a + 2 ^ 32 - b) % 2 ^ 32 < 128) ⊎ (2 ^ 32 - 128 ≤ (a + 2 ^ 32 - b) % 2 ^ 32)

-- Adding the stored difference leads back to the coordinate.
pub add_delta :
    (a b : ℕ) → a < 2 ^ 32 → b < 2 ^ 32 → IsInt8 a b → (b + sign_extend (delta a b)) % 2 ^ 32 ≡ a
add_delta a b ha hb h = ground arith

-- The y coordinate after the tweak of a step that looks like the end marker.
unfoldable pub tweaked : ℕ → ℕ → Point → ℕ
tweaked last_x last_y (px, py) =
    if is_end (delta px last_x) (delta py last_y) then (py + 1) % 2 ^ 32 else py

pub add_tweaked :
    (last_x last_y px py : ℕ)
    → px < 2 ^ 32
    → py < 2 ^ 32
    → last_y < 2 ^ 32
    → is_end (delta px last_x) (delta py last_y) ≡ true
    → IsInt8 py last_y
    → (last_y + sign_extend ((delta py last_y + 1) % 256)) % 2 ^ 32 ≡ (py + 1) % 2 ^ 32
add_tweaked last_x last_y px py hx hy hl e h = ground arith

-- The points that a written path is read back as.
unfoldable pub settled : ℕ → ℕ → List Point → List Point
settled last_x last_y [] = []
settled last_x last_y ((px, py) ∷ points) =
    (px, tweaked last_x last_y (px, py)) ∷ settled px (tweaked last_x last_y (px, py)) points

abbrev pub step_y : ℕ → ℕ → ℕ → ℕ → ℕ
step_y last_x last_y px py =
    if is_end (delta px last_x) (delta py last_y)
    then (delta py last_y + 1) % 256
    else delta py last_y

-- The bytes of a path, without its end marker.
unfoldable pub encoding : ℕ → ℕ → List Point → List ℕ
encoding last_x last_y [] = []
encoding last_x last_y ((px, py) ∷ points) =
    delta px last_x
    ∷ step_y last_x last_y px py
    ∷ encoding px (tweaked last_x last_y (px, py)) points

-- Every coordinate is a 32-bit pattern, and every step fits a signed byte in each direction.
abbrev pub InReach : ℕ → ℕ → List Point → Type 0
InReach last_x last_y [] = Unit
InReach last_x last_y ((px, py) ∷ points) =
    (px < 2 ^ 32)
    × (py < 2 ^ 32)
    × IsInt8 px last_x
    × IsInt8 py last_y
    × InReach px (tweaked last_x last_y (px, py)) points

-- No stored step looks like the end marker.
pub step-is_end :
    (last_x last_y px py : ℕ) → is_end (delta px last_x) (step_y last_x last_y px py) ≡ false
step-is_end last_x last_y px py = ground arith

pub tweaked-lt : (last_x last_y px py : ℕ) → py < 2 ^ 32 → tweaked last_x last_y (px, py) < 2 ^ 32
unfolding tweaked
tweaked-lt last_x last_y px py h = ground arith

add_step_y :
    (last_x last_y px py : ℕ)
    → px < 2 ^ 32
    → py < 2 ^ 32
    → last_y < 2 ^ 32
    → IsInt8 py last_y
    → (last_y + sign_extend (step_y last_x last_y px py)) % 2 ^ 32 ≡ tweaked last_x last_y (px, py)
unfolding tweaked
add_step_y last_x last_y px py hx hy hl h =
    elim (Bool-cases (is_end (delta px last_x) (delta py last_y))) [
      | inl e ↦ rw e (add_tweaked last_x last_y px py hx hy hl e h)
      | inr e ↦ rw e (add_delta py last_y hy hl h)
    ]

path_points-cons :
    (next_x next_y dx dy x y : ℕ) (pathdata : List ℕ)
    → is_end dx dy ≡ false
    → (next_x + sign_extend dx) % 2 ^ 32 ≡ x
    → (next_y + sign_extend dy) % 2 ^ 32 ≡ y
    → path_points next_x next_y (dx ∷ dy ∷ pathdata) ≡ (x, y) ∷ path_points x y pathdata
unfolding path_points
path_points-cons next_x next_y dx dy x y pathdata e ex ey = rw (e, ex, ey)

pub path_points-encoding :
    (points : List Point) (last_x last_y : ℕ) (rest : List ℕ)
    → last_x < 2 ^ 32
    → last_y < 2 ^ 32
    → InReach last_x last_y points
    → ((x y : ℕ) → path_points x y rest ≡ [])
    → path_points last_x last_y (encoding last_x last_y points ++ rest)
      ≡ settled last_x last_y points
unfolding encoding settled
path_points-encoding [] last_x last_y rest hx hy h ends = ends last_x last_y
path_points-encoding ((px, py) ∷ points) last_x last_y rest hx hy (px_fits, py_fits, dx, dy, h)
      ends =
    path_points-cons last_x last_y (delta px last_x) (step_y last_x last_y px py) px
      (tweaked last_x last_y (px, py)) _ (step-is_end last_x last_y px py)
      (add_delta px last_x px_fits hx dx) (add_step_y last_x last_y px py px_fits py_fits hy dy)
    ∙ ap (λ l. (px, tweaked last_x last_y (px, py)) ∷ l)
        (path_points-encoding points px (tweaked last_x last_y (px, py)) rest px_fits
          (tweaked-lt last_x last_y px py py_fits) h ends)

pub length-encoding :
    (points : List Point) (last_x last_y : ℕ)
    → length (encoding last_x last_y points) ≡ 2 * length points
unfolding encoding
length-encoding [] last_x last_y = refl
length-encoding ((px, py) ∷ points) last_x last_y =
    omega (arith, length-encoding points px (tweaked last_x last_y (px, py)))
