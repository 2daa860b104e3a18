-- ===== src/Map2D/Caps.antt =====
-- A test of a capability bit.
use libgamemaps.Prelude.{ℕ, Bool, not, bit_and, ◌==◌}

-- `caps & flag`
abbrev pub has : ℕ → ℕ → Bool
has caps flag = not (bit_and caps flag == 0)
