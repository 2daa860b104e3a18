-- ===== src/Grid/Area.antt =====
-- The number of cells of a grid.
use libgamemaps.Prelude.{ℕ, ◌*◌, ◌≤◌, ◌<◌, arith}

pub area_le : (w h a : ℕ) → w ≤ a → h ≤ a → w * h ≤ a * a
area_le w h a p q = grind arith

pub area_pos : (w h : ℕ) → 0 < w → 0 < h → 0 < w * h
area_pos w h p q = grind arith
