-- ===== src/Format/WordRescue/Rle/Reading.antt =====
-- What `open` reads from the runs of a layer.
use libgamemaps.Prelude.{
  ℕ, zero, suc, ◌+◌, ◌/◌, ◌%◌, ◌≤◌, ◌<◌, ◌≡◌, refl, ap, ◌∙◌, true, false, some, List, [], ◌∷◌, ◌++◌,
  length, replicate, arith, leb, ◌==◌, Bool-cases, inl, inr,
}
use libgamemaps.Result.{ok}
use libgamemaps.Stream.{Streams}
use libgamemaps.Map2D.{default_item}
use libgamemaps.Grid.{grid_items}
use libgamemaps.Grid.View.{grid_items_kept, grid_items_skipped}
use libgamemaps.Format.{keep_other_than}
use libgamemaps.Format.WordRescue.Rle.{default_bgtile, run_items, read_tiles}
use libgamemaps.Format.WordRescue.Rle.Runs.{
  runs_bytes, runs_bytes-full, runs_bytes-room, runs_bytes-other,
}

grid_items-skipped_run :
    (w n i c : ℕ) (codes : List ℕ)
    → (c == default_bgtile) ≡ true
    → grid_items (keep_other_than default_bgtile) w i (replicate n c ++ codes)
      ≡ grid_items (keep_other_than default_bgtile) w (i + n) codes
grid_items-skipped_run w zero i c codes same =
    ap (λ k. grid_items (keep_other_than default_bgtile) w k codes) (omega arith)
grid_items-skipped_run w (suc n) i c codes same =
    grid_items_skipped (keep_other_than default_bgtile) w i c (replicate n c ++ codes) (rw same)
    ∙ grid_items-skipped_run w n (i + 1) c codes same
    ∙ ap (λ k. grid_items (keep_other_than default_bgtile) w k codes) (omega arith)

grid_items-kept_run :
    (w n i c : ℕ) (codes : List ℕ)
    → (c == default_bgtile) ≡ false
    → grid_items (keep_other_than default_bgtile) w i (replicate n c ++ codes)
      ≡ run_items w n i c ++ grid_items (keep_other_than default_bgtile) w (i + n) codes
unfolding run_items
grid_items-kept_run w zero i c codes other =
    ap (λ k. grid_items (keep_other_than default_bgtile) w k codes) (omega arith)
grid_items-kept_run w (suc n) i c codes other =
    grid_items_kept (keep_other_than default_bgtile) w i c (replicate n c ++ codes) (rw other)
    ∙ ap (λ l. default_item (i % w) (i / w) c ∷ l)
        (grid_items-kept_run w n (i + 1) c codes other
          ∙ ap
              (λ k.
                run_items w n (i + 1) c ++ grid_items (keep_other_than default_bgtile) w k codes)
              (omega arith))

replicate-snoc : (n a : ℕ) (l : List ℕ) → replicate (suc n) a ++ l ≡ replicate n a ++ a ∷ l
replicate-snoc zero a l = refl
replicate-snoc (suc n) a l = ap (λ k. a ∷ k) (replicate-snoc n a l)

same_head : (a c : ℕ) (l : List ℕ) → (c == a) ≡ true → c ∷ l ≡ replicate 1 a ++ l
same_head a c l same = ap (λ k. k ∷ l) {x = c} {y = a} (ground arith)

-- A run that grows by a cell of its code.
run_grows :
    (n a c : ℕ) (l : List ℕ) → (c == a) ≡ true → replicate (n + 1) a ++ l ≡ replicate n a ++ c ∷ l
run_grows n a c l same =
    ap (λ k. replicate k a ++ l) {x = n + 1} {y = suc n} (omega arith)
    ∙ replicate-snoc n a l
    ∙ ap (λ k. replicate n a ++ k ∷ l) {x = a} {y = c} (ground arith)

module _ (lib : Streams) (w total : ℕ) where
  open lib use {Input, Output, contents, rest, written, read_u8, read_u8_lem}

  read_step :
      (num c i fuel : ℕ) (codes : List ℕ) (s s1 s2 s3 : Input)
      → i < total
      → read_u8 s ≡ ok (num, s1)
      → read_u8 s1 ≡ ok (c, s2)
      → read_tiles lib w total fuel (i + num) s2
        ≡ ok (some (grid_items (keep_other_than default_bgtile) w (i + num) codes, s3))
      → read_tiles lib w total (suc fuel) i s
        ≡ ok (some (grid_items (keep_other_than default_bgtile) w i (replicate num c ++ codes), s3))
  unfolding read_tiles
  read_step num c i fuel codes s s1 s2 s3 inside reads reads' later =
      let more : leb total i ≡ false = ground arith in
      elim (Bool-cases (c == default_bgtile)) [
        | inl same ↦
            rw (more, reads, reads', later, same, grid_items-skipped_run w num i c codes same)
        | inr other ↦
            rw (more, reads, reads', later, other, grid_items-kept_run w num i c codes other)
      ]

  read_run :
      (num c i fuel : ℕ) (codes bytes : List ℕ) (s : Input)
      → i < total
      → rest s ≡ num ∷ c ∷ bytes
      → ((s2 : Input)
          → rest s2 ≡ bytes
          → (s3 : Input) × (read_tiles lib w total fuel (i + num) s2
              ≡ ok (some (grid_items (keep_other_than default_bgtile) w (i + num) codes, s3))))
      → (s3 : Input) × (read_tiles lib w total (suc fuel) i s
          ≡ ok (
              some
                (grid_items (keep_other_than default_bgtile) w i (replicate num c ++ codes), s3)))
  read_run num c i fuel codes bytes s inside e later =
      let (s1, reads, _, left) = read_u8_lem s num (c ∷ bytes) e in
      let (s2, reads', _, left') = read_u8_lem s1 c bytes left in
      let (s3, runs) = later s2 left' in
      (s3, read_step num c i fuel codes s s1 s2 s3 inside reads reads' runs)

  read_end :
      (fuel i : ℕ) (s : Input)
      → total ≤ i
      → read_tiles lib w total fuel i s
        ≡ ok (some (grid_items (keep_other_than default_bgtile) w i [], s))
  unfolding read_tiles grid_items
  read_end zero i s done = let e : leb total i ≡ true = ground arith in rw e
  read_end (suc fuel) i s done = let e : leb total i ≡ true = ground arith in rw e

  pub read_tiles-runs_bytes :
      (codes : List ℕ) (count code i fuel : ℕ) (s : Input)
      → 0 < count
      → length codes < fuel
      → i + count + length codes ≡ total
      → rest s ≡ runs_bytes count code codes
      → (s' : Input) × (read_tiles lib w total fuel i s
          ≡ ok (
              some (
                grid_items (keep_other_than default_bgtile) w i (replicate count code ++ codes),
                s',
              )))
  read_tiles-runs_bytes codes count code i zero s pos enough sum e = absurd (omega arith)
  read_tiles-runs_bytes [] count code i (suc fuel) s pos enough sum e =
      read_run count code i fuel [] [] s (omega arith) (unfold runs_bytes in e)
        (λ s2 left. (s2, read_end fuel (i + count) s2 (omega arith)))
  read_tiles-runs_bytes (c ∷ codes) count code i (suc fuel) s pos enough sum e =
      elim (Bool-cases (c == code)) [
        | inl same ↦ elim (Bool-cases (count == 255)) [
          | inl full ↦
              let (s', runs) =
                read_run count code i fuel (replicate 1 code ++ codes) (runs_bytes 1 code codes) s
                  (omega arith) (e ∙ runs_bytes-full count code c codes same full)
                  (λ s2 left.
                    read_tiles-runs_bytes codes 1 code (i + count) fuel s2 (omega arith)
                      (omega arith) (omega arith) left) in
              (s', rw (same_head code c codes same) runs)
          | inr room ↦
              let (s', runs) =
                read_tiles-runs_bytes codes (count + 1) code i (suc fuel) s (omega arith)
                  (omega arith) (omega arith) (e ∙ runs_bytes-room count code c codes same room) in
              (s', rw (← run_grows count code c codes same) runs)
        ]
        | inr other ↦
            read_run count code i fuel (replicate 1 c ++ codes) (runs_bytes 1 c codes) s
              (omega arith) (e ∙ runs_bytes-other count code c codes other)
              (λ s2 left.
                read_tiles-runs_bytes codes 1 c (i + count) fuel s2 (omega arith) (omega arith)
                  (omega arith) left)
      ]
