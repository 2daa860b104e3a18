-- ===== src/Format/Nukem2/Ends.antt =====
-- The loop that reads the extra bits of a Duke Nukem II level comes to its end.
use libgamemaps.Prelude.{
  ℕ, zero, suc, ◌+◌, ◌-◌, ◌%◌, ◌^◌, ◌≤◌, ◌≡◌, ◌≢◌, refl, ap, inl, inr, true, false, none, some,
  List, ◌++◌, arith, leb, ltb, Bool-cases,
}
use libgamemaps.Result.{Result, ok, >>=-eq-ok, ran_out, ran_out->>=, ran_out-later}
use libgamemaps.Stream.{Streams}
use libgamemaps.Format.Nukem2.Extra.{literal_run, extra_run, read_extra}

module _ (lib : Streams) (total : ℕ) where
  open lib use {Input, Output, read_u8, skip}

  -- The count of bytes in a result.
  abbrev count_of : Result (List ℕ × ℕ × ℕ × Input) → ℕ
  count_of (ok r) = r.1
  count_of _ = 0

  literal_run-le :
      (n i ev : ℕ) (s : Input) (r : List ℕ × ℕ × ℕ × Input)
      → literal_run lib total n i ev s ≡ ok r
      → i ≤ r.1
  unfolding literal_run
  literal_run-le zero i ev s r h = omega (arith, ap count_of h)
  literal_run-le (suc n) i ev s r h =
      let (read, _, h1) = >>=-eq-ok (read_u8 s) _ h in
      elim (Bool-cases (leb total (ev + 4))) [
        | inl full ↦ omega (arith, ap count_of (rw full at h1))
        | inr room ↦
            let (r', runs, h2) =
              >>=-eq-ok (literal_run lib total n (i + 1) (ev + 4) read.1) _ (rw room at h1) in
            omega (arith, literal_run-le n (i + 1) (ev + 4) read.1 r' runs, ap count_of h2)
      ]

  extra_run-le :
      (i ev : ℕ) (s : Input) (r : List ℕ × ℕ × ℕ × Input)
      → extra_run lib total i ev s ≡ ok r
      → i ≤ r.1
  unfolding extra_run
  extra_run-le i ev s r h =
      let (read, _, h1) = >>=-eq-ok (read_u8 s) _ h in
      elim (Bool-cases (leb 128 read.0)) [
        | inl long ↦ literal_run-le _ i ev read.1 r (rw long at h1)
        | inr short ↦
            let (read', _, h2) = >>=-eq-ok (read_u8 read.1) _ (rw short at h1) in
            omega (arith, ap count_of h2)
      ]

  rounds_end :
      (fuel len_extra i ev : ℕ) (s : Input)
      → len_extra ≤ i + fuel
      → ran_out (read_extra lib total len_extra fuel i ev s) ≡ false
  unfolding read_extra
  rounds_end zero len_extra i ev s enough =
      let done : leb len_extra i ≡ true = ground arith in rw done
  rounds_end (suc fuel) len_extra i ev s enough = elim (Bool-cases (leb len_extra i)) [
    | inl done ↦ rw done
    | inr more ↦ rw more (
        ran_out->>= (extra_run lib total i ev s) _ (λ r runs.
          elim (Bool-cases (ltb total (r.2 + 4))) [
            | inl full ↦ rw full (
                ran_out->>= (skip ((len_extra + 2 ^ 32 - r.1 - 1) % 2 ^ 32) r.3)
                  (λ left. ok (some (r.0, left))) (λ left skips. refl))
            | inr room ↦
                let ih =
                  rounds_end fuel len_extra (r.1 + 1) r.2 r.3
                    (omega (arith, extra_run-le i ev s r runs)) in
                rw room (
                  ran_out->>= (read_extra lib total len_extra fuel (r.1 + 1) r.2 r.3) _
                    (λ later reads.
                      ran_out-later (λ (r' : List ℕ × Input). (r.0 ++ r'.0, r'.1)) later _ reads
                        ih))
          ]))
  ]

  -- With as much fuel as there are bytes left the loop that reads the extra bits does not run out
  -- of it, whatever the stream holds.
  pub read_extra_ends :
      (fuel len_extra i ev : ℕ) (s : Input)
      → len_extra ≤ i + fuel
      → read_extra lib total len_extra fuel i ev s ≢ ok none
  read_extra_ends fuel len_extra i ev s enough h =
      let out = ap ran_out h in let ends = rounds_end fuel len_extra i ev s enough in cc
