-- ===== src/Format/Sweeney/Ends.antt =====
-- The two loops of src/fmt-map-xargon.cpp that only the file ends come to their end: the one over
-- the second file and the one over the texts.
use libgamemaps.Prelude.{
  ℕ, zero, suc, ◌+◌, ◌-◌, ◌%◌, ◌^◌, ◌*◌, bit_or, ◌≤◌, ◌<◌, ◌≡◌, ◌≢◌, ap, inl, inr, true, false,
  Option, none, some, List, ◌∷◌, arith, ltb, Bool-cases,
}
use libgamemaps.Result.{
  Result, ok, throw, undefined, assertion_failed, short_read, ran_out, ran_out->>=, ran_out-later,
}
use libgamemaps.Stream.{Streams}
use libgamemaps.Map2D.{Item, default_item}
use libgamemaps.Format.Sweeney.{ImageMap, read_dma}
use libgamemaps.Format.Sweeney.Objects.{read_strings, catch_short_read}

module _ (lib : Streams) where
  open lib use {Input, read, read_u8, read_u16le, skip}

  strings_end :
      (fuel left : ℕ) (s : Input) → left ≤ fuel → ran_out (read_strings lib fuel left s) ≡ false
  unfolding read_strings
  strings_end zero left s enough = let done : ltb left 2 ≡ true = ground arith in rw done
  strings_end (suc fuel) left s enough = elim (Bool-cases (ltb left 2)) [
    | inl done ↦ rw done
    | inr more ↦ rw more (
        ran_out->>= (read_u16le s) _ (λ r reads.
          elim (Bool-cases (ltb (left - 2) ((r.0 + 1) % 2 ^ 16))) [
            | inl cut ↦ rw cut
            | inr fits ↦ rw fits (
                ran_out->>= (read ((r.0 + 1) % 2 ^ 16) r.1) _ (λ text reads'.
                  let left' = left - 2 - (r.0 + 1) % 2 ^ 16 in
                  let ih = strings_end fuel left' text.1 (ground arith) in
                  ran_out->>= (read_strings lib fuel left' text.1) _ (λ later answers.
                    ran_out-later (λ (texts : List (List ℕ)). text.0 ∷ texts) later _ answers ih)))
          ]))
  ]

  dma_ends :
      (fuel len : ℕ) (img_map : ImageMap) (s : Input)
      → len < fuel
      → ran_out (read_dma lib fuel len img_map s) ≡ false
  unfolding read_dma
  dma_ends zero len img_map s enough = absurd (omega arith)
  dma_ends (suc fuel) len img_map s enough = ran_out->>= (read_u16le s) _ (λ a _.
      ran_out->>= (read_u8 a.1) _ (λ b _. ran_out->>= (read_u8 b.1) _ (λ c _.
        ran_out->>= (read_u16le c.1) _ (λ d _. ran_out->>= (read_u8 d.1) _ (λ e _.
          ran_out->>= (skip e.0 e.1) _ (λ left _.
            let len' = len - (7 + e.0) in
            let img_map' = (a.0, bit_or (c.0 % 64 * 2 ^ 8) b.0) ∷ img_map in
            elim (Bool-cases (ltb 7 len')) [
              | inl more ↦ rw more (
                  let ih = dma_ends fuel len' img_map' left (ground arith) in
                  ran_out->>= (read_dma lib fuel len' img_map' left) _ (λ later answers.
                    ran_out-later (λ (r : List Item × ImageMap). (default_item 0 0 a.0 ∷ r.0, r.1))
                      later _ answers ih))
              | inr done ↦ rw done
            ]))))))

  catch_none :
      (answer : Result (Option (List (List ℕ))))
      → ran_out answer ≡ false
      → catch_short_read answer ≢ ok none
  unfolding catch_short_read
  catch_none undefined ends h = cc
  catch_none assertion_failed ends h = cc
  catch_none (throw short_read) ends h = cc
  catch_none (throw e) ends h = cc
  catch_none (ok none) ends h = cc
  catch_none (ok (some texts)) ends h = cc

  -- With the fuel that `open` gives them neither the loop over the second file nor the one over the
  -- texts runs out of it, whatever the streams hold.
  pub open_loops_end :
      (len left : ℕ) (img_map : ImageMap) (dma texts : Input)
      → (read_dma lib (len + 1) len img_map dma ≢ ok none)
        × (catch_short_read (read_strings lib left left texts) ≢ ok none)
  open_loops_end len left img_map dma texts = (
    λ h.
        let out = ap ran_out h in let ends = dma_ends (len + 1) len img_map dma (omega arith) in cc,
    catch_none (read_strings lib left left texts) (strings_end left left texts (omega arith)),
  )
