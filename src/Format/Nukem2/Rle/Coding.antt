-- ===== src/Format/Nukem2/Rle/Coding.antt =====
-- What the encoder of the extra bits writes: tokens of the bytes that it was given.
use libgamemaps.Prelude.{
  ℕ, zero, suc, ◌+◌, ◌-◌, ◌≤◌, ◌<◌, ◌≡◌, refl, sym, ap, ◌∙◌, ◌⊎◌, inl, inr, subst, not, ◌&&◌, List,
  [], ◌∷◌, ◌++◌, append-nil, append_assoc, length, take, drop, length-take, length-drop,
  take-append-drop, All-take, All-append, replicate, replicate-append, arith, ltb, ltb→lt, ltb→le,
  ◌==◌, Bool-cases,
}
use libgamemaps.Result.{ok}
use libgamemaps.Stream.Bytes.{AllBytes, IsByte}
use libgamemaps.Format.Nukem2.Rle.{
  RleState, put_diff, put_same, rle_step, rle_loop, rle_last, rle_encode,
}
use libgamemaps.Format.Nukem2.Rle.Tokens.{
  same, different, Encodes, Encodes-nil, Encodes-token, Encodes-append,
}

AllBytes-drop : (n : ℕ) (bytes : List ℕ) → AllBytes bytes → AllBytes (drop n bytes)
AllBytes-drop zero bytes h = h
AllBytes-drop (suc n) [] h = tt
AllBytes-drop (suc n) (b ∷ bytes) (p, h) = AllBytes-drop n bytes h

-- One token of different bytes, and the tokens of the others.
put_diff_token :
    (max len fuel : ℕ) (diff : List ℕ)
    → 0 < len
    → len ≤ 128
    → len ≤ length diff
    → AllBytes diff
    → Encodes (put_diff max fuel (drop len diff)) (drop len diff)
    → Encodes ((256 - len) ∷ (take len diff ++ put_diff max fuel (drop len diff))) diff
put_diff_token max len fuel diff pos le fits small later =
    let n = length-take len diff fits in
    let e =
      Encodes-token (different (take len diff)) (rw n pos, rw n le, All-take IsByte len diff small)
        later in
    subst (λ l. Encodes ((256 - len) ∷ (take len diff ++ put_diff max fuel (drop len diff))) l)
      (take-append-drop len diff)
      (subst
        (λ k.
          Encodes ((256 - k) ∷ (take len diff ++ put_diff max fuel (drop len diff)))
            (take len diff ++ drop len diff))
        n e)

put_diff-Encodes :
    (max fuel : ℕ) (diff : List ℕ)
    → 0 < max
    → max ≤ 128
    → length diff ≤ fuel
    → AllBytes diff
    → Encodes (put_diff max fuel diff) diff
unfolding put_diff
put_diff-Encodes max zero [] pos le enough small = Encodes-nil
put_diff-Encodes max zero (b ∷ diff) pos le enough small = absurd (omega arith)
put_diff-Encodes max (suc fuel) [] pos le enough small = Encodes-nil
put_diff-Encodes max (suc fuel) (b ∷ diff) pos le enough small =
    let step = λ (len : ℕ) (p : 0 < len) (q : len ≤ 128) (r : len ≤ length (b ∷ diff)).
      put_diff_token max len fuel (b ∷ diff) p q r small (
        put_diff-Encodes max fuel (drop len (b ∷ diff)) pos le
          (omega (arith, length-drop len (b ∷ diff))) (AllBytes-drop len (b ∷ diff) small)) in
    elim (Bool-cases (ltb max (length (b ∷ diff)))) [
      | inl long ↦ rw long (step max pos le (omega (arith, ltb→lt _ _ long)))
      | inr short ↦
          rw short
            (step (length (b ∷ diff)) (omega arith) (omega (arith, ltb→le _ _ short)) (omega arith))
    ]

-- One token of equal bytes, and the tokens of the others.
put_same_token :
    (amt fuel byte count : ℕ)
    → 0 < amt
    → amt < 128
    → amt ≤ count
    → byte < 256
    → Encodes (put_same fuel byte (count - amt)) (replicate (count - amt) byte)
    → Encodes (amt ∷ byte ∷ put_same fuel byte (count - amt)) (replicate count byte)
put_same_token amt fuel byte count pos le fits small later =
    subst (λ l. Encodes (amt ∷ byte ∷ put_same fuel byte (count - amt)) l)
      (replicate-append amt (count - amt) byte
        ∙ ap (λ (k : ℕ). replicate k byte) {x = amt + (count - amt)} {y = count} (omega arith))
      (Encodes-token (same amt byte) (pos, le, small) later)

put_same-Encodes :
    (fuel byte count : ℕ)
    → count ≤ fuel
    → byte < 256
    → Encodes (put_same fuel byte count) (replicate count byte)
unfolding put_same
put_same-Encodes zero byte zero enough small = Encodes-nil
put_same-Encodes zero byte (suc n) enough small = absurd (omega arith)
put_same-Encodes (suc fuel) byte zero enough small = Encodes-nil
put_same-Encodes (suc fuel) byte (suc n) enough small =
    let step = λ (amt : ℕ) (p : 0 < amt) (q : amt < 128) (r : amt ≤ suc n).
      put_same_token amt fuel byte (suc n) p q r small
        (put_same-Encodes fuel byte (suc n - amt) (omega arith) small) in
    elim (Bool-cases (ltb 127 (suc n))) [
      | inl long ↦ rw long (step 127 (omega arith) (omega arith) (omega (arith, ltb→lt _ _ long)))
      | inr short ↦
          rw short (step (suc n) (omega arith) (omega (arith, ltb→le _ _ short)) (omega arith))
    ]

-- The state after `raw` has been seen: what is encoded, the different bytes and the last run.
record Codes (raw : List ℕ) (s : RleState) : Type 0 where
  front : List ℕ
  encoded : Encodes s.rle_extra front
  raw_lem : raw ≡ front ++ (s.diff_count ++ replicate s.last_byte_count s.last_byte)
  diff_small : AllBytes s.diff_count
  last_small : s.last_byte < 256
  counted : 0 < s.last_byte_count
  -- While a run is growing no different bytes wait.
  one_kind : (s.diff_count ≡ []) ⊎ (s.last_byte_count ≡ 1)

with_diff-Encodes :
    (max : ℕ) {raw : List ℕ} (s : RleState) (c : Codes raw s)
    → 0 < max
    → max ≤ 128
    → Encodes
        (s.rle_extra ++ put_diff max (length s.diff_count) s.diff_count)
        (c.front ++ s.diff_count)
with_diff-Encodes max s c pos le =
    Encodes-append c.encoded
      (put_diff-Encodes max (length s.diff_count) s.diff_count pos le (omega arith) c.diff_small)

replicate_grows : (n a : ℕ) → replicate n a ++ a ∷ [] ≡ replicate (n + 1) a
replicate_grows n a = replicate-append n 1 a

-- The last run grows, and what waited is written.
regroup_same :
    (front diff : List ℕ) (n a b : ℕ)
    → a ≡ b
    → (front ++ (diff ++ replicate n a)) ++ b ∷ [] ≡ (front ++ diff) ++ replicate (n + 1) a
regroup_same front diff n a b e =
    ap (λ l. l ++ b ∷ []) (sym (append_assoc front diff (replicate n a)))
    ∙ append_assoc (front ++ diff) (replicate n a) (b ∷ [])
    ∙ ap (λ l. (front ++ diff) ++ l)
        (ap (λ k. replicate n a ++ k ∷ []) (sym e) ∙ replicate_grows n a)

regroup_other :
    (front diff run : List ℕ) (b : ℕ)
    → (front ++ (diff ++ run)) ++ b ∷ [] ≡ front ++ ((diff ++ run) ++ b ∷ [])
regroup_other front diff run b = append_assoc front (diff ++ run) (b ∷ [])

rle_step-Codes :
    {raw : List ℕ} (s : RleState) (byte : ℕ)
    → byte < 256
    → Codes raw s
    → Codes (raw ++ byte ∷ []) (rle_step s byte)
unfolding rle_step
rle_step-Codes s byte small c = elim (Bool-cases (s.last_byte == byte)) [
  | inl equal ↦ rw equal (record {
    front = c.front ++ s.diff_count;
    encoded = with_diff-Encodes 127 s c (omega arith) (omega arith);
    raw_lem =
        ap (λ l. l ++ byte ∷ []) c.raw_lem
        ∙ regroup_same c.front s.diff_count s.last_byte_count s.last_byte byte (ground arith);
    diff_small = tt;
    last_small = c.last_small;
    counted = omega arith;
    one_kind = inl refl;
  })
  | inr other ↦ elim (Bool-cases (ltb 1 s.last_byte_count)) [
    | inl run ↦
        let none_wait : s.diff_count ≡ [] = elim c.one_kind [
          | inl e ↦ e
          | inr e ↦ absurd (omega (arith, ltb→lt _ _ run))
        ] in
        rw (other, run)
          (record {
            front = c.front ++ replicate s.last_byte_count s.last_byte;
            encoded = Encodes-append c.encoded (
                put_same-Encodes s.last_byte_count s.last_byte s.last_byte_count (omega arith)
                  c.last_small);
            raw_lem =
                ap (λ l. l ++ byte ∷ [])
                  (c.raw_lem
                    ∙ ap (λ d. c.front ++ (d ++ replicate s.last_byte_count s.last_byte)) none_wait)
                ∙ ap (λ d. (c.front ++ replicate s.last_byte_count s.last_byte) ++ (d ++ byte ∷ []))
                    (sym none_wait);
            diff_small = c.diff_small;
            last_small = small;
            counted = omega arith;
            one_kind = inr refl;
          })
    | inr single ↦
        let one : s.last_byte_count ≡ 1 = omega (arith, ltb→le _ _ single, c.counted) in
        rw (other, single)
          (record {
            front = c.front;
            encoded = c.encoded;
            raw_lem =
                ap (λ l. l ++ byte ∷ [])
                  (c.raw_lem ∙ ap (λ n. c.front ++ (s.diff_count ++ replicate n s.last_byte)) one)
                ∙ regroup_other c.front s.diff_count (s.last_byte ∷ []) byte;
            diff_small =
                All-append IsByte s.diff_count (s.last_byte ∷ []) c.diff_small (c.last_small, tt);
            last_small = small;
            counted = omega arith;
            one_kind = inr refl;
          })
  ]
]

rle_loop-Codes :
    {raw : List ℕ} (s : RleState) (bytes : List ℕ)
    → AllBytes bytes
    → Codes raw s
    → Codes (raw ++ bytes) (rle_loop s bytes)
unfolding rle_loop
rle_loop-Codes {raw} s [] h c = rw (append-nil raw) c
rle_loop-Codes {raw} s (b ∷ bytes) (p, h) c =
    subst (λ l. Codes l (rle_loop (rle_step s b) bytes)) (append_assoc raw (b ∷ []) bytes)
      (rle_loop-Codes (rle_step s b) bytes h (rle_step-Codes s b p c))

-- What is written at the end: all tokens but those of the bytes 0 at the end, and two bytes 0.
pub record IsCoded (bytes raw : List ℕ) : Type 0 where
  pub coded : List ℕ
  pub kept : List ℕ
  pub zeros : ℕ
  pub coded_lem : bytes ≡ coded ++ 0 ∷ 0 ∷ []
  pub encoded : Encodes coded kept
  pub kept_lem : raw ≡ kept ++ replicate zeros 0

rle_last-IsCoded : {raw : List ℕ} (s : RleState) → Codes raw s → IsCoded (rle_last s) raw
unfolding rle_last
rle_last-IsCoded s c =
    let e = with_diff-Encodes 128 s c (omega arith) (omega arith) in
    let run = replicate s.last_byte_count s.last_byte in
    let split = c.raw_lem ∙ sym (append_assoc c.front s.diff_count run) in
    elim (Bool-cases (not (s.last_byte == 0) && ltb 0 s.last_byte_count)) [
      | inl more ↦ rw more (record {
        coded = _;
        kept = (c.front ++ s.diff_count) ++ run;
        zeros = 0;
        coded_lem = refl;
        encoded = Encodes-append e (
            put_same-Encodes s.last_byte_count s.last_byte s.last_byte_count (omega arith)
              c.last_small);
        kept_lem = split ∙ sym (append-nil _);
      })
      | inr no_more ↦
          let zero_run : s.last_byte ≡ 0 = ground (arith, c.counted) in
          rw no_more (record {
            coded = _;
            kept = c.front ++ s.diff_count;
            zeros = s.last_byte_count;
            coded_lem = refl;
            encoded = e;
            kept_lem =
                split
                ∙ ap (λ b. (c.front ++ s.diff_count) ++ replicate s.last_byte_count b) zero_run;
          })
    ]

pub rle_encode-IsCoded :
    (first : ℕ) (bytes : List ℕ)
    → AllBytes (first ∷ bytes)
    → (out : List ℕ) × (rle_encode (first ∷ bytes) ≡ ok out) × IsCoded out (first ∷ bytes)
unfolding rle_encode
rle_encode-IsCoded first bytes (p, h) = (
  _,
  refl,
  rle_last-IsCoded _ (
      rle_loop-Codes {raw = first ∷ []} _ bytes h (record {
        front = [];
        encoded = Encodes-nil;
        raw_lem = refl;
        diff_small = tt;
        last_small = p;
        counted = omega arith;
        one_kind = inl refl;
      })),
)
