-- ===== src/Format/Nukem2/Rle/Reading.antt =====
-- What the loop of `open` reads from the tokens of the extra bits.
use libgamemaps.Prelude.{
  ℕ, zero, suc, ◌+◌, ◌-◌, ◌*◌, ◌%◌, ◌^◌, ◌≤◌, ◌<◌, ◌≡◌, refl, sym, ap, ◌∙◌, subst, true, false, inl,
  inr, some, List, [], ◌∷◌, ◌++◌, append-nil, append_assoc, All, length, length-append, replicate,
  length-replicate, arith, ltb, ltb→lt, leb, ◌==◌, Bool-cases,
}
use libgamemaps.Result.{ok}
use libgamemaps.Stream.{Streams}
use libgamemaps.Stream.Read.{skip_exactly}
use libgamemaps.Format.Nukem2.Extra.{
  extra_values, same_run, repeated_run, literal_run, extra_run, read_extra,
}
use libgamemaps.Format.Nukem2.Rle.Tokens.{
  Token, same, different, IsToken, token_bytes, token_raw, tokens_bytes, tokens_raw,
}

-- The cells of bytes.
unfoldable pub unpacked : List ℕ → List ℕ
unpacked [] = []
unpacked (byte ∷ bytes) = extra_values byte ++ unpacked bytes

pub unpacked-append : (xs ys : List ℕ) → unpacked (xs ++ ys) ≡ unpacked xs ++ unpacked ys
unfolding unpacked
unpacked-append [] ys = refl
unpacked-append (x ∷ xs) ys =
    ap (λ l. extra_values x ++ l) (unpacked-append xs ys)
    ∙ sym (append_assoc (extra_values x) (unpacked xs) (unpacked ys))

pub unpacked-replicate : (n : ℕ) → unpacked (replicate n 0) ≡ replicate (n * 4) 0
unfolding unpacked extra_values
unpacked-replicate zero = refl
unpacked-replicate (suc n) =
    ap (λ l. 0 ∷ 0 ∷ 0 ∷ 0 ∷ l) (unpacked-replicate n)
    ∙ ap (λ (k : ℕ). replicate k 0) {x = suc (suc (suc (suc (n * 4))))} {y = suc n * 4}
        (omega arith)

-- The number of raw bytes of a token is not 0.
token_raw_pos : (t : Token) → IsToken t → 0 < length (token_raw t)
token_raw_pos (same n byte) (p, q, r) = rw (length-replicate n byte) p
token_raw_pos (different bytes) (p, q, r) = p

token_bytes_pos : (t : Token) → 0 < length (token_bytes t)
token_bytes_pos (same n byte) = omega arith
token_bytes_pos (different bytes) = omega arith

same_run_lem :
    (total n code ev ev' : ℕ)
    → ev + n * 4 < total
    → ev' ≡ ev + n * 4
    → same_run total n code ev ≡ (unpacked (replicate n code), ev')
unfolding same_run unpacked
same_run_lem total zero code ev ev' room e =
    ap (λ (k : ℕ). ([], k)) {x = ev} {y = ev'} (omega arith)
same_run_lem total (suc n) code ev ev' room e =
    let more : leb total (ev + 4) ≡ false = ground arith in
    rw (more, same_run_lem total n code (ev + 4) ev' (omega arith) (omega arith))

repeated_run_lem :
    (total n code ev ev' : ℕ)
    → ev + n * 4 < total
    → ev' ≡ ev + n * 4
    → repeated_run total n code ev ≡ (unpacked (replicate n code), ev')
unfolding repeated_run
repeated_run_lem total n code ev ev' room e = elim (Bool-cases (code == 0)) [
  | inl is_zero ↦ let c : code ≡ 0 = ground arith in rw (is_zero, c, unpacked-replicate n, e)
  | inr other ↦ rw other (same_run_lem total n code ev ev' room e)
]

module _ (lib : Streams) (total : ℕ) where
  open lib use {Input, Output, contents, rest, read_u8, read_u8_lem}

  literal_run_lem :
      (bytes : List ℕ) (i i' ev ev' : ℕ) (s : Input) (back : List ℕ)
      → rest s ≡ bytes ++ back
      → ev + length bytes * 4 < total
      → i' ≡ i + length bytes
      → ev' ≡ ev + length bytes * 4
      → (s' : Input) × (literal_run lib total (length bytes) i ev s
          ≡ ok (unpacked bytes, i', ev', s'))
        × (rest s' ≡ back)
  unfolding literal_run unpacked
  literal_run_lem [] i i' ev ev' s back e room ei ee =
      let here : i ≡ i' = omega arith in
      let there : ev ≡ ev' = omega arith in (s, rw (here, there), e)
  literal_run_lem (b ∷ bytes) i i' ev ev' s back e room ei ee =
      let (s1, reads, _, left) = read_u8_lem s b (bytes ++ back) e in
      let more : leb total (ev + 4) ≡ false = ground arith in
      let (s2, runs, left') =
        literal_run_lem bytes (i + 1) i' (ev + 4) ev' s1 back left (omega arith) (omega arith)
          (omega arith) in
      (s2, rw (reads, more, runs), left')

  extra_run_lem :
      (t : Token) (i i' ev ev' : ℕ) (s : Input) (back : List ℕ)
      → IsToken t
      → rest s ≡ token_bytes t ++ back
      → ev + length (token_raw t) * 4 < total
      → i' + 1 ≡ i + length (token_bytes t)
      → ev' ≡ ev + length (token_raw t) * 4
      → (s' : Input) × (extra_run lib total i ev s ≡ ok (unpacked (token_raw t), i', ev', s'))
        × (rest s' ≡ back)
  unfolding extra_run
  extra_run_lem (same n byte) i i' ev ev' s back (pos, le, small) e room ei ee =
      let len = length-replicate n byte in
      let (s1, reads, _, left) = read_u8_lem s n (byte ∷ back) e in
      let (s2, reads', _, left') = read_u8_lem s1 byte back left in
      let short : leb 128 n ≡ false = ground arith in
      let here : i + 1 ≡ i' = omega arith in
      (
        s2,
        rw (
          reads,
          short,
          reads',
          repeated_run_lem total n byte ev ev' (omega (arith, len)) (omega (arith, len)),
          here,
        ),
        left',
      )
  extra_run_lem (different bytes) i i' ev ev' s back (pos, le, small) e room ei ee =
      let (s1, reads, _, left) = read_u8_lem s (256 - length bytes) (bytes ++ back) e in
      let long : leb 128 (256 - length bytes) ≡ true = ground arith in
      let count : 256 - (256 - length bytes) ≡ length bytes = omega arith in
      let (s2, runs, left') =
        literal_run_lem bytes i i' ev ev' s1 back left room (omega arith) ee in
      (
        s2,
        rw (reads, long)
            (subst (λ k. literal_run lib total k i ev s1 ≡ ok (unpacked bytes, i', ev', s2))
              (sym count) runs),
        left',
      )

  -- A round after which the array is full: the bytes that are left are skipped.
  round_full :
      (fuel len_extra i i' ev ev' : ℕ) (values : List ℕ) (s s1 : Input) (tail back : List ℕ)
      → i < len_extra
      → len_extra < 2 ^ 16
      → extra_run lib total i ev s ≡ ok (values, i', ev', s1)
      → ltb total (ev' + 4) ≡ true
      → rest s1 ≡ tail ++ back
      → i' + 1 + length tail ≡ len_extra
      → (s' : Input) × (read_extra lib total len_extra (suc fuel) i ev s ≡ ok (some (values, s')))
        × (rest s' ≡ back)
  unfolding read_extra
  round_full fuel len_extra i i' ev ev' values s s1 tail back more small runs full e end =
      let inside : leb len_extra i ≡ false = ground arith in
      let (s2, skips, _, left) =
        skip_exactly lib ((len_extra + 2 ^ 32 - i' - 1) % 2 ^ 32) s1 tail back e (omega arith) in
      (s2, rw (inside, runs, full, skips), left)

  round_room :
      (fuel len_extra i i' ev ev' : ℕ) (values values' : List ℕ) (s s1 s2 : Input)
      → i < len_extra
      → extra_run lib total i ev s ≡ ok (values, i', ev', s1)
      → ltb total (ev' + 4) ≡ false
      → read_extra lib total len_extra fuel (i' + 1) ev' s1 ≡ ok (some (values', s2))
      → read_extra lib total len_extra (suc fuel) i ev s ≡ ok (some (values ++ values', s2))
  unfolding read_extra
  round_room fuel len_extra i i' ev ev' values values' s s1 s2 more runs room later =
      let inside : leb len_extra i ≡ false = ground arith in rw (inside, runs, room, later)

  read_stops :
      (fuel len_extra i ev : ℕ) (s : Input)
      → len_extra ≤ i
      → read_extra lib total len_extra fuel i ev s ≡ ok (some ([], s))
  unfolding read_extra
  read_stops zero len_extra i ev s end = let done : leb len_extra i ≡ true = ground arith in rw done
  read_stops (suc fuel) len_extra i ev s end =
      let done : leb len_extra i ≡ true = ground arith in rw done

  -- The two bytes 0 at the end give no cells.
  last_run :
      (i ev : ℕ) (s : Input) (back : List ℕ)
      → rest s ≡ 0 ∷ 0 ∷ back
      → (s' : Input) × (extra_run lib total i ev s ≡ ok ([], i + 1, ev, s')) × (rest s' ≡ back)
  unfolding extra_run repeated_run
  last_run i ev s back e =
      let (s1, reads, _, left) = read_u8_lem s 0 (0 ∷ back) e in
      let (s2, reads', _, left') = read_u8_lem s1 0 back left in
      let same_place : ev + 0 * 4 ≡ ev = omega arith in (s2, rw (reads, reads', same_place), left')

  read_end :
      (fuel len_extra i ev : ℕ) (s : Input) (back : List ℕ)
      → rest s ≡ 0 ∷ 0 ∷ back
      → len_extra < 2 ^ 16
      → i + 2 ≡ len_extra
      → (s' : Input) × (read_extra lib total len_extra (suc fuel) i ev s ≡ ok (some ([], s')))
        × (rest s' ≡ back)
  read_end fuel len_extra i ev s back e small end =
      let (s1, runs, left) = last_run i ev s back e in
      elim (Bool-cases (ltb total (ev + 4))) [
        | inl full ↦
            round_full fuel len_extra i (i + 1) ev ev [] s s1 [] back (omega arith) small runs full
              left (omega arith)
        | inr room ↦ (
          s1,
          round_room fuel len_extra i (i + 1) ev ev [] [] s s1 s1 (omega arith) runs room
              (read_stops fuel len_extra (i + 1 + 1) ev s1 (omega arith)),
          left,
        )
      ]

  -- Where the array is full no token is left.
  none_left :
      (ev : ℕ) (ts : List Token)
      → All IsToken ts
      → ev + length (tokens_raw ts) * 4 < total
      → ltb total (ev + 4) ≡ true
      → ts ≡ []
  unfolding tokens_raw
  none_left ev [] h room full = refl
  none_left ev (t ∷ ts) (is, h) room full = absurd (
      omega
        (arith, ltb→lt _ _ full, token_raw_pos t is, length-append (token_raw t) (tokens_raw ts)))

  pub read_extra-tokens :
      (ts : List Token) (fuel len_extra i ev : ℕ) (s : Input) (back : List ℕ)
      → All IsToken ts
      → rest s ≡ tokens_bytes ts ++ 0 ∷ 0 ∷ back
      → i + length (tokens_bytes ts) + 2 ≡ len_extra
      → len_extra < 2 ^ 16
      → len_extra ≤ i + fuel
      → ev + length (tokens_raw ts) * 4 < total
      → (s' : Input) × (read_extra lib total len_extra fuel i ev s
          ≡ ok (some (unpacked (tokens_raw ts), s')))
        × (rest s' ≡ back)
  unfolding tokens_bytes tokens_raw
  read_extra-tokens ts zero len_extra i ev s back h e end small enough room = absurd (omega arith)
  read_extra-tokens [] (suc fuel) len_extra i ev s back h e end small enough room =
      unfold unpacked in read_end fuel len_extra i ev s back e small (omega arith)
  read_extra-tokens (t ∷ ts) (suc fuel) len_extra i ev s back (is, h) e end small enough room =
      let n = length (token_bytes t) in
      let m = length (token_raw t) in
      let bytes = length-append (token_bytes t) (tokens_bytes ts) in
      let raw = length-append (token_raw t) (tokens_raw ts) in
      let pos = token_bytes_pos t in
      let (s1, runs, left) =
        extra_run_lem t i (i + n - 1) ev (ev + m * 4) s (tokens_bytes ts ++ 0 ∷ 0 ∷ back) is
          (e ∙ append_assoc (token_bytes t) (tokens_bytes ts) (0 ∷ 0 ∷ back)) (omega (arith, raw))
          (omega (arith, pos)) refl in
      elim (Bool-cases (ltb total (ev + m * 4 + 4))) [
        | inl full ↦
            let empty = none_left (ev + m * 4) ts h (omega (arith, raw)) full in
            let (s2, reads, left') =
              round_full fuel len_extra i (i + n - 1) ev (ev + m * 4) (unpacked (token_raw t)) s s1
                (0 ∷ 0 ∷ []) back (omega arith) small runs full
                (left ∙ ap (λ us. tokens_bytes us ++ 0 ∷ 0 ∷ back) empty)
                (omega (arith, pos, bytes, ap (λ us. length (tokens_bytes us)) empty)) in
            (
              s2,
              reads
                  ∙ ap (λ l. ok (some (l, s2)))
                      (ap unpacked (
                        sym (
                          ap (λ us. token_raw t ++ tokens_raw us) empty
                          ∙ append-nil (token_raw t)))),
              left',
            )
        | inr space ↦
            let (s2, reads, left') =
              read_extra-tokens ts fuel len_extra (i + n - 1 + 1) (ev + m * 4) s1 back h left
                (omega (arith, pos, bytes)) small (omega (arith, pos)) (omega (arith, raw)) in
            (
              s2,
              round_room fuel len_extra i (i + n - 1) ev (ev + m * 4) (unpacked (token_raw t))
                    (unpacked (tokens_raw ts)) s s1 s2 (omega arith) runs space reads
                  ∙ ap (λ l. ok (some (l, s2)))
                      (sym (unpacked-append (token_raw t) (tokens_raw ts))),
              left',
            )
      ]
