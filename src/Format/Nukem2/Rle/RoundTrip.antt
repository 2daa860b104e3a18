-- ===== src/Format/Nukem2/Rle/RoundTrip.antt =====
-- The extra bits that `write` encodes are those that `open` reads.
use libgamemaps.Prelude.{
  ℕ, zero, ◌+◌, ◌-◌, ◌*◌, ◌^◌, ◌≤◌, ◌<◌, ◌≡◌, refl, sym, ap, ◌∙◌, subst, some, List, [], ◌∷◌, ◌++◌,
  append_assoc, All, All-append, length, length-append, take, take-append, take-replicate,
  replicate, length-replicate, replicate-append, arith,
}
use libgamemaps.Result.{ok}
use libgamemaps.Stream.{Streams}
use libgamemaps.Stream.Bytes.{AllBytes, IsByte}
use libgamemaps.Format.Nukem2.Extra.{extra_values, raw_extra, filled, read_extra}
use libgamemaps.Format.Nukem2.Packing.{IsExtra, raw_extra_lem}
use libgamemaps.Format.Nukem2.Rle.{rle_encode}
use libgamemaps.Format.Nukem2.Rle.Tokens.{
  Token, same, different, IsToken, token_bytes, token_raw, tokens_bytes, tokens_raw,
  tokens_bytes-AllBytes,
}
use libgamemaps.Format.Nukem2.Rle.Coding.{IsCoded, rle_encode-IsCoded}
use libgamemaps.Format.Nukem2.Rle.Reading.{
  unpacked, unpacked-append, unpacked-replicate, read_extra-tokens,
}

length-unpacked : (bytes : List ℕ) → length (unpacked bytes) ≡ length bytes * 4
unfolding unpacked extra_values
length-unpacked [] = refl
length-unpacked (b ∷ bytes) = omega (arith, length-unpacked bytes)

-- A token is at most twice as long as its bytes.
token_bytes-le : (t : Token) → IsToken t → length (token_bytes t) ≤ 2 * length (token_raw t)
token_bytes-le (same n byte) (p, q, r) = omega (arith, length-replicate n byte)
token_bytes-le (different bytes) (p, q, r) = omega arith

tokens_bytes-le :
    (ts : List Token) → All IsToken ts → length (tokens_bytes ts) ≤ 2 * length (tokens_raw ts)
unfolding tokens_bytes tokens_raw
tokens_bytes-le [] h = omega arith
tokens_bytes-le (t ∷ ts) (p, h) = omega (
  arith,
  token_bytes-le t p,
  tokens_bytes-le ts h,
  length-append (token_bytes t) (tokens_bytes ts),
  length-append (token_raw t) (tokens_raw ts),
)

filled_lem :
    (total : ℕ) (values : List ℕ)
    → length values ≤ total
    → filled total values ≡ values ++ replicate (total - length values) 0
unfolding filled
filled_lem total values le =
    take-append total values (replicate total 0) le
    ∙ ap (λ l. values ++ l) (take-replicate (total - length values) total 0 (omega arith))

-- The bytes 0 that the encoder leaves out are filled in again.
filled-kept :
    (total zeros : ℕ) (kept : List ℕ)
    → length kept * 4 + zeros * 4 ≤ total
    → filled total (unpacked kept)
      ≡ unpacked (kept ++ replicate zeros 0) ++ replicate (total - (length kept * 4 + zeros * 4)) 0
filled-kept total zeros kept le =
    let len = length-unpacked kept in
    filled_lem total (unpacked kept) (omega (arith, len))
    ∙ ap (λ l. unpacked kept ++ l)
        (ap (λ (k : ℕ). replicate k 0) {x = total - length (unpacked kept)}
            {y = zeros * 4 + (total - (length kept * 4 + zeros * 4))} (omega (arith, len))
          ∙ sym (replicate-append (zeros * 4) (total - (length kept * 4 + zeros * 4)) 0))
    ∙ sym (append_assoc (unpacked kept) (replicate (zeros * 4) 0) _)
    ∙ ap (λ l. l ++ replicate (total - (length kept * 4 + zeros * 4)) 0)
        (ap (λ l. unpacked kept ++ l) (sym (unpacked-replicate zeros))
          ∙ sym (unpacked-append kept (replicate zeros 0)))

-- Coded bytes are bytes, and not too many.
coded_range :
    (bytes raw : List ℕ) → IsCoded bytes raw → AllBytes bytes × (length bytes ≤ 2 * length raw + 2)
coded_range bytes raw c =
    let ts = c.encoded.tokens in
    let whole : bytes ≡ tokens_bytes ts ++ 0 ∷ 0 ∷ [] =
      c.coded_lem ∙ ap (λ (l : List ℕ). l ++ 0 ∷ 0 ∷ []) c.encoded.bytes_lem in
    (
      subst AllBytes (sym whole) (
          All-append IsByte (tokens_bytes ts) (0 ∷ 0 ∷ [])
            (tokens_bytes-AllBytes ts c.encoded.are_tokens) (omega arith)),
      omega (
        arith,
        ap length whole,
        length-append (tokens_bytes ts) (0 ∷ 0 ∷ []),
        tokens_bytes-le ts c.encoded.are_tokens,
        ap length c.encoded.raw_lem,
        ap length c.kept_lem,
        length-append c.kept (replicate c.zeros zero),
      ),
    )

module _ (lib : Streams) (total : ℕ) where
  open lib use {Input, Output, contents, rest}

  -- What the loop reads from coded bytes.
  read_coded :
      (bytes raw : List ℕ) (s : Input) (back : List ℕ)
      → IsCoded bytes raw
      → length raw < 2 ^ 14
      → length raw * 4 < total
      → rest s ≡ bytes ++ back
      → (values : List ℕ) × (s' : Input) × (read_extra lib total (length bytes) (length bytes) 0 0 s
          ≡ ok (some (values, s')))
        × (rest s' ≡ back)
        × (filled total values ≡ unpacked raw ++ replicate (total - length raw * 4) 0)
  read_coded bytes raw s back c small room e =
      let ts = c.encoded.tokens in
      let tail = λ (l : List ℕ). l ++ 0 ∷ 0 ∷ [] in
      let whole : bytes ≡ tokens_bytes ts ++ 0 ∷ 0 ∷ [] =
        c.coded_lem ∙ ap tail c.encoded.bytes_lem in
      let raw_len : length raw ≡ length c.kept + c.zeros =
        ap length c.kept_lem
        ∙ length-append c.kept (replicate c.zeros 0)
        ∙ omega (arith, length-replicate c.zeros zero) in
      let kept_len = ap length c.encoded.raw_lem in
      let len : length bytes ≡ length (tokens_bytes ts) + 2 =
        ap length whole ∙ length-append (tokens_bytes ts) (0 ∷ 0 ∷ []) in
      let (s', reads, left) =
        read_extra-tokens lib total ts (length bytes) (length bytes) 0 0 s back c.encoded.are_tokens
          (e ∙ ap (λ l. l ++ back) whole ∙ append_assoc (tokens_bytes ts) (0 ∷ 0 ∷ []) back)
          (omega (arith, len))
          (omega (arith, len, raw_len, kept_len, tokens_bytes-le ts c.encoded.are_tokens))
          (omega arith) (omega (arith, raw_len, kept_len)) in
      (
        unpacked (tokens_raw ts),
        s',
        reads,
        left,
        ap (λ l. filled total (unpacked l)) (sym c.encoded.raw_lem)
            ∙ filled-kept total c.zeros c.kept (omega (arith, raw_len))
            ∙ ap (λ l. unpacked l ++ replicate (total - (length c.kept * 4 + c.zeros * 4)) 0)
                (sym c.kept_lem)
            ∙ ap (λ (k : ℕ). unpacked raw ++ replicate k 0)
                {x = total - (length c.kept * 4 + c.zeros * 4)} {y = total - length raw * 4}
                (omega (arith, raw_len)),
      )

  -- The extra bits of at least n groups of four cells, for 0 < n < 2^14 and an array of more than
  -- 4n cells, go into n bytes that the run-length encoder encodes in fewer than 2^16 bytes. The
  -- loop of open, from any stream with these bytes in front, reads up to their end, with as much
  -- fuel as there are bytes, and fills the array with the cells of the n groups and then with 0.
  pub read_extra-rle_encode :
      (n : ℕ) (extra : List ℕ)
      → 0 < n
      → n < 2 ^ 14
      → n * 4 < total
      → n * 4 ≤ length extra
      → All IsExtra extra
      → (bytes : List ℕ) × (rle_encode (raw_extra n extra) ≡ ok bytes)
        × AllBytes bytes
        × (length bytes < 2 ^ 16)
        × ((s : Input) (back : List ℕ)
            → rest s ≡ bytes ++ back
            → (values : List ℕ) × (left : Input) × (read_extra lib total
                  (length bytes)
                  (length bytes)
                  0
                  0
                  s
                ≡ ok (some (values, left)))
              × (rest left ≡ back)
              × (filled total values ≡ take (n * 4) extra ++ replicate (total - n * 4) 0))
  read_extra-rle_encode n extra pos small room le h =
      let (bytes_small, len, cells) = raw_extra_lem n extra le h in
      go (raw_extra n extra) bytes_small len cells
    where
      go :
          (raw : List ℕ)
          → AllBytes raw
          → length raw ≡ n
          → unpacked raw ≡ take (n * 4) extra
          → (bytes : List ℕ) × (rle_encode raw ≡ ok bytes)
            × AllBytes bytes
            × (length bytes < 2 ^ 16)
            × ((s : Input) (back : List ℕ)
                → rest s ≡ bytes ++ back
                → (values : List ℕ) × (left : Input) × (read_extra lib total
                      (length bytes)
                      (length bytes)
                      0
                      0
                      s
                    ≡ ok (some (values, left)))
                  × (rest left ≡ back)
                  × (filled total values ≡ take (n * 4) extra ++ replicate (total - n * 4) 0))
      go [] bytes_small len cells = absurd (omega arith)
      go (first ∷ raw) bytes_small len cells =
          let (bytes, writes, coded) = rle_encode-IsCoded first raw bytes_small in
          let (are_bytes, size) = coded_range bytes (first ∷ raw) coded in
          (
            bytes,
            writes,
            are_bytes,
            omega (arith, len),
            λ s back e.
                let (values, left, reads, same_left, fills) =
                  read_coded bytes (first ∷ raw) s back coded (omega (arith, len))
                    (omega (arith, len)) e in
                (
                  values,
                  left,
                  reads,
                  same_left,
                  fills
                      ∙ ap (λ l. l ++ replicate (total - length (first ∷ raw) * 4) 0) cells
                      ∙ ap (λ (k : ℕ). take (n * 4) extra ++ replicate (total - k * 4) 0) len,
                ),
          )
