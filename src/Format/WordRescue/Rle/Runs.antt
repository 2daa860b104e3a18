-- ===== src/Format/WordRescue/Rle/Runs.antt =====
-- What rleWrite() writes: the runs of the data.
use libgamemaps.Prelude.{
  ℕ, ◌+◌, ◌%◌, ◌<◌, ◌≡◌, refl, sym, ap, ◌∙◌, true, false, List, [], ◌∷◌, ◌++◌, length,
  length-append, lt→ltb, subst, append_assoc, arith, ◌==◌, if◌then◌else◌, Bool-cases, inl, inr,
}
use native.Mathlib.Nat.{mod-eq_of_lt}
use libgamemaps.Result.{ok, ◌>>=◌, >>=_assoc}
use libgamemaps.Stream.{Streams, IsFresh}
use libgamemaps.Stream.Bytes.{AllBytes}
use libgamemaps.Stream.Write.{Holds, IsFresh-Holds, Holds-write_u8}
use libgamemaps.Format.WordRescue.Rle.{RleState, put_run, rle_step, rle_loop, write_last, rle_write}

-- The bytes of the runs, where `count` cells of `code` have been seen and not been written yet.
unfoldable pub runs_bytes : ℕ → ℕ → List ℕ → List ℕ
runs_bytes count code [] = count ∷ code ∷ []
runs_bytes count code (c ∷ codes) =
    if c == code
    then if count == 255
      then count ∷ code ∷ runs_bytes 1 code codes
      else runs_bytes (count + 1) code codes
    else count ∷ code ∷ runs_bytes 1 c codes

pub runs_bytes-full :
    (count code c : ℕ) (codes : List ℕ)
    → (c == code) ≡ true
    → (count == 255) ≡ true
    → runs_bytes count code (c ∷ codes) ≡ count ∷ code ∷ runs_bytes 1 code codes
unfolding runs_bytes
runs_bytes-full count code c codes same full = rw (same, full)

pub runs_bytes-room :
    (count code c : ℕ) (codes : List ℕ)
    → (c == code) ≡ true
    → (count == 255) ≡ false
    → runs_bytes count code (c ∷ codes) ≡ runs_bytes (count + 1) code codes
unfolding runs_bytes
runs_bytes-room count code c codes same room = rw (same, room)

pub runs_bytes-other :
    (count code c : ℕ) (codes : List ℕ)
    → (c == code) ≡ false
    → runs_bytes count code (c ∷ codes) ≡ count ∷ code ∷ runs_bytes 1 c codes
unfolding runs_bytes
runs_bytes-other count code c codes other = rw other

module _ (lib : Streams) where
  open lib use {Input, Output, contents, rest, written, read_u8, read_u8_lem}

  -- The state of rleWrite() is that of a run of bytes, at the end of its stream.
  record Runs (bytes : List ℕ) (s : RleState Output) : Type 0 where
    holds : Holds lib bytes s.output
    counts : s.len_written ≡ length bytes

  put_run-Runs :
      (bytes : List ℕ) (s : RleState Output)
      → s.last_count < 256
      → s.last_code < 256
      → Runs bytes s
      → (o : Output) × (put_run lib s
          ≡ ok (record s { len_written = s.len_written + 2; output = o }))
        × Runs
            (bytes ++ s.last_count ∷ s.last_code ∷ [])
            (record s { len_written = s.len_written + 2; output = o })
  unfolding put_run
  put_run-Runs bytes s p q r =
      let (o, writes, h) = Holds-write_u8 lib s.last_count bytes s.output r.holds in
      let (o', writes', h') = Holds-write_u8 lib s.last_code _ o h in
      (
        o',
        rw (writes, writes'),
        record {
          holds =
              subst (λ l. Holds lib l o')
                (append_assoc bytes (s.last_count % 256 ∷ []) (s.last_code % 256 ∷ [])
                  ∙ rw (mod-eq_of_lt p, mod-eq_of_lt q))
                h';
          counts = omega (arith, r.counts, length-append bytes (s.last_count ∷ s.last_code ∷ []));
        },
      )

  rle_loop-Runs :
      (codes bytes : List ℕ) (s : RleState Output)
      → 0 < s.last_count
      → s.last_count < 256
      → s.last_code < 256
      → AllBytes codes
      → Runs bytes s
      → (s' : RleState Output) × ((rle_loop lib s codes >>= write_last lib) ≡ ok s')
        × Runs (bytes ++ runs_bytes s.last_count s.last_code codes) s'
  unfolding rle_loop rle_step
  rle_loop-Runs [] bytes s pos p q small r =
      let (o, writes, r') = put_run-Runs bytes s p q r in
      (
        record s { len_written = s.len_written + 2; output = o },
        unfold write_last in rw (lt→ltb 0 s.last_count pos) writes,
        unfold runs_bytes in r',
      )
  rle_loop-Runs (c ∷ codes) bytes s pos p q (hc, small) r =
      let (o, writes, r') = put_run-Runs bytes s p q r in
      let run = s.last_count ∷ s.last_code ∷ [] in
      elim (Bool-cases (c == s.last_code)) [
        | inl same ↦ elim (Bool-cases (s.last_count == 255)) [
          | inl full ↦
              let (s', runs, r'') =
                rle_loop-Runs codes (bytes ++ run)
                  (record s { len_written = s.len_written + 2; output = o; last_count = 1 })
                  (omega arith) (omega arith) q small
                  (record { holds = r'.holds; counts = r'.counts }) in
              (
                s',
                rw (same, full, writes) runs,
                rw (runs_bytes-full s.last_count s.last_code c codes same full)
                    (subst (λ l. Runs l s') (append_assoc bytes run _) r''),
              )
          | inr room ↦
              let (s', runs, r'') =
                rle_loop-Runs codes bytes (record s { last_count = s.last_count + 1 }) (omega arith)
                  (ground arith) q small (record { holds = r.holds; counts = r.counts }) in
              (
                s',
                rw (same, room) runs,
                rw (runs_bytes-room s.last_count s.last_code c codes same room) r'',
              )
        ]
        | inr other ↦
            let (s', runs, r'') =
              rle_loop-Runs codes (bytes ++ run)
                (record s {
                  len_written = s.len_written + 2;
                  output = o;
                  last_code = c;
                  last_count = 1;
                })
                (omega arith) (omega arith) hc small
                (record { holds = r'.holds; counts = r'.counts }) in
            (
              s',
              rw (other, writes) runs,
              rw (runs_bytes-other s.last_count s.last_code c codes other)
                  (subst (λ l. Runs l s') (append_assoc bytes run _) r''),
            )
      ]

  -- The first cell starts the first run.
  pub rle_write-runs_bytes :
      (first : ℕ) (codes : List ℕ) (o : Output)
      → AllBytes (first ∷ codes)
      → IsFresh lib o
      → (n : ℕ) × (o' : Output) × (rle_write lib (first ∷ codes) o ≡ ok (n, o'))
        × (written o' ≡ runs_bytes 1 first codes)
        × (n ≡ length (written o'))
  unfolding rle_write rle_loop rle_step
  rle_write-runs_bytes first codes o (p, small) fresh =
      let (s, runs, r) =
        rle_loop-Runs codes []
          (record { last_count = 1; last_code = first; len_written = 0; output = o }) (omega arith)
          (omega arith) p small (record { holds = IsFresh-Holds lib fresh; counts = refl }) in
      let same : (first == first) ≡ true = ground arith in
      (
        s.len_written,
        s.output,
        rw same
            (sym (>>=_assoc _ (write_last lib) (λ s'. ok (s'.len_written, s'.output))) ∙ rw runs),
        r.holds.bytes_written,
        r.counts ∙ ap length (sym r.holds.bytes_written),
      )
