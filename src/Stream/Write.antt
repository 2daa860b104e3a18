-- ===== src/Stream/Write.antt =====
-- Writing to a stream at its end.
use libgamemaps.Prelude.{
  ℕ, ◌≤◌, ◌-◌, replicate, ◌%◌, ◌/◌, ◌≡◌, ◌∙◌, ap, sym, List, [], ◌∷◌, ◌++◌, length, arith,
}
use libgamemaps.Result.{ok}
use libgamemaps.Stream.{Streams, IsFresh}

module _ (lib : Streams) where
  open lib use {
    write_null_padded, write_null_padded_lem, write_u32le, write_u32le_lem, Output, written, tell,
    write, write_u8, write_u16le, flush, seek_put, write_lem, write_u8_lem, write_u16le_lem,
    flush_lem, seek_put_lem,
  }

  -- The stream holds just `bytes`, and the pointer stands at their end.
  pub record Holds (bytes : List ℕ) (o : Output) : Type 0 where
    pub bytes_written : written o ≡ bytes
    pub at_end : tell o ≡ length (written o)

  pub IsFresh-Holds : {o : Output} → IsFresh lib o → Holds [] o
  IsFresh-Holds f = record {
    bytes_written = f.nothing_written;
    at_end = rw f.nothing_written f.at_start;
  }

  pub Holds-write :
      {bytes : List ℕ} {o : Output} (more : List ℕ)
      → Holds bytes o
      → (o' : Output) × (write more o ≡ ok o') × Holds (bytes ++ more) o'
  Holds-write {o = o} more h =
      let (o', runs, holds, end) = write_lem more o h.at_end in
      (
        o',
        runs,
        record { bytes_written = holds ∙ ap (λ l. l ++ more) h.bytes_written; at_end = end },
      )

  pub Holds-flush :
      {bytes : List ℕ} {o : Output}
      → Holds bytes o
      → (o' : Output) × (flush o ≡ ok o') × Holds bytes o'
  Holds-flush {o = o} h =
      let (o', runs, same, there) = flush_lem o in
      (
        o',
        runs,
        record {
          bytes_written = same ∙ h.bytes_written;
          at_end = there ∙ h.at_end ∙ ap length (sym same);
        },
      )

  -- seekp(0) on a fresh stream.
  pub Holds-rewind :
      {o : Output} → Holds [] o → (o' : Output) × (seek_put 0 o ≡ ok o') × Holds [] o'
  Holds-rewind {o = o} h =
      let (o', runs, same, there) = seek_put_lem 0 o (omega arith) in
      (
        o',
        runs,
        record {
          bytes_written = same ∙ h.bytes_written;
          at_end = rw (same ∙ h.bytes_written) there;
        },
      )

  pub Holds-write_u16le :
      {bytes : List ℕ} {o : Output} (v : ℕ)
      → Holds bytes o
      → (o' : Output) × (write_u16le v o ≡ ok o') × Holds (bytes ++ v % 256 ∷ v / 256 % 256 ∷ []) o'
  Holds-write_u16le {o = o} v h =
      let (o', runs, holds, end) = write_u16le_lem v o h.at_end in
      (
        o',
        runs,
        record {
          bytes_written = holds ∙ ap (λ l. l ++ v % 256 ∷ v / 256 % 256 ∷ []) h.bytes_written;
          at_end = end;
        },
      )

  pub Holds-write_u8 :
      (v : ℕ) (bytes : List ℕ) (o : Output)
      → Holds bytes o
      → (o' : Output) × (write_u8 v o ≡ ok o') × Holds (bytes ++ v % 256 ∷ []) o'
  Holds-write_u8 v bytes o h =
      let (o', runs, holds, end) = write_u8_lem v o h.at_end in
      (
        o',
        runs,
        record {
          bytes_written = holds ∙ ap (λ l. l ++ v % 256 ∷ []) h.bytes_written;
          at_end = end;
        },
      )

  pub Holds-write_u32le :
      {bytes : List ℕ} {o : Output} (v : ℕ)
      → Holds bytes o
      → (o' : Output) × (write_u32le v o ≡ ok o')
        × Holds (bytes ++ v % 256 ∷ v / 256 % 256 ∷ v / 65536 % 256 ∷ v / 16777216 % 256 ∷ []) o'
  Holds-write_u32le {o = o} v h =
      let (o', runs, holds, end) = write_u32le_lem v o h.at_end in
      (o', runs, record { bytes_written = rw h.bytes_written at holds; at_end = end })

  pub Holds-write_null_padded :
      {bytes : List ℕ} {o : Output} (text : List ℕ) (n : ℕ)
      → length text ≤ n
      → Holds bytes o
      → (o' : Output) × (write_null_padded text n o ≡ ok o')
        × Holds (bytes ++ (text ++ replicate (n - length text) 0)) o'
  Holds-write_null_padded {o = o} text n fits h =
      let (o', runs, holds, end) = write_null_padded_lem text n o h.at_end fits in
      (o', runs, record { bytes_written = rw h.bytes_written at holds; at_end = end })
