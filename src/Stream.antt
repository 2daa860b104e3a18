-- ===== src/Stream.antt =====
-- The stream library of libgamecommon (camoto/stream.hpp, camoto/iostream_helpers.hpp), which
-- this repository only calls: its operations and what the formats rely on, as an interface.
pub mod Bytes
pub mod Read
pub mod Write
pub mod Memory
use libgamemaps.Prelude.{
  ℕ, ◌+◌, ◌*◌, ◌%◌, ◌/◌, ◌≤◌, ◌<◌, ◌≡◌, List, [], ◌∷◌, ◌++◌, length, take, drop, All, replicate,
  ◌-◌,
}
use libgamemaps.Result.{Result, ok, throw, short_read}

pub record Streams : Type 1 where
  -- A stream that is read: its bytes, and those from the pointer on.
  pub Input : Type 0
  pub contents : Input → List ℕ
  pub rest : Input → List ℕ
  -- A stream that is written: its bytes, and the offset of the pointer.
  pub Output : Type 0
  pub written : Output → List ℕ
  pub tell : Output → ℕ
  -- size(), seekg(off, stream::start), seekg(off, stream::cur), read(), try_read(), >> u8(), >> u16le(),
  -- >> u32le(), >> nullPadded(), tellg(); `read` is also >> fixedLength()
  pub size : Input → ℕ
  pub seek_get : ℕ → Input → Result Input
  pub skip : ℕ → Input → Result Input
  pub read : ℕ → Input → Result (List ℕ × Input)
  pub try_read : ℕ → Input → Result (List ℕ × Input)
  pub read_u8 : Input → Result (ℕ × Input)
  pub read_u16le : Input → Result (ℕ × Input)
  pub read_u32le : Input → Result (ℕ × Input)
  pub read_null_padded : ℕ → Input → Result (List ℕ × Input)
  pub tell_get : Input → ℕ
  -- seekp(off, stream::start), write(), << u8(), << u16le(), << u32le(), << nullPadded(), truncate(),
  -- flush()
  pub seek_put : ℕ → Output → Result Output
  pub write : List ℕ → Output → Result Output
  pub write_u8 : ℕ → Output → Result Output
  pub write_u16le : ℕ → Output → Result Output
  pub write_u32le : ℕ → Output → Result Output
  pub write_null_padded : List ℕ → ℕ → Output → Result Output
  pub truncate : ℕ → Output → Result Output
  pub flush : Output → Result Output
  pub size_lem : (s : Input) → size s ≡ length (contents s)
  pub seek_get_lem :
      (off : ℕ) (s : Input)
      → off ≤ length (contents s)
      → (s' : Input) × (seek_get off s ≡ ok s')
        × (contents s' ≡ contents s)
        × (rest s' ≡ drop off (contents s))
  pub skip_lem :
      (s : Input) (front back : List ℕ)
      → rest s ≡ front ++ back
      → (s' : Input) × (skip (length front) s ≡ ok s')
        × (contents s' ≡ contents s)
        × (rest s' ≡ back)
  pub read_lem :
      (s : Input) (front back : List ℕ)
      → rest s ≡ front ++ back
      → (s' : Input) × (read (length front) s ≡ ok (front, s'))
        × (contents s' ≡ contents s)
        × (rest s' ≡ back)
  pub read_short : (n : ℕ) (s : Input) → length (rest s) < n → read n s ≡ throw short_read
  pub try_read_lem :
      (s : Input) (front back : List ℕ)
      → rest s ≡ front ++ back
      → (s' : Input) × (try_read (length front) s ≡ ok (front, s'))
        × (contents s' ≡ contents s)
        × (rest s' ≡ back)
  -- Near the end `try_read` takes what is left.
  pub try_read_short :
      (n : ℕ) (s : Input)
      → length (rest s) < n
      → (s' : Input) × (try_read n s ≡ ok (rest s, s')) × (contents s' ≡ contents s)
  pub read_u8_lem :
      (s : Input) (b : ℕ) (back : List ℕ)
      → rest s ≡ b ∷ back
      → (s' : Input) × (read_u8 s ≡ ok (b, s')) × (contents s' ≡ contents s) × (rest s' ≡ back)
  pub read_u16le_lem :
      (s : Input) (lo hi : ℕ) (back : List ℕ)
      → rest s ≡ lo ∷ hi ∷ back
      → (s' : Input) × (read_u16le s ≡ ok (lo + 256 * hi, s'))
        × (contents s' ≡ contents s)
        × (rest s' ≡ back)
  pub read_u32le_lem :
      (s : Input) (b0 b1 b2 b3 : ℕ) (back : List ℕ)
      → rest s ≡ b0 ∷ b1 ∷ b2 ∷ b3 ∷ back
      → (s' : Input) × (read_u32le s ≡ ok (b0 + 256 * b1 + 65536 * b2 + 16777216 * b3, s'))
        × (contents s' ≡ contents s)
        × (rest s' ≡ back)
  -- A text without a null byte, and the nulls behind it.
  pub read_null_padded_lem :
      (s : Input) (text : List ℕ) (n : ℕ) (back : List ℕ)
      → All (λ b. 0 < b) text
      → length text ≤ n
      → rest s ≡ (text ++ replicate (n - length text) 0) ++ back
      → (s' : Input) × (read_null_padded n s ≡ ok (text, s'))
        × (contents s' ≡ contents s)
        × (rest s' ≡ back)
  pub tell_get_lem :
      (s : Input) (off : ℕ)
      → off ≤ length (contents s)
      → rest s ≡ drop off (contents s)
      → tell_get s ≡ off
  pub read_u16le_short : (s : Input) → length (rest s) < 2 → read_u16le s ≡ throw short_read
  pub read_u8_short : (s : Input) → rest s ≡ [] → read_u8 s ≡ throw short_read
  pub seek_put_lem :
      (off : ℕ) (o : Output)
      → off ≤ length (written o)
      → (o' : Output) × (seek_put off o ≡ ok o') × (written o' ≡ written o) × (tell o' ≡ off)
  -- What is written at the end of a stream extends it.
  pub write_lem :
      (bytes : List ℕ) (o : Output)
      → tell o ≡ length (written o)
      → (o' : Output) × (write bytes o ≡ ok o')
        × (written o' ≡ written o ++ bytes)
        × (tell o' ≡ length (written o'))
  pub write_u8_lem :
      (v : ℕ) (o : Output)
      → tell o ≡ length (written o)
      → (o' : Output) × (write_u8 v o ≡ ok o')
        × (written o' ≡ written o ++ v % 256 ∷ [])
        × (tell o' ≡ length (written o'))
  pub write_u16le_lem :
      (v : ℕ) (o : Output)
      → tell o ≡ length (written o)
      → (o' : Output) × (write_u16le v o ≡ ok o')
        × (written o' ≡ written o ++ v % 256 ∷ v / 256 % 256 ∷ [])
        × (tell o' ≡ length (written o'))
  pub write_u32le_lem :
      (v : ℕ) (o : Output)
      → tell o ≡ length (written o)
      → (o' : Output) × (write_u32le v o ≡ ok o')
        × (written o'
            ≡ written o ++ v % 256 ∷ v / 256 % 256 ∷ v / 65536 % 256 ∷ v / 16777216 % 256 ∷ [])
        × (tell o' ≡ length (written o'))
  pub write_null_padded_lem :
      (text : List ℕ) (n : ℕ) (o : Output)
      → tell o ≡ length (written o)
      → length text ≤ n
      → (o' : Output) × (write_null_padded text n o ≡ ok o')
        × (written o' ≡ written o ++ (text ++ replicate (n - length text) 0))
        × (tell o' ≡ length (written o'))
  pub truncate_lem :
      (n : ℕ) (o : Output)
      → n ≤ length (written o)
      → (o' : Output) × (truncate n o ≡ ok o') × (written o' ≡ take n (written o))
  pub flush_lem :
      (o : Output)
      → (o' : Output) × (flush o ≡ ok o') × (written o' ≡ written o) × (tell o' ≡ tell o)

module _ (lib : Streams) where
  open lib use {Output, written, tell}

  -- A stream that nothing has been written to yet, as the library makes before it calls `write`.
  pub record IsFresh (o : Output) : Type 0 where
    pub nothing_written : written o ≡ []
    pub at_start : tell o ≡ 0
