-- ===== src/Stream/Read.antt =====
-- Reading a stream of known contents from its start.
use libgamemaps.Prelude.{ℕ, ◌≡◌, ◌∙◌, sym, List, [], ◌++◌, append-nil, length, arith}
use libgamemaps.Result.{ok}
use libgamemaps.Stream.{Streams}

module _ (lib : Streams) where
  open lib use {
    skip, skip_lem, Input, contents, rest, seek_get, read, try_read, seek_get_lem, read_lem,
    try_read_lem,
  }

  pub from_start :
      (s : Input)
      → (s' : Input) × (seek_get 0 s ≡ ok s') × (contents s' ≡ contents s) × (rest s' ≡ contents s)
  from_start s = seek_get_lem 0 s (omega arith)

  pub read_exactly :
      (n : ℕ) (s : Input) (front back : List ℕ)
      → rest s ≡ front ++ back
      → length front ≡ n
      → (s' : Input) × (read n s ≡ ok (front, s')) × (contents s' ≡ contents s) × (rest s' ≡ back)
  read_exactly n s front back e len = rw (← len) (read_lem s front back e)

  pub try_read_exactly :
      (n : ℕ) (s : Input) (front back : List ℕ)
      → rest s ≡ front ++ back
      → length front ≡ n
      → (s' : Input) × (try_read n s ≡ ok (front, s'))
        × (contents s' ≡ contents s)
        × (rest s' ≡ back)
  try_read_exactly n s front back e len = rw (← len) (try_read_lem s front back e)

  -- A read of all that is left.
  pub read_to_end :
      (n : ℕ) (s : Input) (bytes : List ℕ)
      → rest s ≡ bytes
      → length bytes ≡ n
      → (s' : Input) × (read n s ≡ ok (bytes, s')) × (contents s' ≡ contents s) × (rest s' ≡ [])
  read_to_end n s bytes e len = read_exactly n s bytes [] (e ∙ sym (append-nil bytes)) len

  pub try_read_to_end :
      (n : ℕ) (s : Input) (bytes : List ℕ)
      → rest s ≡ bytes
      → length bytes ≡ n
      → (s' : Input) × (try_read n s ≡ ok (bytes, s')) × (contents s' ≡ contents s) × (rest s' ≡ [])
  try_read_to_end n s bytes e len = try_read_exactly n s bytes [] (e ∙ sym (append-nil bytes)) len

  pub skip_exactly :
      (n : ℕ) (s : Input) (front back : List ℕ)
      → rest s ≡ front ++ back
      → length front ≡ n
      → (s' : Input) × (skip n s ≡ ok s') × (contents s' ≡ contents s) × (rest s' ≡ back)
  skip_exactly n s front back e len = rw (← len) (skip_lem s front back e)
