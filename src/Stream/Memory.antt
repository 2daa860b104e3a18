-- ===== src/Stream/Memory.antt =====
-- Streams over a list of bytes in memory: an instance that shows the interface can be met.
use libgamemaps.Prelude.{
  ℕ, zero, suc, ◌+◌, ◌*◌, ◌%◌, ◌/◌, ◌≤◌, ◌<◌, ◌≡◌, refl, ap, ◌∙◌, subst, List, [], ◌∷◌, ◌++◌,
  append-nil, length, replicate, ◌-◌, take, take_all, drop, arith, ltb, lt→ltb, le→ltb,
  length-append, false, All, ◌==◌, length-replicate, length-drop, if◌then◌else◌,
}
use libgamemaps.Result.{Result, ok, throw, short_read}
use libgamemaps.Stream.{Streams}

pub record Source : Type 0 where
  pub contents : List ℕ
  pub rest : List ℕ

pub record Sink : Type 0 where
  pub written : List ℕ
  pub tell : ℕ

unfoldable pub seek_get : ℕ → Source → Result Source
seek_get off s =
    if ltb (length s.contents) off
    then throw short_read
    else ok (record s { rest = drop off s.contents })

unfoldable pub skip : ℕ → Source → Result Source
skip n s =
    if ltb (length s.rest) n then throw short_read else ok (record s { rest = drop n s.rest })

unfoldable pub read : ℕ → Source → Result (List ℕ × Source)
read n s =
    if ltb (length s.rest) n
    then throw short_read
    else ok (take n s.rest, record s { rest = drop n s.rest })

unfoldable pub try_read : ℕ → Source → Result (List ℕ × Source)
try_read n s = ok (take n s.rest, record s { rest = drop n s.rest })

unfoldable pub read_u8_from : Source → List ℕ → Result (ℕ × Source)
read_u8_from s (b ∷ bs) = ok (b, record s { rest = bs })
read_u8_from s [] = throw short_read

unfoldable pub read_u16le_from : Source → List ℕ → Result (ℕ × Source)
read_u16le_from s (lo ∷ hi ∷ bs) = ok (lo + 256 * hi, record s { rest = bs })
read_u16le_from s _ = throw short_read

unfoldable pub read_u32le_from : Source → List ℕ → Result (ℕ × Source)
read_u32le_from s (b0 ∷ b1 ∷ b2 ∷ b3 ∷ bs) =
    ok (b0 + 256 * b1 + 65536 * b2 + 16777216 * b3, record s { rest = bs })
read_u32le_from s _ = throw short_read

-- The bytes before the first null.
unfoldable pub before_null : List ℕ → List ℕ
before_null [] = []
before_null (b ∷ bs) = let later = before_null bs in if b == 0 then [] else b ∷ later

unfoldable pub read_null_padded : ℕ → Source → Result (List ℕ × Source)
read_null_padded n s =
    if ltb (length s.rest) n
    then throw short_read
    else ok (before_null (take n s.rest), record s { rest = drop n s.rest })

unfoldable pub seek_put : ℕ → Sink → Result Sink
seek_put off o =
    if ltb (length o.written) off then throw short_read else ok (record o { tell = off })

unfoldable pub write : List ℕ → Sink → Result Sink
write bytes o = ok (record {
  written = take o.tell o.written ++ (bytes ++ drop (o.tell + length bytes) o.written);
  tell = o.tell + length bytes;
})

take-length-append : (front back : List ℕ) → take (length front) (front ++ back) ≡ front
take-length-append [] back = refl
take-length-append (x ∷ front) back = ap (λ l. x ∷ l) (take-length-append front back)

drop-length-append : (front back : List ℕ) → drop (length front) (front ++ back) ≡ back
drop-length-append [] back = refl
drop-length-append (x ∷ front) back = drop-length-append front back

drop_all : (n : ℕ) (xs : List ℕ) → length xs ≤ n → drop n xs ≡ []
drop_all zero [] h = refl
drop_all zero (x ∷ xs) h = absurd (omega arith)
drop_all (suc n) [] h = refl
drop_all (suc n) (x ∷ xs) h = drop_all n xs (omega arith)

pub seek_get_lem :
    (off : ℕ) (s : Source)
    → off ≤ length s.contents
    → (s' : Source) × (seek_get off s ≡ ok s')
      × (s'.contents ≡ s.contents)
      × (s'.rest ≡ drop off s.contents)
unfolding seek_get
seek_get_lem off s h = (record s { rest = drop off s.contents }, rw (le→ltb _ off h), refl, refl)

pub read_lem :
    (s : Source) (front back : List ℕ)
    → s.rest ≡ front ++ back
    → (s' : Source) × (read (length front) s ≡ ok (front, s'))
      × (s'.contents ≡ s.contents)
      × (s'.rest ≡ back)
unfolding read
read_lem s front back e = (
  record s { rest = back },
  rw (
    e,
    le→ltb (length (front ++ back)) (length front) (omega (arith, length-append front back)),
    take-length-append front back,
    drop-length-append front back,
  ),
  refl,
  refl,
)

pub skip_lem :
    (s : Source) (front back : List ℕ)
    → s.rest ≡ front ++ back
    → (s' : Source) × (skip (length front) s ≡ ok s')
      × (s'.contents ≡ s.contents)
      × (s'.rest ≡ back)
unfolding skip
skip_lem s front back e = (
  record s { rest = back },
  rw (
    e,
    le→ltb (length (front ++ back)) (length front) (omega (arith, length-append front back)),
    drop-length-append front back,
  ),
  refl,
  refl,
)

pub read_short : (n : ℕ) (s : Source) → length s.rest < n → read n s ≡ throw short_read
unfolding read
read_short n s h = rw (lt→ltb (length s.rest) n h)

pub try_read_lem :
    (s : Source) (front back : List ℕ)
    → s.rest ≡ front ++ back
    → (s' : Source) × (try_read (length front) s ≡ ok (front, s'))
      × (s'.contents ≡ s.contents)
      × (s'.rest ≡ back)
unfolding try_read
try_read_lem s front back e = (
  record s { rest = back },
  rw (e, take-length-append front back, drop-length-append front back),
  refl,
  refl,
)

pub try_read_short :
    (n : ℕ) (s : Source)
    → length s.rest < n
    → (s' : Source) × (try_read n s ≡ ok (s.rest, s')) × (s'.contents ≡ s.contents)
unfolding try_read
try_read_short n s h =
    (record s { rest = drop n s.rest }, rw (take_all n s.rest (omega arith)), refl)

pub seek_put_lem :
    (off : ℕ) (o : Sink)
    → off ≤ length o.written
    → (o' : Sink) × (seek_put off o ≡ ok o') × (o'.written ≡ o.written) × (o'.tell ≡ off)
unfolding seek_put
seek_put_lem off o h = (record o { tell = off }, rw (le→ltb _ off h), refl, refl)

pub write_lem :
    (bytes : List ℕ) (o : Sink)
    → o.tell ≡ length o.written
    → (o' : Sink) × (write bytes o ≡ ok o')
      × (o'.written ≡ o.written ++ bytes)
      × (o'.tell ≡ length o'.written)
unfolding write
write_lem bytes o e = (
  record { written = o.written ++ bytes; tell = o.tell + length bytes },
  rw (
    take_all o.tell o.written (omega arith),
    drop_all (o.tell + length bytes) o.written (omega arith),
    append-nil bytes,
  ),
  refl,
  omega (arith, length-append o.written bytes),
)

pub read_u8_lem :
    (s : Source) (b : ℕ) (back : List ℕ)
    → s.rest ≡ b ∷ back
    → (s' : Source) × (read_u8_from s s.rest ≡ ok (b, s'))
      × (s'.contents ≡ s.contents)
      × (s'.rest ≡ back)
unfolding read_u8_from
read_u8_lem s b back e = (record s { rest = back }, rw e, refl, refl)

pub read_u16le_lem :
    (s : Source) (lo hi : ℕ) (back : List ℕ)
    → s.rest ≡ lo ∷ hi ∷ back
    → (s' : Source) × (read_u16le_from s s.rest ≡ ok (lo + 256 * hi, s'))
      × (s'.contents ≡ s.contents)
      × (s'.rest ≡ back)
unfolding read_u16le_from
read_u16le_lem s lo hi back e = (record s { rest = back }, rw e, refl, refl)

pub read_u32le_lem :
    (s : Source) (b0 b1 b2 b3 : ℕ) (back : List ℕ)
    → s.rest ≡ b0 ∷ b1 ∷ b2 ∷ b3 ∷ back
    → (s' : Source) × (read_u32le_from s s.rest
        ≡ ok (b0 + 256 * b1 + 65536 * b2 + 16777216 * b3, s'))
      × (s'.contents ≡ s.contents)
      × (s'.rest ≡ back)
unfolding read_u32le_from
read_u32le_lem s b0 b1 b2 b3 back e = (record s { rest = back }, rw e, refl, refl)

before_null-padded :
    (text : List ℕ) (n : ℕ) → All (λ b. 0 < b) text → before_null (text ++ replicate n 0) ≡ text
unfolding before_null
before_null-padded [] zero h = refl
before_null-padded [] (suc n) h = refl
before_null-padded (b ∷ bs) n (p, h) =
    let nonzero : (b == 0) ≡ false = ground arith in rw (nonzero, before_null-padded bs n h)

read_null_padded_front :
    (s : Source) (front back : List ℕ)
    → s.rest ≡ front ++ back
    → read_null_padded (length front) s ≡ ok (before_null front, record s { rest = back })
unfolding read_null_padded
read_null_padded_front s front back e = rw (
  e,
  le→ltb (length (front ++ back)) (length front) (omega (arith, length-append front back)),
  take-length-append front back,
  drop-length-append front back,
)

pub read_null_padded_lem :
    (s : Source) (text : List ℕ) (n : ℕ) (back : List ℕ)
    → All (λ b. 0 < b) text
    → length text ≤ n
    → s.rest ≡ (text ++ replicate (n - length text) 0) ++ back
    → (s' : Source) × (read_null_padded n s ≡ ok (text, s'))
      × (s'.contents ≡ s.contents)
      × (s'.rest ≡ back)
read_null_padded_lem s text n back h le e =
    let front = text ++ replicate (n - length text) 0 in
    let len : length front ≡ n =
      length-append text (replicate (n - length text) 0)
      ∙ rw (length-replicate (n - length text) zero) (omega arith) in
    (
      record s { rest = back },
      subst (λ k. read_null_padded k s ≡ ok (text, record s { rest = back })) len
          (read_null_padded_front s front back e
            ∙ ap (λ t. ok (t, record s { rest = back }))
                (before_null-padded text (n - length text) h)),
      refl,
      refl,
    )

pub tell_get_lem :
    (s : Source) (off : ℕ)
    → off ≤ length s.contents
    → s.rest ≡ drop off s.contents
    → length s.contents - length s.rest ≡ off
tell_get_lem s off h e = omega (arith, ap length e, length-drop off s.contents)

pub read_u16le_short :
    (s : Source) → length s.rest < 2 → read_u16le_from s s.rest ≡ throw short_read
unfolding read_u16le_from
read_u16le_short s h = short s.rest h
  where
    short : (bytes : List ℕ) → length bytes < 2 → read_u16le_from s bytes ≡ throw short_read
    short [] h = refl
    short (b ∷ []) h = refl
    short (b ∷ c ∷ bytes) h = absurd (omega arith)

pub read_u8_short : (s : Source) → s.rest ≡ [] → read_u8_from s s.rest ≡ throw short_read
unfolding read_u8_from
read_u8_short s e = rw e

-- The interface over memory.
abbrev pub memory : Streams
memory = record {
  Input = Source;
  contents = λ s. s.contents;
  rest = λ s. s.rest;
  Output = Sink;
  written = λ o. o.written;
  tell = λ o. o.tell;
  size = λ s. length s.contents;
  seek_get = seek_get;
  skip = skip;
  read = read;
  try_read = try_read;
  read_u8 = λ s. read_u8_from s s.rest;
  read_u16le = λ s. read_u16le_from s s.rest;
  read_u32le = λ s. read_u32le_from s s.rest;
  read_null_padded = read_null_padded;
  tell_get = λ s. length s.contents - length s.rest;
  seek_put = seek_put;
  write = write;
  write_u8 = λ v o. write (v % 256 ∷ []) o;
  write_u16le = λ v o. write (v % 256 ∷ v / 256 % 256 ∷ []) o;
  write_u32le =
      λ v o. write (v % 256 ∷ v / 256 % 256 ∷ v / 65536 % 256 ∷ v / 16777216 % 256 ∷ []) o;
  write_null_padded = λ text n o. write (text ++ replicate (n - length text) 0) o;
  truncate = λ n o. ok (record o { written = take n o.written });
  flush = λ o. ok o;
  size_lem = λ s. refl;
  seek_get_lem = seek_get_lem;
  skip_lem = skip_lem;
  read_lem = read_lem;
  read_short = read_short;
  try_read_lem = try_read_lem;
  try_read_short = try_read_short;
  read_u8_lem = read_u8_lem;
  read_u16le_lem = read_u16le_lem;
  read_u32le_lem = read_u32le_lem;
  read_null_padded_lem = read_null_padded_lem;
  tell_get_lem = tell_get_lem;
  read_u16le_short = read_u16le_short;
  read_u8_short = read_u8_short;
  seek_put_lem = seek_put_lem;
  write_lem = write_lem;
  write_u8_lem = λ v o e. write_lem (v % 256 ∷ []) o e;
  write_u16le_lem = λ v o e. write_lem (v % 256 ∷ v / 256 % 256 ∷ []) o e;
  write_u32le_lem =
      λ v o e. write_lem (v % 256 ∷ v / 256 % 256 ∷ v / 65536 % 256 ∷ v / 16777216 % 256 ∷ []) o e;
  write_null_padded_lem = λ text n o e fits. write_lem (text ++ replicate (n - length text) 0) o e;
  truncate_lem = λ n o h. (record o { written = take n o.written }, refl, refl);
  flush_lem = λ o. (o, refl, refl, refl);
}

-- A file of these bytes, and an empty output.
abbrev pub file : List ℕ → Source
file bytes = record { contents = bytes; rest = bytes }

abbrev pub empty : Sink
empty = record { written = []; tell = 0 }
