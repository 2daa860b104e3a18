-- ===== src/Format/Nukem2/Rle/Tokens.antt =====
-- The encoding of the extra bits as a list of tokens.
use libgamemaps.Prelude.{
  ℕ, ◌-◌, ◌≤◌, ◌<◌, ◌≡◌, refl, ap, ◌∙◌, sym, List, [], ◌∷◌, ◌++◌, append_assoc, All, All-append,
  length, replicate, arith,
}
use libgamemaps.Stream.Bytes.{AllBytes, IsByte}

-- A byte that is repeated, or several bytes.
pub data Token : Type 0 where
  same : ℕ → ℕ → Token
  different : List ℕ → Token

abbrev pub token_bytes : Token → List ℕ
token_bytes (same n byte) = n ∷ byte ∷ []
token_bytes (different bytes) = (256 - length bytes) ∷ bytes

abbrev pub token_raw : Token → List ℕ
token_raw (same n byte) = replicate n byte
token_raw (different bytes) = bytes

abbrev pub IsToken : Token → Type 0
IsToken (same n byte) = (0 < n) × (n < 128) × (byte < 256)
IsToken (different bytes) = (0 < length bytes) × (length bytes ≤ 128) × AllBytes bytes

unfoldable pub tokens_bytes : List Token → List ℕ
tokens_bytes [] = []
tokens_bytes (t ∷ ts) = token_bytes t ++ tokens_bytes ts

unfoldable pub tokens_raw : List Token → List ℕ
tokens_raw [] = []
tokens_raw (t ∷ ts) = token_raw t ++ tokens_raw ts

-- These bytes are the tokens of these raw bytes.
pub record Encodes (bytes raw : List ℕ) : Type 0 where
  pub tokens : List Token
  pub are_tokens : All IsToken tokens
  pub bytes_lem : bytes ≡ tokens_bytes tokens
  pub raw_lem : raw ≡ tokens_raw tokens

pub Encodes-nil : Encodes [] []
unfolding tokens_bytes tokens_raw
Encodes-nil = record { tokens = []; are_tokens = tt; bytes_lem = refl; raw_lem = refl }

-- A token in front.
pub Encodes-token :
    (t : Token) {bytes raw : List ℕ}
    → IsToken t
    → Encodes bytes raw
    → Encodes (token_bytes t ++ bytes) (token_raw t ++ raw)
unfolding tokens_bytes tokens_raw
Encodes-token t is e = record {
  tokens = t ∷ e.tokens;
  are_tokens = (is, e.are_tokens);
  bytes_lem = ap (λ l. token_bytes t ++ l) e.bytes_lem;
  raw_lem = ap (λ l. token_raw t ++ l) e.raw_lem;
}

tokens_bytes-append :
    (ts us : List Token) → tokens_bytes (ts ++ us) ≡ tokens_bytes ts ++ tokens_bytes us
unfolding tokens_bytes
tokens_bytes-append [] us = refl
tokens_bytes-append (t ∷ ts) us =
    ap (λ l. token_bytes t ++ l) (tokens_bytes-append ts us)
    ∙ sym (append_assoc (token_bytes t) (tokens_bytes ts) (tokens_bytes us))

tokens_raw-append : (ts us : List Token) → tokens_raw (ts ++ us) ≡ tokens_raw ts ++ tokens_raw us
unfolding tokens_raw
tokens_raw-append [] us = refl
tokens_raw-append (t ∷ ts) us =
    ap (λ l. token_raw t ++ l) (tokens_raw-append ts us)
    ∙ sym (append_assoc (token_raw t) (tokens_raw ts) (tokens_raw us))

pub Encodes-append :
    {bytes raw more rest : List ℕ}
    → Encodes bytes raw
    → Encodes more rest
    → Encodes (bytes ++ more) (raw ++ rest)
Encodes-append e f = record {
  tokens = e.tokens ++ f.tokens;
  are_tokens = All-append IsToken e.tokens f.tokens e.are_tokens f.are_tokens;
  bytes_lem = rw (e.bytes_lem, f.bytes_lem) (sym (tokens_bytes-append e.tokens f.tokens));
  raw_lem = rw (e.raw_lem, f.raw_lem) (sym (tokens_raw-append e.tokens f.tokens));
}

token_bytes-AllBytes : (t : Token) → IsToken t → AllBytes (token_bytes t)
token_bytes-AllBytes (same n byte) (p, q, r) = omega arith
token_bytes-AllBytes (different bytes) (p, q, h) = (omega arith, h)

pub tokens_bytes-AllBytes : (ts : List Token) → All IsToken ts → AllBytes (tokens_bytes ts)
unfolding tokens_bytes
tokens_bytes-AllBytes [] h = tt
tokens_bytes-AllBytes (t ∷ ts) (p, h) =
    All-append IsByte (token_bytes t) (tokens_bytes ts) (token_bytes-AllBytes t p)
      (tokens_bytes-AllBytes ts h)
