-- ===== src/Result.antt =====
-- How a call of the library ends: with a value, with a thrown stream::error, at a failed
-- assertion, or in undefined behaviour (an access outside an array).
use libgamemaps.Prelude.{◌≡◌, refl, Bool, true, false, Option, none, some}
use mathlib.Core.Option

-- One constructor for each message of a `throw stream::error(...)`; `short_read` is what the
-- stream library throws where a read runs past the end, and `string_too_long` is the
-- std::length_error of a string of a negative number of characters.
pub data Error : Type 0 where
  background_cut objects_cut text_missing text_cut text_cut_unexpectedly text_too_long : Error
  short_read not_implemented wrong_map_type wrong_layer_count wrong_layer_size : Error
  wrong_path_count tile_outside_map path_too_long path_magic_end no_start_point : Error
  missing_supp too_many_tiles : Error
  wrong_attribute_count wrong_attribute_type map_truncated too_many_players : Error
  string_too_long music_out_of_range wrong_map_size too_many_unique wrong_map_dimensions : Error

pub data Result {ℓ} (A : Type ℓ) : Type ℓ where
  undefined : Result A
  assertion_failed : Result A
  throw : Error → Result A
  ok : A → Result A

-- A call and, where it ends with a value, what comes after it.
infixl 5 ◌>>=◌
abbrev pub ◌>>=◌ {ℓ κ} : {A : Type ℓ} {B : Type κ} → Result A → (A → Result B) → Result B
undefined >>= next = undefined
assertion_failed >>= next = assertion_failed
throw e >>= next = throw e
ok x >>= next = next x

infixl 5 ◌>>◌
abbrev pub ◌>>◌ {ℓ} : {B : Type ℓ} → Result (Unit {0}) → Result B → Result B
call >> next = call >>= λ done. next

-- `if (!b) throw stream::error(...)`
abbrev pub check : Bool → Error → Result (Unit {0})
check true e = ok tt
check false e = throw e

-- `assert(b)`
abbrev pub assert : Bool → Result (Unit {0})
assert true = ok tt
assert false = assertion_failed

pub >>=_assoc {ℓ} :
    {A B C : Type ℓ} (call : Result A) (next : A → Result B) (last : B → Result C)
    → ((call >>= next) >>= last) ≡ (call >>= λ x. next x >>= last)
>>=_assoc undefined next last = refl
>>=_assoc assertion_failed next last = refl
>>=_assoc (throw e) next last = refl
>>=_assoc (ok x) next last = refl

-- A chain that ends with a value, taken apart.
pub >>=-eq-ok {ℓ κ} :
    {A : Type ℓ} {B : Type κ} (call : Result A) (next : A → Result B) {b : B}
    → (call >>= next) ≡ ok b
    → (a : A) × (call ≡ ok a) × (next a ≡ ok b)
>>=-eq-ok undefined next h = cc
>>=-eq-ok assertion_failed next h = cc
>>=-eq-ok (throw e) next h = cc
>>=-eq-ok (ok a) next h = (a, refl, h)

-- The answer of a loop with fuel that the fuel ran out.
abbrev pub ran_out {ℓ} : {A : Type ℓ} → Result (Option A) → Bool
ran_out (ok none) = true
ran_out _ = false

pub ran_out->>= {ℓ κ} :
    {A : Type ℓ} {B : Type κ} (call : Result A) (next : A → Result (Option B))
    → ((a : A) → call ≡ ok a → ran_out (next a) ≡ false)
    → ran_out (call >>= next) ≡ false
ran_out->>= undefined next h = refl
ran_out->>= assertion_failed next h = refl
ran_out->>= (throw e) next h = refl
ran_out->>= (ok a) next h = h a refl

-- What comes after the later rounds does not run out where they do not.
pub ran_out-later {ℓ κ} :
    {A : Type ℓ} {B : Type κ} (f : A → B) (later : Option A) (answer : Result (Option A))
    → answer ≡ ok later
    → ran_out answer ≡ false
    → ran_out (ok (Option.map f later)) ≡ false
ran_out-later f none answer e h = absurd (cc)
ran_out-later f (some a) answer e h = refl
