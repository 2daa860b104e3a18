-- ===== src/Format/Cosmo/Flags.antt =====
-- The flags of a Cosmo level and its attributes stand for one another.
use libgamemaps.Prelude.{
  ℕ, ◌+◌, ◌*◌, ◌/◌, ◌%◌, ◌^◌, ◌<◌, ◌≡◌, refl, ◌∙◌, ap, [], ◌∷◌, map, bit_or-shifted, arith,
}
use native.Mathlib.Nat.{mod-eq_of_lt}
use libgamemaps.Result.{ok}
use libgamemaps.Map2D.{enum, Attribute}
use libgamemaps.Format.Cosmo.Attributes.{flag_attributes, check_enum, or_flags, attribute_flags}

-- An attribute of type Enum with a value below a bound.
pub record IsEnumBelow (bound : ℕ) (attr : Attribute) : Type 0 where
  pub is_enum : attr.type ≡ enum
  pub value_below : attr.enum_value < bound

-- The number with these fields, from the lowest bits on.
abbrev pub packed : ℕ → ℕ → ℕ → ℕ → ℕ → ℕ → ℕ
packed backdrop rain scroll_x scroll_y pal_anim music =
    backdrop + rain * 32 + scroll_x * 64 + scroll_y * 128 + pal_anim * 256 + music * 2048

or_flags_step :
    (k flags : ℕ) (attr : Attribute)
    → flags < 2 ^ k
    → flags + attr.enum_value * 2 ^ k < 2 ^ 16
    → or_flags flags k attr ≡ flags + attr.enum_value * 2 ^ k
unfolding or_flags
or_flags_step k flags attr low small =
    let word : attr.enum_value * 2 ^ k % 2 ^ 32 ≡ attr.enum_value * 2 ^ k =
      mod-eq_of_lt (omega arith) in
    rw (word, bit_or-shifted k flags attr.enum_value low) (mod-eq_of_lt small)

check_enum-enum : (attr : Attribute) → attr.type ≡ enum → check_enum attr ≡ ok tt
unfolding check_enum
check_enum-enum attr e = rw e

-- Six attributes whose values fit their fields are packed without loss.
attribute_flags-packed :
    (a b c d e f : Attribute)
    → IsEnumBelow 32 a
    → IsEnumBelow 2 b
    → IsEnumBelow 2 c
    → IsEnumBelow 2 d
    → IsEnumBelow 8 e
    → IsEnumBelow 32 f
    → attribute_flags (a ∷ b ∷ c ∷ d ∷ e ∷ f ∷ [])
      ≡ ok (packed a.enum_value b.enum_value c.enum_value d.enum_value e.enum_value f.enum_value)
unfolding attribute_flags
attribute_flags-packed a b c d e f ha hb hc hd he hf =
    let pa = ha.value_below in
    let pb = hb.value_below in
    let pc = hc.value_below in
    let pd = hd.value_below in
    let pe = he.value_below in
    let pf = hf.value_below in
    let ta = check_enum-enum a ha.is_enum in
    let tb = check_enum-enum b hb.is_enum in
    let tc = check_enum-enum c hc.is_enum in
    let td = check_enum-enum d hd.is_enum in
    let te = check_enum-enum e he.is_enum in
    let tf = check_enum-enum f hf.is_enum in
    let va = a.enum_value in
    let vb = va + b.enum_value * 32 in
    let vc = vb + c.enum_value * 64 in
    let vd = vc + d.enum_value * 128 in
    let ve = vd + e.enum_value * 256 in
    let sa : or_flags 0 0 a ≡ va = or_flags_step 0 0 a (omega arith) (omega arith) ∙ omega arith in
    let sb : or_flags va 5 b ≡ vb = or_flags_step 5 va b (omega arith) (omega arith) in
    let sc : or_flags vb 6 c ≡ vc = or_flags_step 6 vb c (omega arith) (omega arith) in
    let sd : or_flags vc 7 d ≡ vd = or_flags_step 7 vc d (omega arith) (omega arith) in
    let se : or_flags vd 8 e ≡ ve = or_flags_step 8 vd e (omega arith) (omega arith) in
    let sf = or_flags_step 11 ve f (omega arith) (omega arith) in
    rw (ta, tb, tc, td, te, tf, sa, sb, sc, sd, se, sf)

-- Each field of a packed number is found in its bits.
fields-packed :
    (a b c d e f : ℕ)
    → a < 32
    → b < 2
    → c < 2
    → d < 2
    → e < 8
    → f < 32
    → (packed a b c d e f < 2 ^ 16)
      × (map (λ (attr : Attribute). attr.enum_value) (flag_attributes (packed a b c d e f))
          ≡ a ∷ b ∷ c ∷ d ∷ e ∷ f ∷ [])
unfolding flag_attributes
fields-packed a b c d e f ha hb hc hd he hf =
    let n = packed a b c d e f in
    let ea : n % 32 ≡ a = omega arith in
    let eb : n / 2 ^ 5 % 2 ≡ b = omega arith in
    let ec : n / 2 ^ 6 % 2 ≡ c = omega arith in
    let ed : n / 2 ^ 7 % 2 ≡ d = omega arith in
    let ee : n / 2 ^ 8 % 8 ≡ e = omega arith in
    let ef : n / 2 ^ 11 ≡ f = omega arith in (omega arith, rw (ea, eb, ec, ed, ee, ef))

-- Every word of flags is what its attributes pack to. And six attributes of type Enum whose
-- values are below 32, 2, 2, 2, 8 and 32 pack to a word of flags whose attributes have the same
-- values.
pub attribute_flags-flag_attributes :
    ((flags : ℕ) → flags < 2 ^ 16 → attribute_flags (flag_attributes flags) ≡ ok flags)
    × ((a b c d e f : Attribute)
        → IsEnumBelow 32 a
        → IsEnumBelow 2 b
        → IsEnumBelow 2 c
        → IsEnumBelow 2 d
        → IsEnumBelow 8 e
        → IsEnumBelow 32 f
        → (flags : ℕ) × (attribute_flags (a ∷ b ∷ c ∷ d ∷ e ∷ f ∷ []) ≡ ok flags)
          × (flags < 2 ^ 16)
          × (map (λ (attr : Attribute). attr.enum_value) (flag_attributes flags)
              ≡ map (λ (attr : Attribute). attr.enum_value) (a ∷ b ∷ c ∷ d ∷ e ∷ f ∷ [])))
unfolding flag_attributes
attribute_flags-flag_attributes = (
  λ flags small.
      attribute_flags-packed _ _ _ _ _ _ (record { is_enum = refl; value_below = omega arith })
        (record { is_enum = refl; value_below = omega arith })
        (record { is_enum = refl; value_below = omega arith })
        (record { is_enum = refl; value_below = omega arith })
        (record { is_enum = refl; value_below = omega arith })
        (record { is_enum = refl; value_below = omega arith })
      ∙ ap ok (omega arith),
  λ a b c d e f ha hb hc hd he hf.
      let (small, fields) =
        fields-packed a.enum_value b.enum_value c.enum_value d.enum_value e.enum_value f.enum_value
          ha.value_below hb.value_below hc.value_below hd.value_below he.value_below
          hf.value_below in
      (_, attribute_flags-packed a b c d e f ha hb hc hd he hf, small, fields),
)
