-- ===== src/Format/Nukem2/Packing.antt =====
-- Four cells of extra bits and the byte that they go into.
use libgamemaps.Prelude.{
  ℕ, zero, suc, ◌+◌, ◌*◌, ◌/◌, ◌%◌, ◌^◌, ◌≤◌, ◌<◌, ◌≡◌, refl, ap, bit_or-shifted, List, [], ◌∷◌,
  All, length, take, arith,
}
use libgamemaps.Stream.Bytes.{AllBytes}
use libgamemaps.Format.Nukem2.Extra.{extra_values, extra_byte, raw_extra}
use libgamemaps.Format.Nukem2.Rle.Reading.{unpacked}

-- A number with the bits 5 and 6 only.
abbrev pub IsExtra : ℕ → Type 0
IsExtra e = (e % 32 ≡ 0) × (e < 128)

pub extra_byte_lem :
    (e0 e1 e2 e3 : ℕ)
    → IsExtra e0
    → IsExtra e1
    → IsExtra e2
    → IsExtra e3
    → extra_byte e0 e1 e2 e3 ≡ e0 / 32 + e1 / 32 * 4 + e2 / 32 * 16 + e3 / 32 * 64
unfolding extra_byte
extra_byte_lem e0 e1 e2 e3 (p0, q0) (p1, q1) (p2, q2) (p3, q3) =
    let s1 : e1 / 2 ^ 3 ≡ e1 / 32 * 2 ^ 2 = omega arith in
    let s2 : e2 / 2 ≡ e2 / 32 * 2 ^ 4 = omega arith in
    let s3 : e3 * 2 ≡ e3 / 32 * 2 ^ 6 = omega arith in
    let a0 = e0 / 32 in
    let a1 = a0 + e1 / 32 * 2 ^ 2 in
    let a2 = a1 + e2 / 32 * 2 ^ 4 in
    rw (
      s1,
      s2,
      s3,
      bit_or-shifted 2 a0 (e1 / 32) (omega arith),
      bit_or-shifted 4 a1 (e2 / 32) (omega arith),
      bit_or-shifted 6 a2 (e3 / 32) (omega arith),
    )

-- The byte holds the four cells.
extra_values-extra_byte :
    (e0 e1 e2 e3 : ℕ)
    → IsExtra e0
    → IsExtra e1
    → IsExtra e2
    → IsExtra e3
    → extra_values (extra_byte e0 e1 e2 e3) ≡ e0 ∷ e1 ∷ e2 ∷ e3 ∷ []
unfolding extra_values
extra_values-extra_byte e0 e1 e2 e3 h0 h1 h2 h3 =
    let b = e0 / 32 + e1 / 32 * 4 + e2 / 32 * 16 + e3 / 32 * 64 in
    let c0 : b % 4 * 32 ≡ e0 = omega arith in
    let c1 : b / 4 % 4 * 32 ≡ e1 = omega arith in
    let c2 : b / 16 % 4 * 32 ≡ e2 = omega arith in
    let c3 : b / 64 % 4 * 32 ≡ e3 = omega arith in
    rw (extra_byte_lem e0 e1 e2 e3 h0 h1 h2 h3, c0, c1, c2, c3)

-- The bytes of `n` groups are bytes, and hold the first `4 * n` cells.
pub raw_extra_lem :
    (n : ℕ) (extra : List ℕ)
    → n * 4 ≤ length extra
    → All IsExtra extra
    → AllBytes (raw_extra n extra)
      × (length (raw_extra n extra) ≡ n)
      × (unpacked (raw_extra n extra) ≡ take (n * 4) extra)
unfolding raw_extra unpacked
raw_extra_lem zero extra le h = (tt, refl, refl)
raw_extra_lem (suc n) [] le h = absurd (omega arith)
raw_extra_lem (suc n) (e0 ∷ []) le h = absurd (omega arith)
raw_extra_lem (suc n) (e0 ∷ e1 ∷ []) le h = absurd (omega arith)
raw_extra_lem (suc n) (e0 ∷ e1 ∷ e2 ∷ []) le h = absurd (omega arith)
raw_extra_lem (suc n) (e0 ∷ e1 ∷ e2 ∷ e3 ∷ extra) le (h0, (h1, (h2, (h3, h)))) =
    let (small, len, cells) = raw_extra_lem n extra (omega arith) h in
    (
      (omega (arith, extra_byte_lem e0 e1 e2 e3 h0 h1 h2 h3), small),
      omega (arith, len),
      rw (extra_values-extra_byte e0 e1 e2 e3 h0 h1 h2 h3, cells)
          (ap (λ (k : ℕ). take k (e0 ∷ e1 ∷ e2 ∷ e3 ∷ extra)) {x = suc (suc (suc (suc (n * 4))))}
            {y = suc n * 4} (omega arith)),
    )
