-- ===== src/Manager/Lookup.antt =====
-- The search for a format by its code, in src/main.cpp.
use libgamemaps.Prelude.{
  arith, Bool-cases, inl, inr, subst, ◌≡◌, refl, sym, ◌∙◌, ap, some, List, [], ◌∷◌, ◌↔◌,
  if◌then◌else◌,
}
use Prim.Native.String.{String}
use text.Mathlib.Text.{◌==◌}
use text.Mathlib.TextEquality.{eq_iff}
use mathlib.Core.Option.{some-injective}
use libgamemaps.Manager.{
  MapType, bash, ccaves, ccomic, cosmo, darkages, ddave, duke1, got, harry, hocus, nukem2, jill,
  rockford, sagent, sagent_world, vinyl, wacky, wordresc, xargon, zone66, type_info, get_map_code,
  vc_types, find_code, get_map_type_by_code,
}

find_code-get_map_code :
    (code : String) (types : List MapType) (type : MapType)
    → find_code code types ≡ some type
    → get_map_code type ≡ code
unfolding find_code
find_code-get_map_code code [] type e = ground arith
find_code-get_map_code code (t ∷ types) type e = elim (Bool-cases (get_map_code t == code)) [
  | inl hit ↦
      let (found, _) = eq_iff (get_map_code t) code in
      subst (λ t'. get_map_code t' ≡ code)
        (some-injective t type (sym (ap (λ b. if b then some t else find_code code types) hit) ∙ e))
        (found hit)
  | inr miss ↦
      find_code-get_map_code code types type
        (sym (ap (λ b. if b then some t else find_code code types) miss) ∙ e)
]

get_map_type_by_code-get_map_code :
    (type : MapType) → get_map_type_by_code (get_map_code type) ≡ some type
unfolding get_map_type_by_code find_code get_map_code type_info
get_map_type_by_code-get_map_code bash = refl
get_map_type_by_code-get_map_code ccaves = refl
get_map_type_by_code-get_map_code ccomic = refl
get_map_type_by_code-get_map_code cosmo = refl
get_map_type_by_code-get_map_code darkages = refl
get_map_type_by_code-get_map_code ddave = refl
get_map_type_by_code-get_map_code duke1 = refl
get_map_type_by_code-get_map_code got = refl
get_map_type_by_code-get_map_code harry = refl
get_map_type_by_code-get_map_code hocus = refl
get_map_type_by_code-get_map_code nukem2 = refl
get_map_type_by_code-get_map_code jill = refl
get_map_type_by_code-get_map_code rockford = refl
get_map_type_by_code-get_map_code sagent = refl
get_map_type_by_code-get_map_code sagent_world = refl
get_map_type_by_code-get_map_code vinyl = refl
get_map_type_by_code-get_map_code wacky = refl
get_map_type_by_code-get_map_code wordresc = refl
get_map_type_by_code-get_map_code xargon = refl
get_map_type_by_code-get_map_code zone66 = refl

-- The manager finds a format under a code exactly when that is the format's code: each of the
-- registered formats is found under its own code, and whatever a search returns has the code
-- that was asked for.
pub get_map_type_by_code_iff :
    (code : String) (type : MapType)
    → (get_map_type_by_code code ≡ some type) ↔ (get_map_code type ≡ code)
unfolding get_map_type_by_code
get_map_type_by_code_iff code type = (
  find_code-get_map_code code vc_types type,
  λ e. subst (λ c. get_map_type_by_code c ≡ some type) e (get_map_type_by_code-get_map_code type),
)
