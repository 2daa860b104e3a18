-- ===== src/Manager.antt =====
-- src/main.cpp: the manager, which holds the registered formats and finds one by index or by code.
pub mod Lookup
mod Tests
use libgamemaps.Prelude.{
  ℕ, zero, suc, Bool, true, false, Option, none, some, List, [], ◌∷◌, length, leb, if◌then◌else◌,
}
use Prim.Native.String.{String}
use text.Mathlib.Text.{◌==◌}
use libgamemaps.Format.{MapTypeInfo}
use libgamemaps.Format.Bash
use libgamemaps.Format.CCaves
use libgamemaps.Format.CComic
use libgamemaps.Format.Cosmo
use libgamemaps.Format.DDave
use libgamemaps.Format.DarkAges
use libgamemaps.Format.Duke1
use libgamemaps.Format.Got
use libgamemaps.Format.Harry
use libgamemaps.Format.Hocus
use libgamemaps.Format.Jill
use libgamemaps.Format.Nukem2
use libgamemaps.Format.Rockford
use libgamemaps.Format.SAgent
use libgamemaps.Format.Vinyl
use libgamemaps.Format.Wacky
use libgamemaps.Format.WordRescue
use libgamemaps.Format.Xargon
use libgamemaps.Format.Zone66

-- The classes whose objects the constructor of ActualManager creates.
pub data MapType : Type 0 where
  bash : MapType
  ccaves : MapType
  ccomic : MapType
  cosmo : MapType
  darkages : MapType
  ddave : MapType
  duke1 : MapType
  got : MapType
  harry : MapType
  hocus : MapType
  nukem2 : MapType
  jill : MapType
  rockford : MapType
  sagent : MapType
  sagent_world : MapType
  vinyl : MapType
  wacky : MapType
  wordresc : MapType
  xargon : MapType
  zone66 : MapType

-- The virtual methods that describe a format, by class.
unfoldable pub type_info : MapType → MapTypeInfo
type_info bash = Bash.info
type_info ccaves = CCaves.info
type_info ccomic = CComic.info
type_info cosmo = Cosmo.info
type_info darkages = DarkAges.info
type_info ddave = DDave.info
type_info duke1 = Duke1.info
type_info got = Got.info
type_info harry = Harry.info
type_info hocus = Hocus.info
type_info nukem2 = Nukem2.info
type_info jill = Jill.info
type_info rockford = Rockford.info
type_info sagent = SAgent.info false
type_info sagent_world = SAgent.info true
type_info vinyl = Vinyl.info
type_info wacky = Wacky.info
type_info wordresc = WordRescue.info
type_info xargon = Xargon.info
type_info zone66 = Zone66.info

-- `(*i)->getMapCode()`
unfoldable pub get_map_code : MapType → String
get_map_code type = (type_info type).map_code

-- ActualManager::vcTypes as the constructor fills it
abbrev pub vc_types : List MapType
vc_types =
    bash ∷ ccaves ∷ ccomic ∷ cosmo ∷ darkages ∷ ddave ∷ duke1 ∷ got ∷ harry ∷ hocus ∷ nukem2 ∷ jill
    ∷ rockford ∷ sagent ∷ sagent_world ∷ vinyl ∷ wacky ∷ wordresc ∷ xargon ∷ zone66 ∷ []

-- `vcTypes[iIndex]`
unfoldable pub element : List MapType → ℕ → Option MapType
element [] i = none
element (type ∷ types) zero = some type
element (type ∷ types) (suc i) = element types i

unfoldable pub get_map_type : ℕ → Option MapType
get_map_type i = if leb (length vc_types) i then none else element vc_types i

-- The loop of getMapTypeByCode() over the types from one on
unfoldable pub find_code : String → List MapType → Option MapType
find_code code [] = none
find_code code (type ∷ types) =
    if get_map_code type == code then some type else find_code code types

unfoldable pub get_map_type_by_code : String → Option MapType
get_map_type_by_code code = find_code code vc_types
