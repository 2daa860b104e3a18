-- ===== src/Format/Cosmo/Storing.antt =====
-- Actors are read as items and written as the same words.
use libgamemaps.Prelude.{
  ℕ, suc, ◌*◌, ◌^◌, ◌≤◌, ◌<◌, ◌≡◌, refl, sym, ap, List, [], ◌∷◌, ◌++◌, map, All, length, append-nil,
  append_assoc, inl, inr, arith, lt→ltb, ◌==◌, ==_iff, Bool-cases,
}
use libgamemaps.Result.{ok}
use libgamemaps.Stream.{Streams}
use libgamemaps.Stream.Bytes.{words_bytes}
use libgamemaps.Stream.Write.{Holds, Holds-write_u16le}
use libgamemaps.Map2D.{Item}
use libgamemaps.Grid.Words.{read_word}
use libgamemaps.Format.Cosmo.Actors.{actor_item, final_code, read_actors, write_actors}

-- The three words of an actor.
pub record Actor : Type 0 where
  pub code : ℕ
  pub x : ℕ
  pub y : ℕ

abbrev pub actor_items : List Actor → List Item
actor_items = map (λ (a : Actor). actor_item a.code a.x a.y)

abbrev pub actor_words : List Actor → List ℕ
actor_words [] = []
actor_words (a ∷ actors) = a.code ∷ a.x ∷ a.y ∷ actor_words actors

-- Every actor is made of 16-bit words, and stands in a map of this size.
abbrev pub AllActors : ℕ → ℕ → List Actor → Type 0
AllActors w h = All (λ (a : Actor). (a.code < 2 ^ 16) × (a.x < w) × (a.y < h))

pub length-actor_words : (actors : List Actor) → length (actor_words actors) ≡ length actors * 3
length-actor_words [] = refl
length-actor_words (a ∷ actors) = omega (arith, length-actor_words actors)

pub length-actor_items : (actors : List Actor) → length (actor_items actors) ≡ length actors
length-actor_items [] = refl
length-actor_items (a ∷ actors) = ap suc (length-actor_items actors)

final_code-actor_item :
    (code x y : ℕ)
    → (final_code (actor_item code x y) ≡ code)
      × ((actor_item code x y).x ≡ x)
      × ((actor_item code x y).y ≡ y)
unfolding final_code actor_item
final_code-actor_item code x y = elim (Bool-cases (code == 295)) [
  | inl star ↦ let same : code ≡ 295 = (==_iff code 295).0 star in rw star (sym same, refl, refl)
  | inr other ↦ rw other (refl, refl, refl)
]

module _ (lib : Streams) where
  open lib use {Input, Output, rest, read_u16le, write_u16le}

  pub read_actors-actor_items :
      (w h : ℕ) (actors : List Actor) (back : List ℕ) (s : Input)
      → w ≤ 2 ^ 16
      → h ≤ 2 ^ 16
      → AllActors w h actors
      → rest s ≡ words_bytes (actor_words actors) ++ back
      → (s' : Input) × (read_actors lib (length actors) s ≡ ok (actor_items actors, s'))
        × (rest s' ≡ back)
  unfolding read_actors words_bytes
  read_actors-actor_items w h [] back s pw ph inside e = (s, refl, e)
  read_actors-actor_items w h (a ∷ actors) back s pw ph ((pc, px, py), inside) e =
      let (s1, reads1, left1) = read_word lib s a.code _ pc e in
      let (s2, reads2, left2) = read_word lib s1 a.x _ (omega arith) left1 in
      let (s3, reads3, left3) = read_word lib s2 a.y _ (omega arith) left2 in
      let (s4, reads4, left4) = read_actors-actor_items w h actors back s3 pw ph inside left3 in
      (s4, rw (reads1, reads2, reads3, reads4), left4)

  pub Holds-write_actors :
      (w h : ℕ) (actors : List Actor) (bytes : List ℕ) (o : Output)
      → AllActors w h actors
      → Holds lib bytes o
      → (o' : Output) × (write_actors lib w h (actor_items actors) o ≡ ok o')
        × Holds lib (bytes ++ words_bytes (actor_words actors)) o'
  unfolding write_actors words_bytes
  Holds-write_actors w h [] bytes o inside held = (o, refl, rw (append-nil bytes) held)
  Holds-write_actors w h (a ∷ actors) bytes o ((pc, px, py), inside) held =
      let (same_code, same_x, same_y) = final_code-actor_item a.code a.x a.y in
      let (o1, writes1, held1) = Holds-write_u16le lib a.code held in
      let (o2, writes2, held2) = Holds-write_u16le lib a.x held1 in
      let (o3, writes3, held3) = Holds-write_u16le lib a.y held2 in
      let (o4, writes4, held4) = Holds-write_actors w h actors _ o3 inside held3 in
      (
        o4,
        rw (same_code, same_x, same_y, lt→ltb a.x w px, lt→ltb a.y h py, writes1, writes2, writes3)
            writes4,
        simp append_assoc at held4,
      )
