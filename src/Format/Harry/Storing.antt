-- ===== src/Format/Harry/Storing.antt =====
-- The actors of a Halloween Harry level are read, and written, one by one.
use libgamemaps.Prelude.{
  ℕ, suc, ◌+◌, ◌%◌, ◌/◌, ◌^◌, ◌<◌, ◌≡◌, refl, ap, ◌∙◌, true, List, [], ◌∷◌, ◌++◌, map, All, length,
  replicate, append-nil, append_assoc, arith, lt→ltb,
}
use libgamemaps.Result.{ok}
use libgamemaps.Stream.{Streams}
use libgamemaps.Stream.Read.{skip_exactly}
use libgamemaps.Stream.Write.{Holds, Holds-write, Holds-write_u8, Holds-write_u16le}
use native.Mathlib.Nat.{mod-eq_of_lt}
use libgamemaps.Map2D.{Item, default_item}
use libgamemaps.Grid.Words.{read_word}
use libgamemaps.Format.Harry.Actors.{
  player_item, Search, see_item, find_player, search_start, read_actors, write_actor, write_actors,
}

-- An actor of a file: a code, a place in pixels, and 123 bytes more.
pub record Actor : Type 0 where
  pub code : ℕ
  pub x : ℕ
  pub y : ℕ
  pub others : List ℕ

-- The item that an actor opens into: its place is cut to tiles.
abbrev pub actor_items : List Actor → List Item
actor_items = map (λ (a : Actor). default_item (a.x / 16) (a.y / 16) a.code)

-- The 128 bytes of an actor.
unfoldable pub actor_data : Actor → List ℕ
actor_data a = a.code ∷ a.x % 256 ∷ a.x / 256 % 256 ∷ a.y % 256 ∷ a.y / 256 % 256 ∷ a.others

unfoldable pub actor_bytes : List Actor → List ℕ
actor_bytes [] = []
actor_bytes (a ∷ actors) = actor_data a ++ actor_bytes actors

-- Codes are bytes, places are 16-bit numbers, and their tiles lie in the map.
abbrev pub AllActors : ℕ → ℕ → List Actor → Type 0
AllActors w h = All (λ (a : Actor).
    (a.code < 256)
    × (a.x < 2 ^ 16)
    × (a.y < 2 ^ 16)
    × (a.x / 16 < w)
    × (a.y / 16 < h)
    × (length a.others ≡ 123))

-- What `write` makes of an actor that was opened: the place in tiles, and zeros.
abbrev pub written_actor : Actor → Actor
written_actor a = record { code = a.code; x = a.x / 16; y = a.y / 16; others = replicate 123 0 }

length-actor_items : (actors : List Actor) → length (actor_items actors) ≡ length actors
length-actor_items [] = refl
length-actor_items (a ∷ actors) = ap suc (length-actor_items actors)

find_player-actor_items :
    (actors : List Actor) (s : Search) → find_player (actor_items actors) s ≡ ok s
unfolding find_player see_item
find_player-actor_items [] s = refl
find_player-actor_items (a ∷ actors) s = find_player-actor_items actors s

-- The search finds the player that `open` put first, and leaves the number of the others.
pub find_player-opened :
    (x y : ℕ) (actors : List Actor)
    → x < 2 ^ 16
    → y < 2 ^ 16
    → length actors < 2 ^ 16
    → find_player
        (player_item x y ∷ actor_items actors)
        (search_start (player_item x y ∷ actor_items actors))
      ≡ ok (record { set_player = true; start_x = x; start_y = y; num_actors = length actors })
unfolding find_player see_item search_start
find_player-opened x y actors px py few =
    let count : (suc (length (actor_items actors)) % 65536 + 65535) % 65536 ≡ length actors =
      rw (length-actor_items actors) (omega arith) in
    rw (mod-eq_of_lt px, mod-eq_of_lt py, count, find_player-actor_items actors)

module _ (lib : Streams) where
  open lib use {Input, Output, rest, read_u8, read_u8_lem}

  pub read_actors-actor_items :
      (w h : ℕ) (actors : List Actor) (back : List ℕ) (s : Input)
      → AllActors w h actors
      → rest s ≡ actor_bytes actors ++ back
      → (s' : Input) × (read_actors lib (length actors) s ≡ ok (actor_items actors, s'))
        × (rest s' ≡ back)
  unfolding read_actors actor_bytes actor_data
  read_actors-actor_items w h [] back s inside e = (s, refl, e)
  read_actors-actor_items w h (a ∷ actors) back s ((pc, px, py, tx, ty, len), inside) e =
      let (s1, reads1, _, left1) =
        read_u8_lem s a.code _ (e ∙ append_assoc (actor_data a) (actor_bytes actors) back) in
      let (s2, reads2, left2) = read_word lib s1 a.x _ px left1 in
      let (s3, reads3, left3) = read_word lib s2 a.y _ py left2 in
      let (s4, reads4, _, left4) = skip_exactly lib 123 s3 a.others _ left3 len in
      let (s5, reads5, left5) = read_actors-actor_items w h actors back s4 inside left4 in
      (s5, rw (reads1, reads2, reads3, reads4, reads5), left5)

  write_actor_lem :
      (a : Actor) (bytes : List ℕ) (o : Output)
      → a.code < 256
      → Holds lib bytes o
      → (o' : Output) × (write_actor lib (default_item (a.x / 16) (a.y / 16) a.code) o ≡ ok o')
        × Holds lib (bytes ++ actor_data (written_actor a)) o'
  unfolding write_actor actor_data
  write_actor_lem a bytes o pc held =
      let (o1, writes1, held1) = Holds-write_u8 lib a.code bytes o held in
      let (o2, writes2, held2) = Holds-write_u16le lib (a.x / 16) held1 in
      let (o3, writes3, held3) = Holds-write_u16le lib (a.y / 16) held2 in
      let (o4, writes4, held4) = Holds-write lib (replicate 123 0) held3 in
      (
        o4,
        rw (writes1, writes2, writes3) writes4,
        rw (mod-eq_of_lt pc) at (simp append_assoc at held4),
      )

  pub Holds-write_actors :
      (w h : ℕ) (actors : List Actor) (bytes : List ℕ) (o : Output)
      → AllActors w h actors
      → Holds lib bytes o
      → (o' : Output) × (write_actors lib w h (actor_items actors) o ≡ ok o')
        × Holds lib (bytes ++ actor_bytes (map written_actor actors)) o'
  unfolding write_actors actor_bytes
  Holds-write_actors w h [] bytes o inside held = (o, refl, rw (append-nil bytes) held)
  Holds-write_actors w h (a ∷ actors) bytes o ((pc, px, py, tx, ty, len), inside) held =
      let (o1, writes1, held1) = write_actor_lem a bytes o pc held in
      let (o2, writes2, held2) = Holds-write_actors w h actors _ o1 inside held1 in
      (
        o2,
        rw (lt→ltb (a.x / 16) w tx, lt→ltb (a.y / 16) h ty, writes1) writes2,
        rw
            (← append_assoc bytes (actor_data (written_actor a))
              (actor_bytes (map written_actor actors)))
            held2,
      )
