-- ===== src/Format/Cosmo/Map.antt =====
-- The map that a Cosmo file opens into, and the bytes that a map is written as.
use libgamemaps.Prelude.{
  ℕ, ◌+◌, ◌-◌, ◌*◌, ◌/◌, ◌%◌, ◌^◌, ◌≤◌, ◌<◌, ◌≡◌, sym, ap, ◌∙◌, none, some, List, [], ◌∷◌, ◌++◌,
  length, replicate, take, drop, take-append-drop, length-take, take_all, All-take, length-append,
  lt→ltb, le→ltb, ltb→lt, ltb→le, ltb, false, ◌==◌, Bool-cases, inl, inr, arith,
}
use libgamemaps.Result.{ok}
use libgamemaps.Stream.{Streams}
use libgamemaps.Stream.Bytes.{words_bytes, words_bytes-append}
use libgamemaps.Stream.Read.{from_start}
use libgamemaps.Stream.Write.{Holds, Holds-write_u16le, Holds-flush}
use native.Mathlib.Nat.{mod-eq_of_lt, le-div_iff_mul-le}
use libgamemaps.Map2D.{Layer, Map2D}
use libgamemaps.Map2D.MapCaps
use libgamemaps.Map2D.Generic.{new_map2d, get_map_size, get_layer_count, get_layer, cast_map2d}
use libgamemaps.Grid.{grid_items}
use libgamemaps.Grid.Asserting.{paint_asserting}
use libgamemaps.Grid.Words.{
  AllWords, read_word, read_cells-grid_items, length-words_bytes, Holds-write_words,
}
use libgamemaps.Format.{keep_other_than}
use libgamemaps.Format.Cosmo.{
  num_tiles_bg, actor_layer, background_layer, new_cosmo, bg_cells, open_map, write_map,
}
use libgamemaps.Format.Cosmo.Attributes.{flag_attributes, backdrop_graphics, attribute_flags}
use libgamemaps.Format.Cosmo.Storing.{
  Actor, AllActors, actor_items, actor_words, length-actor_words, length-actor_items,
  read_actors-actor_items, Holds-write_actors,
}

-- The words of a file.
abbrev pub level_words : ℕ → ℕ → List Actor → List ℕ → List ℕ
level_words flags w actors bg = flags ∷ w ∷ (length actors * 3) ∷ (actor_words actors ++ bg)

-- The map of a level with these flags, actors and codes.
abbrev pub level : ℕ → ℕ → List Actor → List ℕ → Map2D
level flags w actors codes = record {
  attributes = flag_attributes flags;
  graphics_filenames = backdrop_graphics (flags % 32);
  caps = MapCaps.has_viewport;
  viewport_x = 304;
  viewport_y = 144;
  width = w;
  height = 32768 / w;
  tile_width = 8;
  tile_height = 8;
  layers =
      background_layer (grid_items (keep_other_than 0) w 0 codes)
      ∷ actor_layer (actor_items actors)
      ∷ [];
  paths = none;
}

-- The cells that `open` reads are the file's, up to the size of the game's map.
bg_cells-take : (bg : List ℕ) → bg_cells (length bg * 2) ≡ length (take num_tiles_bg bg)
unfolding bg_cells
bg_cells-take bg =
    let half : length bg * 2 / 2 ≡ length bg = omega arith in
    elim (Bool-cases (ltb (length bg) num_tiles_bg)) [
      | inl less ↦
          rw (half, less)
            (ap length (sym (take_all num_tiles_bg bg (omega (arith, ltb→lt _ _ less)))))
      | inr more ↦ rw (half, more) (sym (length-take num_tiles_bg bg (ltb→le _ _ more)))
    ]

-- A map of the format's shape, with these actors.
pub record IsShaped (m : Map2D) (bg_layer layer : Layer) (flags : ℕ) (actors : List Actor)
    : Type 0 where
  pub two_layers : m.layers ≡ bg_layer ∷ layer ∷ []
  pub actors_shown : layer.items ≡ actor_items actors
  pub actors_inside : AllActors m.width m.height actors
  pub actors_fit : length actors * 3 < 2 ^ 16
  pub flags_packed : attribute_flags m.attributes ≡ ok flags

new_cosmo-level :
    (flags w : ℕ) (actors : List Actor) (codes : List ℕ)
    → 0 < w
    → w ≤ 32768
    → new_cosmo (flag_attributes flags) w (level flags w actors codes).layers
      ≡ ok (level flags w actors codes)
unfolding new_cosmo new_map2d flag_attributes
new_cosmo-level flags w actors codes pos le =
    let some_row : 0 < 32768 / w =
      (le-div_iff_mul-le {k = w} {x = 1} {y = 32768} pos).1 (omega arith) in
    rw (lt→ltb 0 w pos, lt→ltb 0 (32768 / w) some_row)

module _ (lib : Streams) where
  open lib use {Input, Output, contents, rest, size, size_lem}

  pub open_map-level :
      (input : Input) (flags w : ℕ) (actors : List Actor) (bg : List ℕ)
      → flags < 2 ^ 16
      → 0 < w
      → w ≤ 32768
      → AllActors w (2 ^ 16) actors
      → length actors * 3 < 2 ^ 16
      → AllWords bg
      → contents input ≡ words_bytes (level_words flags w actors bg)
      → open_map lib input ≡ ok (level flags w actors (take num_tiles_bg bg))
  unfolding open_map words_bytes
  open_map-level input flags w actors bg pf pos pw inside fit words e =
      let codes = take num_tiles_bg bg in
      let (s, runs, _, left) = from_start lib input in
      let (s1, reads1, left1) = read_word lib s flags _ pf (left ∙ e) in
      let (s2, reads2, left2) = read_word lib s1 w _ (omega arith) left1 in
      let (s3, reads3, left3) = read_word lib s2 (length actors * 3) _ fit left2 in
      let (s4, reads4, left4) =
        read_actors-actor_items lib w (2 ^ 16) actors (words_bytes bg) s3 (omega arith)
          (omega arith) inside (left3 ∙ words_bytes-append (actor_words actors) bg) in
      let (s5, reads5, _) =
        read_cells-grid_items lib (keep_other_than 0) w 0 codes (words_bytes (drop num_tiles_bg bg))
          s4 (All-take _ num_tiles_bg bg words)
          (left4
            ∙ ap words_bytes (sym (take-append-drop num_tiles_bg bg))
            ∙ words_bytes-append codes (drop num_tiles_bg bg)) in
      let bytes : size input ≡ length actors * 6 + length bg * 2 + 6 =
        size_lem input
        ∙ ap length e
        ∙ omega (
          arith,
          length-words_bytes (level_words flags w actors bg),
          length-append (actor_words actors) bg,
          length-actor_words actors,
        ) in
      let count : length actors * 3 / 3 ≡ length actors = omega arith in
      let nonzero : (w == 0) ≡ false = ground arith in
      let enough : ltb (size input - 6) (length actors * 6) ≡ false = le→ltb _ _ (omega arith) in
      let cells : bg_cells (size input - 6 - 6 * length actors) ≡ length codes =
        ap bg_cells {x = size input - 6 - 6 * length actors} {y = length bg * 2} (omega arith)
        ∙ bg_cells-take bg in
      rw (runs, reads1, reads2, reads3, count, enough, reads4, nonzero, cells, reads5)
        (new_cosmo-level flags w actors codes pos pw)

  pub write_map-paint :
      {m : Map2D} {bg_layer layer : Layer} (flags : ℕ) (actors : List Actor) (bg : List ℕ)
      (o : Output)
      → IsShaped m bg_layer layer flags actors
      → m.width * m.height < 2 ^ 32
      → Holds lib [] o
      → paint_asserting (2 ^ 16) m.width m.height bg_layer.items (replicate (m.width * m.height) 0)
        ≡ ok bg
      → (o' : Output) × (write_map lib (some m) o ≡ ok o')
        × Holds lib (words_bytes (level_words flags m.width actors bg)) o'
  unfolding write_map cast_map2d get_layer_count get_map_size get_layer words_bytes
  write_map-paint {m} flags actors bg o shape fits fresh painted =
      let (o1, writes1, h1) = Holds-write_u16le lib flags fresh in
      let (o2, writes2, h2) = Holds-write_u16le lib m.width h1 in
      let (o3, writes3, h3) = Holds-write_u16le lib (length actors * 3) h2 in
      let (o4, writes4, h4) =
        Holds-write_actors lib m.width m.height actors _ o3 shape.actors_inside h3 in
      let (o5, writes5, h5) = Holds-write_words lib bg _ o4 h4 in
      let (o6, flushes, h6) = Holds-flush lib h5 in
      (
        o6,
        rw
            (
              shape.two_layers,
              shape.flags_packed,
              shape.actors_shown,
              length-actor_items actors,
              (let word : length actors * 3 % 2 ^ 16 ≡ length actors * 3 =
                    mod-eq_of_lt shape.actors_fit in
                  word),
              (let cells : m.width * m.height % 2 ^ 32 ≡ m.width * m.height = mod-eq_of_lt fits in
                  cells),
              writes1,
              writes2,
              writes3,
              writes4,
              painted,
              writes5,
            )
            flushes,
        rw (words_bytes-append (actor_words actors) bg) h6,
      )
