-- ===== src/Format/Harry/Map.antt =====
-- The map that a Halloween Harry file opens into, and the bytes that it is written as.
use libgamemaps.Prelude.{
  ℕ, ◌+◌, ◌*◌, ◌/◌, ◌%◌, ◌^◌, ◌<◌, ◌≡◌, sym, ◌∙◌, none, List, [], ◌∷◌, ◌++◌, length, replicate,
  append-nil, append_assoc, Bool-cases, inl, inr, ◌==◌, lt→ltb, arith,
}
use libgamemaps.Result.{ok}
use libgamemaps.Stream.{Streams}
use libgamemaps.Stream.Read.{from_start, skip_exactly}
use libgamemaps.Stream.Write.{
  Holds, Holds-write, Holds-write_u8, Holds-write_u16le, Holds-write_u32le, Holds-write_null_padded,
}
use libgamemaps.Map2D.{Map2D}
use libgamemaps.Map2D.MapCaps
use libgamemaps.Map2D.Generic.{new_map2d}
use libgamemaps.Grid.{grid_items}
use libgamemaps.Grid.Words.{read_word}
use libgamemaps.Grid.Rows.{read_grid}
use libgamemaps.Format.{keep_other_than}
use libgamemaps.Format.Harry.{
  default_tile, signature, actor_layer, background_layer, parallax, read_header, open_map,
  write_header,
}
use libgamemaps.Format.Harry.Actors.{player_item}
use libgamemaps.Format.Harry.Storing.{
  Actor, AllActors, actor_items, actor_bytes, read_actors-actor_items,
}

-- The header of a file: the player's start and the flags, among bytes that `open` skips.
pub record Header : Type 0 where
  pub before : List ℕ
  pub start_x : ℕ
  pub start_y : ℕ
  pub between : List ℕ
  pub map_flags : ℕ
  pub palette : List ℕ
  pub tile_flags : List ℕ
  pub unknown_block : List ℕ

-- Each part has its length.
pub record IsHeader (hd : Header) : Type 0 where
  pub before_length : length hd.before ≡ 0x12 + 4
  pub start_x_fits : hd.start_x < 2 ^ 16
  pub start_y_fits : hd.start_y < 2 ^ 16
  pub between_length : length hd.between ≡ 2
  pub palette_length : length hd.palette ≡ 768
  pub tile_flags_length : length hd.tile_flags ≡ 256
  pub unknown_block_length : length hd.unknown_block ≡ 10

-- The bytes of a header, up to the number of actors.
unfoldable pub header_bytes : Header → List ℕ
header_bytes hd =
    hd.before
    ++ (hd.start_x % 256
        ∷ hd.start_x / 256 % 256
        ∷ hd.start_y % 256
        ∷ hd.start_y / 256 % 256
        ∷ (hd.between ++ (hd.map_flags ∷ (hd.palette ++ (hd.tile_flags ++ hd.unknown_block)))))

-- The bytes of a file.
abbrev pub level_bytes : Header → List Actor → ℕ → ℕ → List ℕ → List ℕ
level_bytes hd actors w h cells =
    header_bytes hd
    ++ (length actors % 256
        ∷ length actors / 256 % 256
        ∷ (actor_bytes actors ++ (w % 256 ∷ w / 256 % 256 ∷ h % 256 ∷ h / 256 % 256 ∷ cells)))

-- The map of a level.
abbrev pub level : Header → List Actor → ℕ → ℕ → List ℕ → List ℕ → Map2D
level hd actors w h bg fg = record {
  attributes = parallax hd.map_flags ∷ [];
  graphics_filenames = [];
  caps = MapCaps.has_viewport;
  viewport_x = 288;
  viewport_y = 144;
  width = w;
  height = h;
  tile_width = 16;
  tile_height = 16;
  layers =
      background_layer "Background" (grid_items (keep_other_than default_tile) w 0 bg)
      ∷ background_layer "Foreground" (grid_items (keep_other_than default_tile) w 0 fg)
      ∷ actor_layer (player_item hd.start_x hd.start_y ∷ actor_items actors)
      ∷ [];
  paths = none;
}

-- What `write` makes of a header that was opened: its own signature, the start of the player, a
-- flag that is 0 or 1, and zeros.
abbrev pub written_header : Header → Header
written_header hd = record {
  before = signature ++ (0 ∷ 0 ∷ 0 ∷ 0 ∷ []);
  start_x = hd.start_x;
  start_y = hd.start_y;
  between = 0 ∷ 0 ∷ [];
  map_flags = (parallax hd.map_flags).enum_value;
  palette = replicate 768 0;
  tile_flags = replicate 256 0;
  unknown_block = replicate 10 0;
}

header_bytes-append :
    (hd : Header) (back : List ℕ)
    → header_bytes hd ++ back
      ≡ hd.before
        ++ (hd.start_x % 256
            ∷ hd.start_x / 256 % 256
            ∷ hd.start_y % 256
            ∷ hd.start_y / 256 % 256
            ∷ (hd.between
                ++ (hd.map_flags ∷ (hd.palette ++ (hd.tile_flags ++ (hd.unknown_block ++ back))))))
unfolding header_bytes
header_bytes-append hd back = simp append_assoc

-- Nine parts that are written one after another.
nine_parts :
    (a b c d e f g h i : List ℕ)
    → (((((((a ++ b) ++ c) ++ d) ++ e) ++ f) ++ g) ++ h) ++ i
      ≡ a ++ (b ++ (c ++ (d ++ (e ++ (f ++ (g ++ (h ++ i)))))))
nine_parts a b c d e f g h i = simp append_assoc

pub parallax_byte : (flags : ℕ) → (parallax flags).enum_value % 256 ≡ (parallax flags).enum_value
parallax_byte flags = elim (Bool-cases (flags == 0)) [ inl e ↦ rw e | inr e ↦ rw e ]

module _ (lib : Streams) where
  open lib use {Input, Output, contents, rest, seek_get, read_u8, read_u8_lem}

  read_header-bytes :
      (hd : Header) (num_actors : ℕ) (back : List ℕ) (s : Input)
      → IsHeader hd
      → num_actors < 2 ^ 16
      → rest s ≡ header_bytes hd ++ (num_actors % 256 ∷ num_actors / 256 % 256 ∷ back)
      → (s' : Input) × (read_header lib s
          ≡ ok ((hd.start_x, hd.start_y, hd.map_flags, num_actors), s'))
        × (rest s' ≡ back)
  unfolding read_header header_bytes
  read_header-bytes hd num_actors back s shape few e =
      let (s1, skips1, _, left1) =
        skip_exactly lib (0x12 + 4) s hd.before _ (e ∙ header_bytes-append hd _)
          shape.before_length in
      let (s2, reads2, left2) = read_word lib s1 hd.start_x _ shape.start_x_fits left1 in
      let (s3, reads3, left3) = read_word lib s2 hd.start_y _ shape.start_y_fits left2 in
      let (s4, skips4, _, left4) = skip_exactly lib 2 s3 hd.between _ left3 shape.between_length in
      let (s5, reads5, _, left5) = read_u8_lem s4 hd.map_flags _ left4 in
      let (s6, skips6, _, left6) =
        skip_exactly lib 768 s5 hd.palette _ left5 shape.palette_length in
      let (s7, skips7, _, left7) =
        skip_exactly lib 256 s6 hd.tile_flags _ left6 shape.tile_flags_length in
      let (s8, skips8, _, left8) =
        skip_exactly lib 10 s7 hd.unknown_block _ left7 shape.unknown_block_length in
      let (s9, reads9, left9) = read_word lib s8 num_actors _ few left8 in
      (s9, rw (skips1, reads2, reads3, skips4, reads5, skips6, skips7, skips8, reads9), left9)

  pub open_map-level :
      (input : Input) (hd : Header) (actors : List Actor) (w h : ℕ) (bg fg : List ℕ)
      → IsHeader hd
      → w < 2 ^ 16
      → h < 2 ^ 16
      → 0 < w
      → 0 < h
      → AllActors w h actors
      → length actors < 2 ^ 16
      → length bg ≡ h * w
      → length fg ≡ h * w
      → contents input ≡ level_bytes hd actors w h (bg ++ fg)
      → open_map lib input ≡ ok (level hd actors w h bg fg)
  unfolding open_map new_map2d
  open_map-level input hd actors w h bg fg shape pw ph pos_w pos_h inside few len_bg len_fg e =
      let (s0, runs, _, left0) = from_start lib input in
      let (s9, reads9, left9) = read_header-bytes hd (length actors) _ s0 shape few (left0 ∙ e) in
      let (s10, reads10, left10) = read_actors-actor_items lib w h actors _ s9 inside left9 in
      let (s11, reads11, left11) = read_word lib s10 w _ pw left10 in
      let (s12, reads12, left12) = read_word lib s11 h _ ph left11 in
      let (s13, reads13, left13) = read_grid lib default_tile w h bg fg s12 len_bg left12 in
      let (s14, reads14, _) =
        read_grid lib default_tile w h fg [] s13 len_fg (left13 ∙ sym (append-nil fg)) in
      rw (
        runs,
        reads9,
        reads10,
        reads11,
        reads12,
        reads13,
        reads14,
        lt→ltb 0 w pos_w,
        lt→ltb 0 h pos_h,
      )

  pub Holds-write_header :
      (hd : Header) (o : Output)
      → Holds lib [] o
      → (o' : Output) × (write_header lib hd.start_x hd.start_y (parallax hd.map_flags).enum_value o
          ≡ ok o')
        × Holds lib (header_bytes (written_header hd)) o'
  unfolding write_header header_bytes
  Holds-write_header hd o fresh =
      let flags = (parallax hd.map_flags).enum_value in
      let (o1, writes1, h1) = Holds-write_null_padded lib signature 0x12 (omega arith) fresh in
      let (o2, writes2, h2) = Holds-write_u32le lib 0 h1 in
      let (o3, writes3, h3) = Holds-write_u16le lib hd.start_x h2 in
      let (o4, writes4, h4) = Holds-write_u16le lib hd.start_y h3 in
      let (o5, writes5, h5) = Holds-write_u16le lib 0 h4 in
      let (o6, writes6, h6) = Holds-write_u8 lib flags _ o5 h5 in
      let (o7, writes7, h7) = Holds-write lib (replicate 768 0) h6 in
      let (o8, writes8, h8) = Holds-write lib (replicate 256 0) h7 in
      let (o9, writes9, h9) = Holds-write lib (replicate 10 0) h8 in
      let whole =
        nine_parts signature (0 ∷ 0 ∷ 0 ∷ 0 ∷ []) (hd.start_x % 256 ∷ hd.start_x / 256 % 256 ∷ [])
          (hd.start_y % 256 ∷ hd.start_y / 256 % 256 ∷ []) (0 ∷ 0 ∷ []) (flags % 256 ∷ [])
          (replicate 768 0) (replicate 256 0) (replicate 10 0) in
      (
        o9,
        rw (writes1, writes2, writes3, writes4, writes5, writes6, writes7, writes8) writes9,
        rw (parallax_byte hd.map_flags) at (rw whole at h9),
      )
