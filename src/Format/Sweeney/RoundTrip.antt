-- ===== src/Format/Sweeney/RoundTrip.antt =====
-- Maps of Jill of the Jungle and of Xargon that are written open again as what they were.
use libgamemaps.Prelude.{
  ℕ, ◌+◌, ◌*◌, ◌%◌, ◌^◌, ◌<◌, ◌≡◌, refl, ◌∙◌, subst, inl, inr, some, List, [], ◌∷◌, map, All,
  length, set, All-set, All-replicate, arith, ltb, ◌||◌, Bool-cases,
}
use libgamemaps.Result.{ok, ◌>>=◌}
use libgamemaps.Stream.{Streams, IsFresh}
use libgamemaps.Stream.Write.{IsFresh-Holds}
use libgamemaps.Map2D.{Item, Layer, Map2D, definitely_yes}
use libgamemaps.Grid.{grid_items, paint, store}
use libgamemaps.Grid.View.{InGrid, tile_at, paint-reopens}
use libgamemaps.Format.{keep_other_than, keep_other_than_skips}
use libgamemaps.Format.Sweeney.{
  SweeneyType, ImageMap, map_width, map_height, read_dma, is_instance, open_map, write_map,
}
use libgamemaps.Format.Sweeney.Columns.{
  swapped, keep_tile, InGrid-swapped, tile_at-swapped, put_tiles-paint,
}
use libgamemaps.Format.Sweeney.Objects.Storing.{reopened}
use libgamemaps.Format.Sweeney.Map.{level_map, IsShaped, write_map-level}
use libgamemaps.Format.Sweeney.Opening.{open_map-level, is_instance-level}

-- `open` skips the codes whose low ten bits are 0, so that only those that are 0 may have them.
abbrev pub IsTileCode : ℕ → Type 0
IsTileCode code = code % 2 ^ 10 ≡ 0 → code ≡ 0

abbrev pub AllTiles : List Item → Type 0
AllTiles = All (λ (item : Item). IsTileCode (item.code % 2 ^ 16))

paint-All :
    (P : ℕ → Type 0) (cell w h : ℕ) (items : List Item) (bg bg' : List ℕ)
    → All (λ (item : Item). P (item.code % cell)) items
    → All P bg
    → paint cell w h items bg ≡ ok bg'
    → All P bg'
unfolding paint store
paint-All P cell w h [] bg bg' codes before e =
    let same : bg ≡ bg' = cc in subst (All P) same before
paint-All P cell w h (item ∷ items) bg bg' (code, codes) before e =
    let at = item.y * w + item.x in
    elim (Bool-cases (ltb w item.x || ltb h item.y)) [
      | inl outside ↦ let stopped = rw outside at e in absurd (cc)
      | inr inside ↦ elim (Bool-cases (ltb at (length bg))) [
        | inl stored ↦
            paint-All P cell w h items (set bg at (item.code % cell)) bg' codes
              (All-set P bg at (item.code % cell) code before) (rw (inside, stored) at e)
        | inr lost ↦ let stopped = rw (inside, lost) at e in absurd (cc)
      ]
    ]

AllTiles-swapped : (items : List Item) → AllTiles items → AllTiles (map swapped items)
AllTiles-swapped [] h = tt
AllTiles-swapped (item ∷ items) (p, h) = (p, AllTiles-swapped items h)

-- Where no other code has those ten bits 0, the codes that `open` skips are the codes 0.
keep_tile-keep_other :
    (i : ℕ) (codes : List ℕ)
    → All IsTileCode codes
    → grid_items keep_tile map_height i codes ≡ grid_items (keep_other_than 0) map_height i codes
unfolding grid_items
keep_tile-keep_other i [] h = refl
keep_tile-keep_other i (c ∷ codes) (p, h) =
    let same : keep_tile c ≡ keep_other_than 0 c = ground (arith, p) in
    rw (same, keep_tile-keep_other (i + 1) codes h)

module _ (lib : Streams) where
  open lib use {Input, Output, contents, written, size, seek_get}

  -- A map of two layers whose tiles lie in the map and have no other code than 0 with the low ten
  -- bits 0, and whose objects, fewer than 2 ^ 16, have no texts and fit into the fields of the file,
  -- can be written to a fresh stream. Whatever file holds the bytes that were written is recognised
  -- as a map of the format, and opens, with any second file whose loop reads an image map, into a
  -- map with that image map. At every cell its background shows the code that the written one shows
  -- there, reduced to 16 bits, and it has as many objects at the same places with the same codes,
  -- which move with their speeds where they moved and a speed is not 0.
  pub open_map-write_map_sweeney :
      (format : SweeneyType) (m : Map2D) (tiles objects : Layer) (o : Output)
      → IsShaped m tiles objects
      → InGrid map_width map_height tiles.items
      → AllTiles tiles.items
      → IsFresh lib o
      → (o' : Output) × (write_map lib format (some m) o ≡ ok o')
        × ((input dma : Input) (valid : List Item) (img_map : ImageMap)
            → contents input ≡ written o'
            → (seek_get 0 dma >>= read_dma lib (size dma + 1) (size dma) [])
              ≡ ok (some (valid, img_map))
            → (items : List Item) × (is_instance lib format input ≡ ok definitely_yes)
              × (open_map lib format input (some dma)
                  ≡ ok (level_map format valid items (map reopened objects.items), img_map))
              × ((x y : ℕ)
                  → x < map_width
                  → y < map_height
                  → tile_at (2 ^ 16) 0 items x y ≡ tile_at (2 ^ 16) 0 tiles.items x y))
  open_map-write_map_sweeney format m tiles objects o shape inside plain fresh =
      let (bg, painted, len, words, shows) =
        paint-reopens (2 ^ 16) map_height (omega arith) (keep_other_than 0) 0
          (keep_other_than_skips 0) map_width (map swapped tiles.items) (omega arith)
          (InGrid-swapped map_width map_height tiles.items inside) in
      let codes =
        paint-All IsTileCode (2 ^ 16) map_height map_width (map swapped tiles.items) _ bg
          (AllTiles-swapped tiles.items plain)
          (All-replicate IsTileCode (map_height * map_width) 0 (λ e. e)) painted in
      let (o', writes, h) =
        write_map-level lib format bg o shape (IsFresh-Holds lib fresh)
          (put_tiles-paint lib tiles.items _ inside refl ∙ painted) in
      (
        o',
        writes,
        λ input dma valid img_map same images. (
          map swapped (grid_items keep_tile map_height 0 bg),
          is_instance-level lib format bg objects.items input len shape.count_fits
              (same ∙ h.bytes_written),
          open_map-level lib format bg objects.items valid img_map input dma len words
              shape.count_fits shape.all_storable images (same ∙ h.bytes_written),
          λ x y p q. rw (keep_tile-keep_other 0 bg codes) (
              tile_at-swapped (2 ^ 16) 0 (grid_items (keep_other_than 0) map_height 0 bg) y x
              ∙ shows y x q p
              ∙ tile_at-swapped (2 ^ 16) 0 tiles.items x y),
        ),
      )
