-- ===== src/Format/Cosmo/RoundTrip.antt =====
-- Opening and writing of Cosmo levels.
use libgamemaps.Prelude.{
  ℕ, ◌+◌, ◌-◌, ◌*◌, ◌/◌, ◌^◌, ◌≤◌, ◌<◌, ◌≡◌, refl, sym, ap, ◌∙◌, some, List, [], ◌∷◌, ◌++◌, length,
  length-append, replicate, length-replicate, All-replicate, get_elem?-replicate, All-take,
  All-append, subst, take, take_all, get_elem?-take, append_assoc, arith,
}
use native.Mathlib.Nat.{div-le_self, div-mul-le_self}
use libgamemaps.Result.{ok}
use libgamemaps.Stream.{Streams, IsFresh}
use libgamemaps.Stream.Bytes.{words_bytes, words_bytes-append}
use libgamemaps.Stream.Write.{IsFresh-Holds}
use libgamemaps.Map2D.{Layer, Map2D}
use libgamemaps.Grid.{grid_items}
use libgamemaps.Grid.View.{InGrid, tile_at, paint-tile_at, tile_at-grid_items, cell_lt}
use libgamemaps.Grid.Asserting.{paint_asserting, paint_asserting-InGrid, paint_asserting-grid_items}
use libgamemaps.Grid.Padded.{grid_items-padded, words_bytes-zeros}
use libgamemaps.Grid.Words.{AllWords}
use libgamemaps.Format.{keep_other_than, keep_other_than_skips}
use libgamemaps.Format.Cosmo.{num_tiles_bg, background_layer, actor_layer, open_map, write_map}
use libgamemaps.Format.Cosmo.Flags.{attribute_flags-flag_attributes}
use libgamemaps.Format.Cosmo.Storing.{Actor, AllActors, actor_words}
use libgamemaps.Format.Cosmo.Map.{level, level_words, IsShaped, open_map-level, write_map-paint}

AllActors-weaken :
    (w h h' : ℕ) (actors : List Actor) → h ≤ h' → AllActors w h actors → AllActors w h' actors
AllActors-weaken w h h' [] le inside = tt
AllActors-weaken w h h' (a ∷ actors) le ((pc, px, py), inside) =
    ((pc, px, omega arith), AllActors-weaken w h h' actors le inside)

-- Painting the items of the first cells over an array of zeros restores them.
paint_layer :
    (w h : ℕ) (bg : List ℕ)
    → 0 < w
    → length bg ≤ w * h
    → AllWords bg
    → paint_asserting (2 ^ 16) w h (grid_items (keep_other_than 0) w 0 bg) (replicate (w * h) 0)
      ≡ ok (bg ++ replicate (w * h - length bg) 0)
paint_layer w h bg pos le words =
    let rest_of : List ℕ = replicate (w * h - length bg) 0 in
    let full : length (bg ++ rest_of) ≡ w * h =
      omega (arith, length-append bg rest_of, length-replicate {A = ℕ} (w * h - length bg) 0) in
    rw (← grid_items-padded (keep_other_than 0) 0 refl w 0 (w * h - length bg) bg) (
      paint_asserting-grid_items (2 ^ 16) w h (keep_other_than 0) 0 (bg ++ rest_of) pos
        (keep_other_than_skips 0) full
        (All-append _ bg rest_of words (All-replicate _ (w * h - length bg) 0 (omega arith))))

level_bytes-padded :
    (flags w k : ℕ) (actors : List Actor) (bg : List ℕ)
    → words_bytes (level_words flags w actors (bg ++ replicate k 0))
      ≡ words_bytes (level_words flags w actors bg) ++ replicate (k * 2) 0
level_bytes-padded flags w k actors bg =
    let whole : level_words flags w actors (bg ++ replicate k 0)
        ≡ level_words flags w actors bg ++ replicate k 0 =
      ap (λ l. flags ∷ w ∷ (length actors * 3) ∷ l)
        (sym (append_assoc (actor_words actors) bg (replicate k 0))) in
    ap words_bytes whole
    ∙ words_bytes-append (level_words flags w actors bg) (replicate k 0)
    ∙ ap (λ l. words_bytes (level_words flags w actors bg) ++ l) (words_bytes-zeros k)

module _ (lib : Streams) where
  open lib use {Input, Output, contents, written}

  -- A file of flags, a width from 1 to 32768, fewer than 21846 actors that stand in the map, and
  -- at most 32764 words, no more than the map has cells, opens. Writing the map that it opens
  -- into, to a fresh stream, gives the same bytes, followed by two zero bytes for each cell that
  -- the file did not have.
  pub write_map-open_map_cosmo :
      (input : Input) (o : Output) (flags w : ℕ) (actors : List Actor) (bg : List ℕ)
      → flags < 2 ^ 16
      → 0 < w
      → w ≤ 32768
      → AllActors w (32768 / w) actors
      → length actors * 3 < 2 ^ 16
      → AllWords bg
      → length bg ≤ num_tiles_bg
      → length bg ≤ w * (32768 / w)
      → contents input ≡ words_bytes (level_words flags w actors bg)
      → IsFresh lib o
      → (m : Map2D) × (o' : Output) × (open_map lib input ≡ ok m)
        × (write_map lib (some m) o ≡ ok o')
        × (written o' ≡ contents input ++ replicate ((w * (32768 / w) - length bg) * 2) 0)
  unfolding background_layer actor_layer
  write_map-open_map_cosmo input o flags w actors bg pf pos pw inside fit words few le e fresh =
      let h = 32768 / w in
      let rows : h ≤ 32768 = div-le_self 32768 w in
      let cells : h * w ≤ 32768 = div-mul-le_self 32768 w in
      let (o', writes, held) =
        write_map-paint lib {m = level flags w actors bg} flags actors _ o
          (record {
            two_layers = refl;
            actors_shown = refl;
            actors_inside = inside;
            actors_fit = fit;
            flags_packed = attribute_flags-flag_attributes.0 flags pf;
          })
          (omega arith) (IsFresh-Holds lib fresh) (paint_layer w h bg pos le words) in
      (
        level flags w actors bg,
        o',
        subst (λ codes. open_map lib input ≡ ok (level flags w actors codes))
            (take_all num_tiles_bg bg few)
            (open_map-level lib input flags w actors bg pf pos pw
              (AllActors-weaken w h (2 ^ 16) actors (omega arith) inside) fit words e),
        writes,
        held.bytes_written
            ∙ level_bytes-padded flags w (w * h - length bg) actors bg
            ∙ ap (λ l. l ++ replicate ((w * h - length bg) * 2) 0) (sym e),
      )

  -- A map of two layers, of a width from 1 to 32768 and a height up to 65536, with fewer than 2^32
  -- cells, whose attributes pack to a word of flags, whose actors, fewer than 21846, are actors
  -- that a file can hold and stand in the map, and whose background items lie in the grid, can be
  -- written to a fresh stream. Whatever file holds the bytes that were written opens into a map of
  -- the same flags, width and actors, of a height of 32768 divided by the width. At every cell
  -- among the first 32764 its background shows the code that the written background shows there,
  -- reduced to 16 bits.
  pub open_map-write_map_cosmo :
      (m : Map2D) (bg_layer layer : Layer) (flags : ℕ) (actors : List Actor) (o : Output)
      → IsShaped m bg_layer layer flags actors
      → flags < 2 ^ 16
      → 0 < m.width
      → m.width ≤ 32768
      → m.height ≤ 2 ^ 16
      → m.width * m.height < 2 ^ 32
      → InGrid m.width m.height bg_layer.items
      → IsFresh lib o
      → (o' : Output) × (write_map lib (some m) o ≡ ok o')
        × ((input : Input)
            → contents input ≡ written o'
            → (codes : List ℕ) × (open_map lib input ≡ ok (level flags m.width actors codes))
              × ((x y : ℕ)
                  → x < m.width
                  → y < m.height
                  → y * m.width + x < num_tiles_bg
                  → tile_at (2 ^ 16) 0 (grid_items (keep_other_than 0) m.width 0 codes) x y
                    ≡ tile_at (2 ^ 16) 0 bg_layer.items x y))
  open_map-write_map_cosmo m bg_layer layer flags actors o shape pf pos pw rows fits inside fresh =
      let n = m.width * m.height in
      let (bg, painted, len, words, shows) =
        paint-tile_at (2 ^ 16) m.width m.height bg_layer.items (replicate n 0) (omega arith) inside
          (length-replicate n 0) (All-replicate _ n 0 (omega arith)) in
      let (o', writes, held) =
        write_map-paint lib flags actors bg o shape fits (IsFresh-Holds lib fresh) (
          paint_asserting-InGrid (2 ^ 16) m.width m.height bg_layer.items _ inside
            (length-replicate n 0)
          ∙ painted) in
      (
        o',
        writes,
        λ input same. (
          take num_tiles_bg bg,
          open_map-level lib input flags m.width actors bg pf pos pw
              (AllActors-weaken m.width m.height (2 ^ 16) actors rows shape.actors_inside)
              shape.actors_fit words (same ∙ held.bytes_written),
          λ x y p q first.
              tile_at-grid_items (2 ^ 16) m.width pos (keep_other_than 0) 0
                (keep_other_than_skips 0) (take num_tiles_bg bg) x y _ p
                (All-take _ num_tiles_bg bg words)
                (get_elem?-take num_tiles_bg (y * m.width + x) bg first
                  ∙ shows x y 0 p q (
                      get_elem?-replicate n (y * m.width + x) 0
                        (cell_lt x y m.width m.height p q))),
        ),
      )
