-- ===== src/Format/Cosmo/Images.antt =====
-- The images of Cosmo's items: which actor is shown, and that no image is taken out of range.
use libgamemaps.Prelude.{
  ℕ, zero, suc, ◌+◌, ◌-◌, ◌%◌, ◌^◌, ◌≤◌, ◌<◌, ◌≡◌, refl, ap, ◌∙◌, ◌⊎◌, inl, inr, true, false, none,
  some, arith, leb, Bool-cases, lt→ltb, leb→le,
}
use libgamemaps.Result.{ok}
use libgamemaps.Map2D.{Item, supplied, unknown, sprite_tileset1}
use libgamemaps.Graphics.{Graphics, TilesetCollection, image_entry, tileset_entry}
use libgamemaps.Format.Cosmo.{next_actor, actor_frame, actor_in, actor_image}

module _ (g : Graphics) where
  open g use {Tileset, Image, count, open_image, open_tileset, is_sub_tileset}

  -- The loop finds the first tileset at or after `index` that holds images, or there is none among
  -- the next `n`.
  next_actor_lem :
      (t : Tileset) (n index : ℕ)
      → ((next_actor g t n index ≡ none)
          × ((k : ℕ) → index ≤ k → k < index + n → is_sub_tileset t k ≡ false))
        ⊎ ((found : ℕ) × (next_actor g t n index ≡ some found)
            × (index ≤ found)
            × (found < index + n)
            × (is_sub_tileset t found ≡ true)
            × ((k : ℕ) → index ≤ k → k < found → is_sub_tileset t k ≡ false))
  unfolding next_actor
  next_actor_lem t zero index = inl (refl, λ k le lt. absurd (omega arith))
  next_actor_lem t (suc n) index = elim (Bool-cases (is_sub_tileset t index)) [
    | inl here ↦
        inr (index, rw here, omega arith, omega arith, here, λ k le lt. absurd (omega arith))
    | inr other ↦ elim (next_actor_lem t n (index + 1)) [
      | inl (e, empty) ↦ inl (rw (other, e), λ k le lt. grind arith)
      | inr (found, e, le, lt, holds, before) ↦
          inr (found, rw (other, e), omega arith, omega arith, holds, λ k le' lt'. grind arith)
    ]
  ]

  actor_frame-tileset :
      (t : Tileset) (found : ℕ)
      → found < count t
      → ((count (open_tileset t found) ≡ 0) × (actor_frame g t found ≡ ok (unknown, none)))
        ⊎ ((0 < count (open_tileset t found))
            × (actor_frame g t found ≡ ok (supplied, some (open_image (open_tileset t found) 0))))
  unfolding actor_frame tileset_entry image_entry
  actor_frame-tileset t found lt = elim (Bool-cases (leb (count (open_tileset t found)) 0)) [
    | inl no_images ↦ inl (ground arith, rw (lt→ltb found (count t) lt, no_images))
    | inr images ↦
        let positive : 0 < count (open_tileset t found) = ground arith in
        inr (
          positive,
          rw (lt→ltb found (count t) lt, images, lt→ltb 0 (count (open_tileset t found)) positive),
        )
  ]

  actor_in_lem :
      (t : Tileset) (place : ℕ)
      → ((found : ℕ) × (actor_in g t place
            ≡ ok (supplied, some (open_image (open_tileset t found) 0)))
          × (place ≤ found)
          × (found < count t)
          × (is_sub_tileset t found ≡ true)
          × ((k : ℕ) → place ≤ k → k < found → is_sub_tileset t k ≡ false)
          × (0 < count (open_tileset t found)))
        ⊎ ((actor_in g t place ≡ ok (unknown, none))
            × ((found : ℕ)
                → place ≤ found
                → found < count t
                → is_sub_tileset t found ≡ true
                → ((k : ℕ) → place ≤ k → k < found → is_sub_tileset t k ≡ false)
                → count (open_tileset t found) ≡ 0))
  unfolding actor_in
  actor_in_lem t place = elim (Bool-cases (leb (count t) place)) [
    | inl out ↦ inr (rw out, λ found le lt. absurd (omega (arith, leb→le (count t) place out)))
    | inr within ↦
        let there : place < count t = ground arith in
        elim (next_actor_lem t (count t - place) place) [
          | inl (finds, empty) ↦ inr (
            rw (within, finds),
            λ found le lt holds before.
                let other : is_sub_tileset t found ≡ false = empty found le (omega arith) in cc,
          )
          | inr (found, finds, le, lt, holds, before) ↦
              elim (actor_frame-tileset t found (omega arith)) [
                | inl (no_images, shows) ↦ inr (
                  rw (within, finds) shows,
                  λ k pk qk other first.
                      let same : k ≡ found = grind arith in
                      ap (λ i. count (open_tileset t i)) same ∙ no_images,
                )
                | inr (images, shows) ↦
                    inl (found, rw (within, finds) shows, le, omega arith, holds, before, images)
              ]
        ]
  ]

  actor_image-sprites :
      (item : Item) (tilesets : TilesetCollection g) (t : Tileset)
      → tilesets sprite_tileset1 ≡ some t
      → actor_image g item tilesets ≡ actor_in g t ((item.code + 2 ^ 32 - 31) % 2 ^ 32)
  unfolding actor_image
  actor_image-sprites item tilesets t e = rw (actor_image, e)

  -- With a sprite tileset, and a code of at least 31, the image of an actor is one of two. Either a first tileset of
  -- images stands at or after the actor's own place, which is its code less 31, and has an image:
  -- its first image is supplied. Or no image is supplied, and then from the actor's place on there
  -- is no tileset of images, or the first one has no images.
  pub actor_image_shows :
      (item : Item) (tilesets : TilesetCollection g) (t : Tileset) (place : ℕ)
      → tilesets sprite_tileset1 ≡ some t
      → item.code ≡ place + 31
      → item.code < 2 ^ 32
      → ((found : ℕ) × (actor_image g item tilesets
            ≡ ok (supplied, some (open_image (open_tileset t found) 0)))
          × (place ≤ found)
          × (found < count t)
          × (is_sub_tileset t found ≡ true)
          × ((k : ℕ) → place ≤ k → k < found → is_sub_tileset t k ≡ false)
          × (0 < count (open_tileset t found)))
        ⊎ ((actor_image g item tilesets ≡ ok (unknown, none))
            × ((found : ℕ)
                → place ≤ found
                → found < count t
                → is_sub_tileset t found ≡ true
                → ((k : ℕ) → place ≤ k → k < found → is_sub_tileset t k ≡ false)
                → count (open_tileset t found) ≡ 0))
  actor_image_shows item tilesets t place e code small =
      let index : (item.code + 2 ^ 32 - 31) % 2 ^ 32 ≡ place = omega arith in
      let within : actor_image g item tilesets ≡ actor_in g t place =
        actor_image-sprites item tilesets t e ∙ ap (actor_in g t) index in
      rw within (actor_in_lem t place)
