-- ===== src/Examples/Manifest.antt =====
-- Runs of the manifest operations in tools/update-metadata, with numbers for versions.
use twoliter.Prelude.{
  ℕ, ◌≡◌, ◌⊎◌, refl, true, false, some, none, List, [], ◌∷◌, map, Text, text, arith, length, keep,
  Elem, inl, inr, ap, ltb, split_whitespace, parse_unsigned,
}
use twoliter.Prelude.Classes.{nat_order}
use twoliter.Chrono.Sample.{hours}
use twoliter.ParseDatetime.{parse_offset}
use twoliter.UpdateMetadata.Seeds.{seed_of_percent}
use twoliter.UpdateMetadata.Manifest.{
  Images, Update, Manifest, UpdateWave, add_update, is_chosen, insert_wave, check_wave, fill_waves,
  fill_updates, matched, set_waves,
}
use twoliter.UpdateMetadata.Manifest.MaxVersion.{IsUniform, add_update-IsUniform}
use twoliter.UpdateMetadata.Manifest.DefaultMax.{
  IsCovered, IsFamily, add_update_default, add_update_lowers,
}
use twoliter.UpdateMetadata.Manifest.FillWaves.{wave_with}
use twoliter.UpdateMetadata.Manifest.SetWaves.{assign, AreOrdered, set_waves_ok}
use twoliter.UpdateMetadata.Manifest.Policy.{IsPolicy}

abbrev images : Images
images = record { boot = text "boot"; root = text "root"; hash = text "hash" }

abbrev update : Text → ℕ → ℕ → Update ℕ ℕ
update variant version max_version = record {
  variant = variant;
  arch = text "x86_64";
  version = version;
  max_version = max_version;
  waves = [];
  images = images;
}

abbrev one_variant : Manifest ℕ ℕ
one_variant = record {
  updates = update (text "dev") 5 7 ∷ update (text "dev") 7 7 ∷ [];
  migrations = [];
}

abbrev two_variants : Manifest ℕ ℕ
two_variants = record {
  updates = update (text "ecs") 1 1 ∷ update (text "dev") 7 7 ∷ [];
  migrations = [];
}

one_variant-IsUniform : IsUniform one_variant
unfolding IsUniform
one_variant-IsUniform u v (inl e) (inl f) _ = ground arith
one_variant-IsUniform u v (inl e) (inr (inl f)) _ = ground arith
one_variant-IsUniform u v (inr (inl e)) (inl f) _ = ground arith
one_variant-IsUniform u v (inr (inl e)) (inr (inl f)) _ = ground arith
one_variant-IsUniform u v (inr (inr e)) _ _ = elim e [ ]
one_variant-IsUniform u v (inl _) (inr (inr e)) _ = elim e [ ]
one_variant-IsUniform u v (inr (inl _)) (inr (inr e)) _ = elim e [ ]

add_update-IsUniform_example :
    IsUniform (add_update 9 (some 9) (text "x86_64") (text "dev") images one_variant)
add_update-IsUniform_example =
    add_update-IsUniform 9 (some 9) (text "x86_64") (text "dev") images one_variant
      one_variant-IsUniform

one_variant-IsCovered : IsCovered one_variant
one_variant-IsCovered u (inl e) = ground arith
one_variant-IsCovered u (inr (inl e)) = ground arith
one_variant-IsCovered u (inr (inr e)) = elim e [ ]

one_variant-IsFamily : IsFamily (text "x86_64") (text "dev") one_variant
one_variant-IsFamily u (inl e) = (ap (λ x. x.arch) e, ap (λ x. x.variant) e)
one_variant-IsFamily u (inr (inl e)) = (ap (λ x. x.arch) e, ap (λ x. x.variant) e)
one_variant-IsFamily u (inr (inr e)) = elim e [ ]

add_update_default_example :
    IsCovered (add_update 6 none (text "x86_64") (text "dev") images one_variant)
    × ((u x : Update ℕ ℕ)
        → Elem u one_variant.updates
        → Elem x (add_update 6 none (text "x86_64") (text "dev") images one_variant).updates
        → ltb x.max_version u.max_version ≡ false)
add_update_default_example =
    add_update_default 6 (text "x86_64") (text "dev") images one_variant one_variant-IsFamily
      one_variant-IsUniform one_variant-IsCovered

-- Adding version 6 of the second variant lowers its maximum version from 7.
add_update_lowers_example :
    (x : Update ℕ ℕ) × Elem x
      (add_update 6 none (text "x86_64") (text "dev") images two_variants).updates
    × (x.version ≡ 7)
    × (x.arch ≡ text "x86_64")
    × (x.variant ≡ text "dev")
    × (ltb x.max_version 7 ≡ true)
add_update_lowers_example =
    add_update_lowers 6 (text "x86_64") (text "dev") images two_variants (update (text "ecs") 1 1)
      (update (text "dev") 7 7 ∷ []) (update (text "dev") 7 7) refl (inr (inl refl)) refl refl refl
      refl

abbrev policy : List UpdateWave
policy = wave_with (text "1 hour") 1 ∷ wave_with (text "in 1 day") 100 ∷ []

program : Unit {0}
unfolding set_waves fill_waves check_wave insert_wave fill_updates seed_of_percent parse_offset
    split_whitespace parse_unsigned
program = tt

set_waves-one_variant :
    (set_waves hours (text "dev") (text "x86_64") 7 100 policy one_variant).1 ≡ matched 1
unfolding program
set_waves-one_variant = refl

fill_waves-policy : fill_waves hours 100 0 policy [] ≡ ((0, 101) ∷ (20, 124) ∷ [], none)
unfolding program
fill_waves-policy = refl

set_waves_ok_example :
    let result = (set_waves hours (text "dev") (text "x86_64") 7 100 policy one_variant).0 in
    ((◌≡◌ {A = ℕ} 1 0 × (result ≡ one_variant))
      ⊎ ((waves : List (ℕ × ℕ)) × IsPolicy hours 100 policy waves
          × (result ≡ record one_variant {
            updates =
                map
                  (assign hours (is_chosen (text "dev") (text "x86_64") 7) waves)
                  one_variant.updates;
          })))
    × (1 ≡ length (keep (is_chosen (text "dev") (text "x86_64") 7) one_variant.updates))
    × AreOrdered hours result.updates
set_waves_ok_example =
    set_waves_ok hours (text "dev") (text "x86_64") 7 100 policy one_variant 1 set_waves-one_variant
