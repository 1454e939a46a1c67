-- ===== src/UpdateMetadata/Manifest/DefaultMax.antt =====
-- `add_update` of tools/update-metadata/src/lib.rs without a given maximum version.
use twoliter.Prelude.{
  ◌≡◌, inl, inr, refl, sym, ◌∙◌, subst, true, false, none, List, [], ◌∷◌, Text, arith, Elem,
}
use twoliter.Prelude.Classes.{Order, lt_asymm, not_lt_trans}
use twoliter.UpdateMetadata.Manifest.{Images, Update, Manifest, later_of, default_max, add_update}
use twoliter.UpdateMetadata.Manifest.MaxVersion.{
  IsUniform, Elem-add_update_of, max_of_new, renew_cases, Elem-add_update,
}

module _ {V : Type 0} ⦃o : Order V⦄ where
  later_of_left : (a b : V) → o.lt (later_of a b) a ≡ false
  later_of_left a b = ground (arith, o.lt_irrefl a)

  later_of_right : (a b : V) → o.lt (later_of a b) b ≡ false
  later_of_right a b = ground (arith, o.lt_irrefl b, lt_asymm b a)

module _ {V Time : Type 0} ⦃o : Order V⦄ where
  -- No update is newer than its own maximum version.
  abbrev pub IsCovered : Manifest V Time → Type 0
  IsCovered m = (u : Update V Time) → Elem u m.updates → o.lt u.max_version u.version ≡ false

  -- Every update of the manifest is for this architecture and variant.
  abbrev pub IsFamily : Text → Text → Manifest V Time → Type 0
  IsFamily arch variant m =
      (u : Update V Time) → Elem u m.updates → (u.arch ≡ arch) × (u.variant ≡ variant)

  le_default :
      (version : V) (arch variant : Text) (us : List (Update V Time)) (u : Update V Time)
      → ((u v : Update V Time) → Elem u us → Elem v us → u.max_version ≡ v.max_version)
      → Elem u us
      → o.lt (default_max version us) u.max_version ≡ false
  le_default version arch variant [] u same_max m = elim m [ ]
  le_default version arch variant (v ∷ us) u same_max m =
      subst (λ x. o.lt (later_of version v.max_version) x ≡ false) (same_max v u (inl refl) m)
        (later_of_right version v.max_version)

  default_covers :
      (version : V) (us : List (Update V Time)) → o.lt (default_max version us) version ≡ false
  default_covers version [] = o.lt_irrefl version
  default_covers version (v ∷ us) = later_of_left version v.max_version

  module _ (version : V) (arch variant : Text) (images : Images) (m : Manifest V Time) where
    -- In a manifest for one architecture and variant, where related updates agree on their maximum
    -- version, an update added with no maximum version leaves no update with a lower one than before,
    -- and none newer than its maximum.
    pub add_update_default :
        IsFamily arch variant m
        → IsUniform m
        → IsCovered m
        → IsCovered (add_update version none arch variant images m)
          × ((u x : Update V Time)
              → Elem u m.updates
              → Elem x (add_update version none arch variant images m).updates
              → o.lt x.max_version u.max_version ≡ false)
    unfolding IsUniform
    add_update_default family uniform covered = (covers, grows)
      where
        same_max :
            (u v : Update V Time)
            → Elem u m.updates
            → Elem v m.updates
            → u.max_version ≡ v.max_version
        same_max u v in_u in_v =
            let (a, b) = family u in_u in
            let (c, d) = family v in_v in uniform u v in_u in_v (a ∙ sym c, b ∙ sym d)

        grows :
            (u x : Update V Time)
            → Elem u m.updates
            → Elem x (add_update version none arch variant images m).updates
            → o.lt x.max_version u.max_version ≡ false
        grows u x in_u in_x = elim (max_of_new version none arch variant images m x in_x) [
          | inl (_, _, e) ↦
              subst (λ y. o.lt y u.max_version ≡ false) (sym e)
                (le_default version arch variant m.updates u same_max in_u)
          | inr (other, old) ↦ absurd (other (family x old))
        ]

        covers : IsCovered (add_update version none arch variant images m)
        covers x in_x = elim (Elem-add_update version none arch variant images m x in_x) [
          | inr e ↦
              subst (λ y. o.lt y.max_version y.version ≡ false) (sym e)
                (default_covers version m.updates)
          | inl (u, old, e) ↦
              let (a, b) = family u old in
              elim (renew_cases version none arch variant images m u) [
                | inl (_, _, f) ↦
                    subst (λ y. o.lt y.max_version y.version ≡ false) (sym (e ∙ f))
                      (not_lt_trans u.version u.max_version (default_max version m.updates)
                        (covered u old) (le_default version arch variant m.updates u same_max old))
                | inr (other, _) ↦ absurd (other (a, b))
              ]
        ]

    -- If the first update of the manifest has a lower maximum version than a related update, and the
    -- added version is lower too, the maximum version of the related update goes down.
    pub add_update_lowers :
        (first : Update V Time) (rest : List (Update V Time)) (u : Update V Time)
        → m.updates ≡ first ∷ rest
        → Elem u m.updates
        → u.arch ≡ arch
        → u.variant ≡ variant
        → o.lt first.max_version u.max_version ≡ true
        → o.lt version u.max_version ≡ true
        → (x : Update V Time) × Elem x (add_update version none arch variant images m).updates
          × (x.version ≡ u.version)
          × (x.arch ≡ u.arch)
          × (x.variant ≡ u.variant)
          × (o.lt x.max_version u.max_version ≡ true)
    unfolding add_update
    add_update_lowers first rest u shape listed same_arch same_variant low lower =
        elim (renew_cases version none arch variant images m u) [
          | inr (other, _) ↦ absurd (other (same_arch, same_variant))
          | inl (_, _, f) ↦
              let x : Update V Time = record u { max_version = default_max version m.updates } in
              let is_lower : o.lt (default_max version m.updates) u.max_version ≡ true =
                subst (λ l. o.lt (default_max version l) u.max_version ≡ true) (sym shape)
                  (ground arith) in
              (
                x,
                subst (λ y. Elem y (add_update version none arch variant images m).updates) f
                    (Elem-add_update_of version none arch variant images m u listed),
                refl,
                refl,
                refl,
                is_lower,
              )
        ]
