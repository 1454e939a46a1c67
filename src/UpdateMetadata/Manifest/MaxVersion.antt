-- ===== src/UpdateMetadata/Manifest/MaxVersion.antt =====
-- `add_update` of tools/update-metadata/src/lib.rs: what it does to the maximum versions.
use twoliter.Prelude.{
  ◌≡◌, ◌⊎◌, inl, inr, refl, ap, sym, ◌∙◌, subst, ◌&&◌, Option, some, List, [], ◌∷◌, Text, arith,
  Elem, Elem-append, Elem-append_left, if◌then◌else◌, Bool-cases,
}
use twoliter.Prelude.Classes.{◌==◌, nat_eq, list_eq, list_eqb_iff, Order}
use twoliter.UpdateMetadata.Manifest.{
  Images, Update, Manifest, is_matching, update_max_version, max_or_default, new_update, add_update,
}

module _ {V Time : Type 0} ⦃o : Order V⦄ where
  -- Two updates for the same architecture and variant.
  abbrev pub IsRelated : Update V Time → Update V Time → Type 0
  IsRelated u v = (u.arch ≡ v.arch) × (u.variant ≡ v.variant)

  -- Related updates have the same maximum version.
  unfoldable pub IsUniform : Manifest V Time → Type 0
  IsUniform m =
      (u v : Update V Time)
      → Elem u m.updates
      → Elem v m.updates
      → IsRelated u v
      → u.max_version ≡ v.max_version

  abbrev pub renew : V → Text → Text → Update V Time → Update V Time
  renew version arch variant u =
      if is_matching (some arch) (some variant) u then record u { max_version = version } else u

  Elem-update_max_version :
      (version : V) (arch variant : Text) (x : Update V Time) (us : List (Update V Time))
      → Elem x (update_max_version version (some arch) (some variant) us)
      → (u : Update V Time) × Elem u us × (x ≡ renew version arch variant u)
  unfolding update_max_version
  Elem-update_max_version version arch variant x [] m = elim m [ ]
  Elem-update_max_version version arch variant x (u ∷ us) (inl e) = (u, inl refl, e)
  Elem-update_max_version version arch variant x (u ∷ us) (inr m) =
      let (v, listed, e) = Elem-update_max_version version arch variant x us m in (v, inr listed, e)

  Elem-update_max_version_of :
      (version : V) (arch variant : Text) (u : Update V Time) (us : List (Update V Time))
      → Elem u us
      → Elem
          (renew version arch variant u)
          (update_max_version version (some arch) (some variant) us)
  unfolding update_max_version
  Elem-update_max_version_of version arch variant u [] m = elim m [ ]
  Elem-update_max_version_of version arch variant u (v ∷ us) (inl e) =
      inl (ap (renew version arch variant) e)
  Elem-update_max_version_of version arch variant u (v ∷ us) (inr m) =
      inr (Elem-update_max_version_of version arch variant u us m)

  module _ (version : V) (chosen : Option V) (arch variant : Text) (images : Images)
      (m : Manifest V Time) where
    abbrev pub max' : V
    max' = max_or_default chosen version m.updates

    -- An update of the new manifest is an old one, renewed, or the one that was added.
    pub Elem-add_update :
        (x : Update V Time)
        → Elem x (add_update version chosen arch variant images m).updates
        → ((u : Update V Time) × Elem u m.updates × (x ≡ renew max' arch variant u))
          ⊎ (x ≡ new_update version max' arch variant images)
    unfolding add_update
    Elem-add_update x listed =
        elim (Elem-append x (update_max_version max' (some arch) (some variant) m.updates) _
          listed) [
            | inl old ↦ inl (Elem-update_max_version max' arch variant x m.updates old)
            | inr (inl e) ↦ inr e
            | inr (inr e) ↦ elim e [ ]
          ]

    -- Every old update is in the new manifest, renewed.
    pub Elem-add_update_of :
        (u : Update V Time)
        → Elem u m.updates
        → Elem (renew max' arch variant u) (add_update version chosen arch variant images m).updates
    unfolding add_update
    Elem-add_update_of u listed =
        Elem-append_left (renew max' arch variant u)
          (update_max_version max' (some arch) (some variant) m.updates)
          (new_update version max' arch variant images ∷ [])
          (Elem-update_max_version_of max' arch variant u m.updates listed)

    pub renew_cases :
        (u : Update V Time)
        → ((u.arch ≡ arch)
            × (u.variant ≡ variant)
            × (renew max' arch variant u ≡ record u { max_version = max' }))
          ⊎ (((u.arch ≡ arch) × (u.variant ≡ variant) → ⊥) × (renew max' arch variant u ≡ u))
    renew_cases u = elim (Bool-cases (u.arch == arch && u.variant == variant)) [
      | inl both ↦ inl (
        (list_eqb_iff nat_eq u.arch arch).0 (ground arith),
        (list_eqb_iff nat_eq u.variant variant).0 (ground arith),
        rw both,
      )
      | inr other ↦ inr (
        λ (e, f). ground (
          arith,
          (list_eqb_iff nat_eq u.arch arch).1 e,
          (list_eqb_iff nat_eq u.variant variant).1 f,
        ),
        rw other,
      )
    ]

    -- What an update of the new manifest has for a maximum version.
    pub max_of_new :
        (x : Update V Time)
        → Elem x (add_update version chosen arch variant images m).updates
        → ((x.arch ≡ arch) × (x.variant ≡ variant) × (x.max_version ≡ max'))
          ⊎ (((x.arch ≡ arch) × (x.variant ≡ variant) → ⊥) × Elem x m.updates)
    max_of_new x listed = elim (Elem-add_update x listed) [
      | inr e ↦ inl (ap (λ y. y.arch) e, ap (λ y. y.variant) e, ap (λ y. y.max_version) e)
      | inl (u, old, e) ↦ elim (renew_cases u) [
        | inl (same_arch, same_variant, f) ↦ inl (
          ap (λ y. y.arch) (e ∙ f) ∙ same_arch,
          ap (λ y. y.variant) (e ∙ f) ∙ same_variant,
          ap (λ y. y.max_version) (e ∙ f),
        )
        | inr (other, f) ↦
            let kept = sym (e ∙ f) in
            inr (
              subst (λ y. (y.arch ≡ arch) × (y.variant ≡ variant) → ⊥) kept other,
              subst (λ y. Elem y m.updates) kept old,
            )
      ]
    ]

    -- Adding an update keeps the maximum versions of related updates equal.
    pub add_update-IsUniform :
        IsUniform m → IsUniform (add_update version chosen arch variant images m)
    unfolding IsUniform
    add_update-IsUniform uniform x y in_x in_y (same_arch, same_variant) =
        elim (max_of_new x in_x) [
          | inl (ax, vx, mx) ↦ elim (max_of_new y in_y) [
            | inl (ay, vy, my) ↦ mx ∙ sym my
            | inr (other, _) ↦ absurd (other (sym same_arch ∙ ax, sym same_variant ∙ vx))
          ]
          | inr (other, old_x) ↦ elim (max_of_new y in_y) [
            | inl (ay, vy, my) ↦ absurd (other (same_arch ∙ ay, same_variant ∙ vy))
            | inr (_, old_y) ↦ uniform x y old_x old_y (same_arch, same_variant)
          ]
        ]
