-- ===== src/Project/Vendors.antt =====
-- twoliter/src/project/mod.rs: what an override changes of an image, and what it does not.
use twoliter.Prelude.{ap, text, ◌++◌, ◌≡◌, ◌⊎◌, inl, inr, none, some, Option-cases, arith}
use twoliter.Prelude.Maps.{lookup}
use twoliter.Prelude.Classes.{nat_eq, list_eq}
use twoliter.Project.{
  Version, Vendor, Override, Image, ArtifactVendor, verbatim, overridden, ProjectImage, Project,
  vendor_for, as_project_image, override_for, or_default, original_source_uri, project_image_uri,
  vendor_name, vendor_name_of,
}

module _ {V L : Type 0} (p : Project V L) (image : Image V) where
  vendor_for_cases :
      (a : ArtifactVendor)
      → vendor_for p image ≡ some a
      → (vendor : Vendor) × (lookup image.vendor p.vendor ≡ some vendor)
        × (((override_for p image ≡ none) × (a ≡ verbatim image.vendor vendor))
            ⊎ ((override : Override) × (override_for p image ≡ some override)
                × (a ≡ overridden image.vendor vendor override)))
  unfolding vendor_for
  vendor_for_cases a h = elim (Option-cases (lookup image.vendor p.vendor)) [
    | inl e ↦ ground arith
    | inr (vendor, e) ↦ elim (Option-cases (override_for p image)) [
      | inl f ↦ (vendor, e, inl (f, ground arith))
      | inr (override, f) ↦ (vendor, e, inr (override, f, ground arith))
    ]
  ]

  -- What a project image of this image is made of.
  pub as_project_image-some :
      (i : ProjectImage V)
      → as_project_image p image ≡ some i
      → (i.image ≡ image) × (vendor_for p image ≡ some i.vendor)
  unfolding as_project_image
  as_project_image-some i h = elim (Option-cases (vendor_for p image)) [
    | inl e ↦ ground arith
    | inr (a, e) ↦
        let same : some (record { image = image; vendor = a }) ≡ some i =
          rw (e, as_project_image) at h in
        (ground arith, ground arith)
  ]

  pub vendor_name-as_project_image :
      (i : ProjectImage V) → as_project_image p image ≡ some i → vendor_name i ≡ image.vendor
  vendor_name-as_project_image i h =
      let (_, found) = as_project_image-some i h in
      let (vendor, _, cases) = vendor_for_cases i.vendor found in
      elim cases [ inl (_, e) ↦ ap vendor_name_of e | inr (override, _, e) ↦ ap vendor_name_of e ]

module _ {V L : Type 0} ⦃v : Version V⦄ (p : Project V L) (image : Image V) where
  -- Where an image of a project comes from: `original_source_uri` names the registry of its vendor in
  -- Twoliter.toml and its own name, whatever the overrides say, and `project_image_uri` puts in their
  -- place the registry and the name of the override for this vendor and this name, each if given.
  -- Both have the version of the image as their tag, and the vendor's name stays that of the image.
  pub as_project_image_uris :
      (i : ProjectImage V)
      → as_project_image p image ≡ some i
      → (vendor : Vendor) × (lookup image.vendor p.vendor ≡ some vendor)
        × (vendor_name i ≡ image.vendor)
        × (original_source_uri i ≡ record {
          registry = some vendor.registry;
          repo = image.name;
          tag = text "v" ++ v.show image.version;
        })
        × (project_image_uri i ≡ elim (override_for p image) [
          | none ↦ original_source_uri i
          | some override ↦ record {
            registry = some (or_default override.registry vendor.registry);
            repo = or_default override.name image.name;
            tag = text "v" ++ v.show image.version;
          }
        ])
  unfolding original_source_uri project_image_uri
  as_project_image_uris i h =
      let (same, found) = as_project_image-some p image i h in
      let (vendor, known, cases) = vendor_for_cases p image i.vendor found in
      elim cases [
        | inl (e, f) ↦ (vendor, known, rw f, rw (f, same), rw (e, f, same))
        | inr (override, e, f) ↦ (vendor, known, rw f, rw (f, same), rw (e, f, same))
      ]
