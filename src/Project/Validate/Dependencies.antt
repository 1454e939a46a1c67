-- ===== src/Project/Validate/Dependencies.antt =====
-- twoliter/src/project/mod.rs: a validated project knows the vendors of what it depends on.
use twoliter.Prelude.{
  ◌≡◌, sym, ap, ◌∙◌, subst, true, Option, none, some, List, [], ◌∷◌, Elem, Elem-append_left,
  Elem-append_right, Text, text, arith, Bool-cases, Option-cases, inl, inr, ◌⊎◌,
}
use twoliter.Prelude.Classes.{nat_eq, list_eq, list_eqb_iff, ◌==◌}
use twoliter.Prelude.Maps.{Map, lookup}
use twoliter.Prelude.Results.{ok, bind-ok}
use twoliter.Project.{
  Image, Vendor, Project, ProjectImage, as_project_image, override_for, verbatim, overridden,
}
use twoliter.Project.Validate.{
  UnvalidatedProject, Toml, Components, show_path, list_or_empty, dependency_list, has_vendor,
  check_each, check_vendor_availability, check_release_toml, check_and_load_overrides, validated,
  validate, release,
}

module _ {V : Type 0} where
  check_each-at :
      (vendor : Option (Map Text Vendor)) (dependencies : List (Image V)) (image : Image V)
      → check_each vendor dependencies ≡ ok tt
      → Elem image dependencies
      → has_vendor vendor image ≡ true
  check_each-at vendor [] image h m = elim m [ ]
  check_each-at vendor (d ∷ ds) image h m = elim (Bool-cases (has_vendor vendor d)) [
    | inl known ↦ elim m [
      | inl here ↦ subst (λ x. has_vendor vendor x ≡ true) (sym here) known
      | inr later ↦ check_each-at vendor ds image (rw known at h) later
    ]
    | inr missing ↦ ground arith
  ]

  has_vendor-lookup :
      (vendor : Option (Map Text Vendor)) (image : Image V)
      → has_vendor vendor image ≡ true
      → (found : Vendor) × (lookup image.vendor (list_or_empty vendor) ≡ some found)
  has_vendor-lookup none image h = ground arith
  has_vendor-lookup (some vendors) image h = elim (Option-cases (lookup image.vendor vendors)) [
    | inl e ↦ ground arith
    | inr (found, e) ↦ (found, e)
  ]

  as_project_image-known :
      {L : Type 0} (p : Project V L) (image : Image V) (found : Vendor)
      → lookup image.vendor p.vendor ≡ some found
      → (i : ProjectImage V) × (as_project_image p image ≡ some i)
  unfolding as_project_image
  as_project_image-known p image found h = elim (Option-cases (override_for p image)) [
    | inl e ↦ (record { image = image; vendor = verbatim image.vendor found }, ground arith)
    | inr (override, e) ↦
        (record { image = image; vendor = overridden image.vendor found override }, ground arith)
  ]

  Elem-dependency_list :
      (u : UnvalidatedProject V) (image : Image V)
      → Elem image (list_or_empty u.kit) ⊎ (u.sdk ≡ some image)
      → Elem image (dependency_list u)
  Elem-dependency_list u image h = elim (Option-cases u.sdk) [
    | inl e ↦ elim h [ inl m ↦ rw e m | inr f ↦ ground arith ]
    | inr (sdk, e) ↦ elim h [
      | inl m ↦ rw e (Elem-append_left image (list_or_empty u.kit) (sdk ∷ []) m)
      | inr f ↦
          let same : image ≡ sdk = ground arith in
          rw e (Elem-append_right image (list_or_empty u.kit) (sdk ∷ []) (inl same))
    ]
  ]

  module _ (toml : Toml V) (files : Map Text Text) where
    -- A project that `validate` returns has a vendor for each of its kits and for its SDK, so that
    -- each of them has a project image, and its release version is the one of Release.toml, if that
    -- file is there and has a version.
    pub validate_ok :
        (u : UnvalidatedProject V) (name : Text) (dir : Components) (p : Project V Unit)
        → validate toml files u (name ∷ dir) ≡ ok p
        → ((image : Image V)
            → Elem image p.kit ⊎ (p.sdk ≡ some image)
            → (i : ProjectImage V) × (as_project_image p image ≡ some i))
          × ((content version : Text)
              → lookup (show_path (text "Release.toml" ∷ dir)) files ≡ some content
              → toml.parse_release content ≡ release version
              → version ≡ p.release_version)
    unfolding validate check_vendor_availability check_release_toml
    validate_ok u name dir p h =
        let (a, available, h2) = bind-ok (check_vendor_availability u) _ _ h in
        let (b, checked, h3) = bind-ok (check_release_toml toml files u dir) _ _ h2 in
        let (overrides, _, h4) = bind-ok (check_and_load_overrides toml files dir) _ _ h3 in
        let whole : validated toml files u (name ∷ dir) dir overrides ≡ p = ground arith in
        (
          λ image m.
              let listed : Elem image (list_or_empty u.kit) ⊎ (u.sdk ≡ some image) =
                subst (λ x. Elem image x.kit ⊎ (x.sdk ≡ some image)) (sym whole) m in
              let (vendor, known) = has_vendor-lookup u.vendor image (
                check_each-at u.vendor (dependency_list u) image available
                  (Elem-dependency_list u image listed)) in
              subst (λ x. (i : ProjectImage V) × (as_project_image x image ≡ some i)) whole
                (as_project_image-known (validated toml files u (name ∷ dir) dir overrides) image
                  vendor known),
          λ content version present parsed. elim (Bool-cases (version == u.release_version)) [
            | inl same ↦
                (list_eqb_iff nat_eq version u.release_version).0 same
                ∙ ap (λ x. x.release_version) whole
            | inr other ↦ ground arith
          ],
        )
