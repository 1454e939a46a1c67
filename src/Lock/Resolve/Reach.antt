-- ===== src/Lock/Resolve/Reach.antt =====
-- The kits that a project depends on, directly or through other kits: what `Lock::resolve` of
-- twoliter/src/project/lock/mod.rs is to find.
use twoliter.Prelude.{◌≡◌, refl, sym, ap, ◌∙◌, subst, some, Elem, Text, arith}
use twoliter.Prelude.Results.{ok, bind-ok, ok_or-ok, ok_or}
use twoliter.Project.{Version, Image, ProjectImage, Project, as_project_image, project_image_uri}
use twoliter.Project.Vendors.{as_project_image-some, vendor_name-as_project_image}
use twoliter.Lock.{
  LockedImage, ImageMetadata, Registry, resolve_image, locked_image, get_manifest, calculate_digest,
  canonical_metadata, no_registry, bad_metadata,
}
use twoliter.Lock.Resolve.{key_of}

pub data Reachable {V L : Type 0} ⦃v : Version V⦄ (p : Project V L) (r : Registry V)
    : ProjectImage V → Type 0 where
  direct :
      (image : Image V) (i : ProjectImage V)
      → Elem image p.kit
      → as_project_image p image ≡ some i
      → Reachable p r i
  dependency :
      (parent : ProjectImage V) (locked : LockedImage V) (metadata : ImageMetadata V)
      (dep : Image V) (i : ProjectImage V)
      → Reachable p r parent
      → resolve_image r parent ≡ ok (locked, metadata)
      → Elem dep metadata.kits
      → as_project_image p dep ≡ some i
      → Reachable p r i

module _ {V L : Type 0} ⦃v : Version V⦄ (p : Project V L) (r : Registry V) where
  -- An image of a project is what the project makes of its name, version and vendor.
  own :
      (image : Image V) (i : ProjectImage V)
      → as_project_image p image ≡ some i
      → as_project_image p i.image ≡ some i
  own image i h =
      let (same, _) = as_project_image-some p image i h in
      subst (λ x. as_project_image p x ≡ some i) (sym same) h

  pub Reachable-own : (i : ProjectImage V) → Reachable p r i → as_project_image p i.image ≡ some i
  Reachable-own i (direct image _ _ h) = own image i h
  Reachable-own i (dependency parent locked metadata dep _ _ _ _ h) = own dep i h

  -- So its name, vendor and version determine it.
  pub Reachable-unique :
      (i j : ProjectImage V)
      → Reachable p r i
      → Reachable p r j
      → key_of i ≡ key_of j
      → i.image.version ≡ j.image.version
      → i ≡ j
  Reachable-unique i j a b same_key same_version =
      let own_i = Reachable-own i a in
      let own_j = Reachable-own j b in
      let name : i.image.name ≡ j.image.name = ap (λ k. k.0) same_key in
      let vendor : i.image.vendor ≡ j.image.vendor =
        sym (vendor_name-as_project_image p i.image i own_i)
        ∙ ap (λ k. k.1) same_key
        ∙ vendor_name-as_project_image p j.image j own_j in
      let image : i.image ≡ j.image = cc in
      some_injective (sym own_i ∙ ap (as_project_image p) image ∙ own_j)
    where
      some_injective : {A : Type 0} {a b : A} → some a ≡ some b → a ≡ b
      some_injective e = ground arith

module _ {V : Type 0} ⦃v : Version V⦄ (r : Registry V) where
  -- What a resolution that succeeds records, and where its metadata comes from.
  resolve_image-parts :
      (i : ProjectImage V) (l : LockedImage V) (m : ImageMetadata V)
      → resolve_image r i ≡ ok (l, m)
      → (l ≡ locked_image i l.digest) × ((encoded : Text) × (r.decode_metadata encoded ≡ some m))
  unfolding resolve_image
  resolve_image-parts i l m h =
      let (manifests, _, h1) = bind-ok (get_manifest r i) _ _ h in
      let (registry, _, h2) = bind-ok (ok_or no_registry (project_image_uri i).registry) _ _ h1 in
      let (digest, _, h3) = bind-ok (calculate_digest r i) _ _ h2 in
      let (canonical, _, h4) =
        bind-ok (canonical_metadata r registry (project_image_uri i).repo manifests) _ _ h3 in
      let (metadata, decoded, h5) =
        bind-ok (ok_or bad_metadata (r.decode_metadata canonical)) _ _ h4 in
      let e : l ≡ locked_image i digest = ground arith in
      let f : metadata ≡ m = ground arith in
      (
        subst (λ x. x ≡ locked_image i x.digest) (sym e) refl,
        (canonical, ok_or-ok bad_metadata _ m (decoded ∙ ap ok f)),
      )

  pub resolve_image-ok :
      (i : ProjectImage V) (l : LockedImage V) (m : ImageMetadata V)
      → resolve_image r i ≡ ok (l, m)
      → l ≡ locked_image i l.digest
  resolve_image-ok i l m h = (resolve_image-parts i l m h).0

  pub resolve_image-decoded :
      (i : ProjectImage V) (l : LockedImage V) (m : ImageMetadata V)
      → resolve_image r i ≡ ok (l, m)
      → (encoded : Text) × (r.decode_metadata encoded ≡ some m)
  resolve_image-decoded i l m h = (resolve_image-parts i l m h).1
