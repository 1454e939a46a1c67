-- ===== src/Ssm/Input/Regions.antt =====
-- tools/pubsys/src/aws/ssm/mod.rs: which regions `parse_ami_input` accepts.
use twoliter.Prelude.{
  ◌≡◌, refl, sym, ap, ◌∙◌, Option, none, some, List, [], ◌∷◌, Bool-cases, Option-cases, inl, inr,
  Elem, Text,
}
use twoliter.Prelude.Classes.{◌==◌, nat_eq, list_eq, eqb_refl}
use twoliter.Prelude.Maps.{
  Map, lookup, insert, remove, lookup-insert, lookup-insert_same, lookup-remove,
}
use twoliter.Prelude.Results.{ok, err}
use twoliter.Ami.{Image}
use twoliter.Ssm.Input.{unknown_regions, unknown_of, take_regions, parse_ami_input}

-- No region stands twice.
abbrev pub AreDistinct : List Text → Type 0
AreDistinct [] = Unit
AreDistinct (r ∷ rs) = (Elem r rs → ⊥) × AreDistinct rs

some-none : (image : Image) → ◌≡◌ {A = Option Image} (some image) none → ⊥
some-none image h = cc

removed : (r : Text) (input : Map Text Image) → lookup r (remove r input) ≡ none
removed r input = lookup-remove r r input ∙ rw (eqb_refl r) refl

-- What is taken of a region whose image is not in the input any more.
take_regions-held :
    (r : Text) (regions : List Text) (input amis after : Map Text Image)
    → lookup r input ≡ none
    → take_regions regions input amis ≡ ok after
    → lookup r after ≡ lookup r amis
unfolding take_regions
take_regions-held r [] input amis after h e =
    let same : amis ≡ after = cc in ap (lookup r) (sym same)
take_regions-held r (name ∷ regions) input amis after h e =
    elim (Option-cases (lookup name input)) [
      | inl missing ↦
          let e' : err (unknown_regions (name ∷ [])) ≡ ok after = rw (missing, take_regions) at e in
          cc
      | inr (image, there) ↦ elim (Bool-cases (name == r)) [
        | inl same ↦
            let en : name ≡ r = (list_eq.eqb_iff name r).0 same in
            let wrong : ◌≡◌ {A = Option Image} (some image) none =
              sym there ∙ ap (λ x. lookup x input) en ∙ h in
            elim (some-none image wrong) [ ]
        | inr apart ↦
            let gone : lookup r (remove name input) ≡ none =
              lookup-remove name r input ∙ rw apart h in
            take_regions-held r regions (remove name input) (insert name image amis) after gone
              (rw (there, take_regions) at e)
            ∙ lookup-insert name r image amis
            ∙ rw apart refl
      ]
    ]

take_regions-ok :
    (regions : List Text) (input amis after : Map Text Image)
    → take_regions regions input amis ≡ ok after
    → AreDistinct regions
      × ((r : Text)
          → Elem r regions
          → (image : Image) × (lookup r input ≡ some image) × (lookup r after ≡ some image))
unfolding take_regions
take_regions-ok [] input amis after e = (tt, λ r m. elim m [ ])
take_regions-ok (name ∷ regions) input amis after e = elim (Option-cases (lookup name input)) [
  | inl missing ↦
      let e' : err (unknown_regions (name ∷ [])) ≡ ok after = rw (missing, take_regions) at e in cc
  | inr (image, there) ↦
      let e' = rw (there, take_regions) at e in
      let (distinct, images) =
        take_regions-ok regions (remove name input) (insert name image amis) after e' in
      let held =
        take_regions-held name regions (remove name input) (insert name image amis) after
          (removed name input) e'
        ∙ lookup-insert_same name image amis in
      (
        (
          λ again.
              let (other, found, _) = images name again in
              let wrong : some other ≡ none = sym found ∙ removed name input in cc,
          distinct,
        ),
        λ r m. elim m [
          | inl first ↦
              (image, ap (λ x. lookup x input) first ∙ there, ap (λ x. lookup x after) first ∙ held)
          | inr later ↦ elim (Bool-cases (name == r)) [
            | inl same ↦
                let en : name ≡ r = (list_eq.eqb_iff name r).0 same in
                (
                  image,
                  ap (λ x. lookup x input) (sym en) ∙ there,
                  ap (λ x. lookup x after) (sym en) ∙ held,
                )
            | inr apart ↦
                let (i, found, taken) = images r later in
                (i, sym (lookup-remove name r input ∙ rw apart refl) ∙ found, taken)
          ]
        ],
      )
]

-- When the input is accepted, each requested region has its image of the input, and no region was
-- requested twice, since its image is taken out of the input the first time.
pub parse_ami_input_ok :
    (regions : List Text) (input amis : Map Text Image)
    → parse_ami_input regions (some (some input)) ≡ ok amis
    → AreDistinct regions
      × ((r : Text)
          → Elem r regions
          → (image : Image) × (lookup r input ≡ some image) × (lookup r amis ≡ some image))
unfolding parse_ami_input
parse_ami_input_ok regions [] amis e = cc
parse_ami_input_ok regions (entry ∷ input) amis e =
    of_unknown (unknown_of regions (entry ∷ input)) refl
  where
    of_unknown :
        (unknown : List Text)
        → unknown_of regions (entry ∷ input) ≡ unknown
        → AreDistinct regions
          × ((r : Text)
              → Elem r regions
              → (image : Image) × (lookup r (entry ∷ input) ≡ some image)
                × (lookup r amis ≡ some image))
    of_unknown (r ∷ rs) f =
        let e' : err (unknown_regions (r ∷ rs)) ≡ ok amis = rw (f, parse_ami_input) at e in cc
    of_unknown [] f = take_regions-ok regions (entry ∷ input) [] amis (rw (f, parse_ami_input) at e)
