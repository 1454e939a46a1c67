-- ===== src/Examples/Ssm.antt =====
-- Tests of the parameters in SSM: a world that throttles its first request, and one that refuses all.
use twoliter.Prelude.{
  ◌≡◌, ◌≢◌, refl, sym, subst, ap, true, false, Option, none, some, List, [], ◌∷◌, ℕ, suc, zero,
  arith, Option-cases, inl, inr, ◌⊎◌, Elem, Text, text,
}
use twoliter.Prelude.Classes.{◌==◌, nat_eq, list_eq}
use twoliter.Prelude.Maps.{Map, lookup, insert, lookup-insert, lookup-insert_same, lookup-Elem}
use twoliter.Prelude.Results.{ok, err}
use twoliter.Ami.{Image, ami_is_public}
use twoliter.Ssm.{Region, SsmKey, ssm_key_eq, SsmParameters, is_in_public_namespace}
use twoliter.Ssm.Put.{
  Response, accepted, refused, PutService, PutLaws, Arranges, SetResult, all_set, not_set,
  set_parameters,
}
use twoliter.Ssm.Put.Aged.{set_parameters_end}
use twoliter.Ssm.Put.Live.{set_parameters_ok}
use twoliter.Ssm.Put.Counted.{set_parameters-failures}
use twoliter.Ssm.Fetch.{
  Parameter, found, FetchService, FetchLaws, at_key, as_found, get_parameters, or_nil,
}
use twoliter.Ssm.Fetch.Found.{get_parameters_ok, IsNew}
use twoliter.Ssm.Template.{RenderedParameter, extend_ssm_parameters}
use twoliter.Ssm.Validate.{SsmValidationResult, validate_parameters_in_region}
use twoliter.Ssm.Validate.Statuses.{is_checked, IsResultOf, validate_parameters_in_region-IsStatus}
use twoliter.Ssm.Promote.{merge_parameters}
use twoliter.Ssm.Promote.Merge.{value_of, merge_parameters-value_of}
use twoliter.Ssm.Promote.Run.{promote}
use twoliter.Ssm.Promote.Run.Copied.{promote_ok}
use twoliter.Ssm.Input.{unknown_regions, parse_ami_input}
use twoliter.Ssm.Input.Regions.{AreDistinct, parse_ami_input_ok}
use twoliter.Ssm.Publish.{SsmArgs, World, SsmError, no_clobber, image_is_public, publish}
use twoliter.Ssm.Publish.Set.{publish_ok}
use twoliter.Ssm.Publish.Clobber.{publish_keeps, publish_private}

-- The parameters in SSM, and the number of requests to put some.
abbrev Aws : Type 0
Aws = SsmParameters × ℕ

abbrev put : SsmKey → Text → Aws → Aws × Response
put k v (m, zero) = ((m, 1), refused (some (text "ThrottlingException")))
put k v (m, suc n) = ((insert k v m, suc (suc n)), accepted)

abbrev putting : PutService Aws
putting = record { put = put; order = λ s cs. cs }

arranges : Arranges putting
arranges s c cs = (λ m. m, λ m. m)

abbrev live : Aws → SsmKey → Option Text
live s k = lookup k s.0

put_sets :
    (k : SsmKey) (v : Text) (s : Aws) → (put k v s).1 ≡ accepted → live (put k v s).0 k ≡ some v
put_sets k v (m, zero) h = cc
put_sets k v (m, suc n) h = lookup-insert_same k v m

put_keeps :
    (k other : SsmKey) (v : Text) (s : Aws)
    → (k == other) ≡ false
    → live (put k v s).0 other ≡ live s other
put_keeps k other v (m, zero) h = refl
put_keeps k other v (m, suc n) h = rw (lookup-insert k other v m, h) refl

abbrev laws : PutLaws putting
laws = record { live = live; put_sets = put_sets; put_keeps = put_keeps }

abbrev found_of : Aws → Region → List Text → List Parameter
found_of s region [] = []
found_of s region (name ∷ names) =
    let rest = found_of s region names in
    elim (live s (at_key region name)) [ none ↦ rest | some v ↦ as_found name v ∷ rest ]

abbrev invalid_of : Aws → Region → List Text → List Text
invalid_of s region [] = []
invalid_of s region (name ∷ names) =
    let rest = invalid_of s region names in
    elim (live s (at_key region name)) [ none ↦ name ∷ rest | some v ↦ rest ]

abbrev fetching : FetchService Aws
fetching = record {
  get = λ s region names. found (some (found_of s region names)) (some (invalid_of s region names));
  wait = λ s. s;
}

found_of-live :
    (s : Aws) (region : Region) (names : List Text) (name value : Text)
    → Elem (as_found name value) (found_of s region names)
    → live s (at_key region name) ≡ some value
found_of-live s region [] name value m = elim m [ ]
found_of-live s region (n ∷ names) name value m =
    of_live (live s (at_key region n)) refl (found_of-live s region names name value)
  where
    of_live :
        (o : Option Text)
        → live s (at_key region n) ≡ o
        → (Elem (as_found name value) (found_of s region names)
            → live s (at_key region name) ≡ some value)
        → live s (at_key region name) ≡ some value
    of_live none e next = next (rw (e, found_of) at m)
    of_live (some v) e next =
        let m' : (as_found name value ≡ as_found n v)
            ⊎ Elem (as_found name value) (found_of s region names) =
          rw (e, found_of) at m in
        elim m' [
          | inl same ↦ let en : name ≡ n = cc in let ev : value ≡ v = cc in rw (en, ev) e
          | inr later ↦ next later
        ]

live-found_of :
    (s : Aws) (region : Region) (names : List Text) (name value : Text)
    → Elem name names
    → live s (at_key region name) ≡ some value
    → Elem (as_found name value) (found_of s region names)
live-found_of s region [] name value m h = elim m [ ]
live-found_of s region (n ∷ names) name value (inl e) h =
    rw (subst (λ x. live s (at_key region x) ≡ some value) e h, found_of)
      (inl (ap (λ x. as_found x value) e))
live-found_of s region (n ∷ names) name value (inr m) h =
    elim (Option-cases (live s (at_key region n))) [
      | inl e ↦ rw (e, found_of) (live-found_of s region names name value m h)
      | inr (v, e) ↦ rw (e, found_of) (inr (live-found_of s region names name value m h))
    ]

found_ps :
    {ps qs : Option (List Parameter)} {xs ys : Option (List Text)}
    → found ps xs ≡ found qs ys
    → ps ≡ qs
found_ps e = cc

abbrev fetch_laws : FetchLaws fetching live
fetch_laws = record {
  found_live = λ s region names ps invalid name value e m.
      found_of-live s region names name value
        (subst (λ x. Elem (as_found name value) (or_nil x)) (sym (found_ps e)) m);
  live_found = λ s region names ps invalid name value e m h.
      subst (λ x. Elem (as_found name value) (or_nil x)) (found_ps e)
        (live-found_of s region names name value m h);
}

abbrev world : World Aws
world = record {
  putting = putting;
  fetching = fetching;
  describe = λ s region id. some (some true ∷ []);
}

abbrev image : Image
image = record { id = text "ami-1"; name = text "os"; public = none; launch_permissions = none }

abbrev key : Text → SsmKey
key name = at_key (text "us-west-2") name

abbrev parameter : Text → Text → RenderedParameter
parameter name value = record { ami = image; ssm_key = key name; value = value }

abbrev parameters : List RenderedParameter
parameters = parameter (text "/aws/a") (text "1") ∷ parameter (text "/aws/b") (text "2") ∷ []

abbrev before : Aws
before = ((key (text "/aws/a"), text "0") ∷ (key (text "/aws/c"), text "3") ∷ [], 0)

abbrev after : Aws
after = (
  (key (text "/aws/a"), text "1")
      ∷ (key (text "/aws/c"), text "3")
      ∷ (key (text "/aws/b"), text "2")
      ∷ [],
  3,
)

abbrev careless : SsmArgs
careless = record { allow_clobber = true; allow_private_images = false }

abbrev careful : SsmArgs
careful = record { allow_clobber = false; allow_private_images = false }

is_published : publish world 11 careless parameters before ≡ some (ok tt, after)
unfolding publish extend_ssm_parameters
is_published = refl

publish_ok_example : live after (key (text "/aws/a")) ≡ some (text "1")
unfolding lookup extend_ssm_parameters
publish_ok_example =
    publish_ok world laws fetch_laws arranges (λ s k. refl) 11 careless parameters before after
      (key (text "/aws/a")) (text "1") is_published refl

is_refused : publish world 11 careful parameters before ≡ some (err no_clobber, before)
unfolding publish extend_ssm_parameters
is_refused = refl

publish_keeps_example :
    (live before (key (text "/aws/a")) ≡ some (text "0"))
    ⊎ IsNew fetching live fetch_laws before (text "us-west-2")
unfolding lookup
publish_keeps_example =
    publish_keeps world laws fetch_laws arranges (λ s k. refl) 11 careful parameters before before
      (err no_clobber) (key (text "/aws/a")) (text "0") refl is_refused refl

abbrev private_world : World Aws
private_world = record {
  putting = putting;
  fetching = fetching;
  describe = λ s region id. some (some false ∷ []);
}

is_private : image_is_public private_world before (parameter (text "/aws/a") (text "1")) ≢ ok true
unfolding ami_is_public
is_private h = cc

publish_private_example :
    (e : SsmError) × (publish private_world 11 careful parameters before ≡ some (err e, before))
unfolding is_in_public_namespace
publish_private_example =
    publish_private private_world before 11 careful parameters
      (parameter (text "/aws/a") (text "1")) refl (inl refl) refl is_private

abbrev to_set : SsmParameters
to_set = (key (text "/aws/a"), text "1") ∷ (key (text "/aws/b"), text "2") ∷ []

is_set : set_parameters putting 11 to_set before ≡ some (all_set, after)
unfolding set_parameters
is_set = refl

set_parameters_ok_example : live after (key (text "/aws/c")) ≡ some (text "3")
unfolding lookup
set_parameters_ok_example =
    set_parameters_ok putting laws arranges 11 to_set before after (key (text "/aws/c"))
      (refl, (refl, tt)) is_set

set_parameters_end_example :
    (r : SetResult × Aws) × (set_parameters putting 11 to_set before ≡ some r)
set_parameters_end_example = set_parameters_end putting arranges 11 to_set before (omega arith)

abbrev denying : PutService Aws
denying = record { put = λ k v s. (s, refused (some (text "AccessDenied"))); order = λ s cs. cs }

denied : set_parameters denying 11 to_set before ≡ some (not_set 1 2, before)
unfolding set_parameters
denied = refl

set_parameters-failures_example : ◌≡◌ {A = ℕ} 1 1
set_parameters-failures_example =
    set_parameters-failures denying (text "us-west-2") (λ s c cs. (λ m. m, λ m. m)) 11 to_set before
      before 1 2 (refl, (refl, tt)) denied

abbrev requested : List SsmKey
requested = key (text "/aws/a") ∷ key (text "/aws/b") ∷ []

is_fetched : get_parameters fetching before requested ≡ ok ((key (text "/aws/a"), text "0") ∷ [])
unfolding get_parameters
is_fetched = refl

get_parameters_ok_example :
    (lookup (key (text "/aws/a")) ((key (text "/aws/a"), text "0") ∷ [])
      ≡ live before (key (text "/aws/a")))
    ⊎ ((lookup {V = Text} (key (text "/aws/a")) ((key (text "/aws/a"), text "0") ∷ []) ≡ none)
        × IsNew fetching live fetch_laws before (text "us-west-2"))
get_parameters_ok_example =
    get_parameters_ok fetching live fetch_laws before requested
      ((key (text "/aws/a"), text "0") ∷ []) (key (text "/aws/a")) (inl refl) is_fetched

abbrev live_parameters : SsmParameters
live_parameters = (key (text "/aws/a"), text "1") ∷ (key (text "/aws/c"), text "3") ∷ []

validate_parameters_in_region-IsStatus_example :
    let results = validate_parameters_in_region to_set (some live_parameters) true in
    ((k : SsmKey)
      → is_checked to_set live_parameters true k ≡ true
      → (r : SsmValidationResult) × Elem r results × IsResultOf to_set live_parameters k r)
    × ((r : SsmValidationResult)
        → Elem r results
        → (k : SsmKey) × (is_checked to_set live_parameters true k ≡ true)
          × IsResultOf to_set live_parameters k r)
unfolding lookup
validate_parameters_in_region-IsStatus_example =
    validate_parameters_in_region-IsStatus to_set live_parameters true (refl, (refl, tt))
      (refl, (refl, tt))

merge_parameters-value_of_example :
    value_of (key (text "/aws/a")) (merge_parameters live_parameters to_set) ≡ some (text "1")
unfolding lookup
merge_parameters-value_of_example =
    merge_parameters-value_of live_parameters to_set (key (text "/aws/a")) (refl, (refl, tt))
      (refl, (refl, tt))

abbrev source_names : Map Text Text
source_names = (text "{version}", text "/1.0") ∷ []

abbrev target_names : Map Text Text
target_names = (text "{version}", text "/2.0") ∷ []

abbrev unpromoted : Aws
unpromoted = ((key (text "/1.0"), text "ami-1") ∷ [], 0)

abbrev promoted : Aws
promoted = ((key (text "/1.0"), text "ami-1") ∷ (key (text "/2.0"), text "ami-1") ∷ [], 2)

is_promoted :
    promote world (λ m. true) 11 (text "us-west-2" ∷ []) source_names target_names unpromoted
    ≡ some (ok tt, promoted)
unfolding promote
is_promoted = refl

only_template :
    (t name other : Text)
    → lookup t ((text "{version}", other) ∷ []) ≡ some name
    → t ≡ text "{version}"
only_template t name other h = elim (lookup-Elem t name ((text "{version}", other) ∷ []) h) [
  | inl e ↦ ap (λ x. x.0) e
  | inr m ↦ elim m [ ]
]

promote_ok_example :
    (live promoted (key (text "/2.0")) ≡ some (text "ami-1"))
    ⊎ IsNew fetching live fetch_laws unpromoted (text "us-west-2")
unfolding lookup
promote_ok_example =
    promote_ok world laws fetch_laws arranges (λ s k. refl) (λ m. true) 11 (text "us-west-2" ∷ [])
      source_names target_names unpromoted promoted (text "{version}") (text "/1.0") (text "/2.0")
      (text "us-west-2") (text "ami-1") (refl, tt) (inl refl) refl refl
      (λ t h. only_template t (text "/1.0") (text "/1.0") h)
      (λ t h. only_template t (text "/2.0") (text "/2.0") h) is_promoted refl

abbrev input : Map Text Image
input = (text "eu-west-1", image) ∷ (text "us-west-2", image) ∷ []

is_parsed :
    parse_ami_input (text "us-west-2" ∷ []) (some (some input))
    ≡ ok ((text "us-west-2", image) ∷ [])
unfolding parse_ami_input
is_parsed = refl

is_repeated :
    parse_ami_input (text "us-west-2" ∷ text "us-west-2" ∷ []) (some (some input))
    ≡ err (unknown_regions (text "us-west-2" ∷ []))
unfolding parse_ami_input
is_repeated = refl

parse_ami_input_ok_example :
    AreDistinct (text "us-west-2" ∷ [])
    × ((r : Text)
        → Elem r (text "us-west-2" ∷ [])
        → (i : Image) × (lookup r input ≡ some i)
          × (lookup r ((text "us-west-2", image) ∷ []) ≡ some i))
parse_ami_input_ok_example =
    parse_ami_input_ok (text "us-west-2" ∷ []) input ((text "us-west-2", image) ∷ []) is_parsed
