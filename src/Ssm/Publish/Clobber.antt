-- ===== src/Ssm/Publish/Clobber.antt =====
-- tools/pubsys/src/aws/ssm/mod.rs: what `run` does not do without being told to: overwrite parameters,
-- and refer to private images in the public namespace.
use twoliter.Prelude.{
  ◌≡◌, ◌≢◌, refl, sym, subst, ap, ◌∙◌, Bool, true, false, Option, none, some, List, [], ◌∷◌, ◌&&◌,
  not, ℕ, map, keep, Bool-cases, Option-cases, inl, inr, ◌⊎◌, Elem, Elem-keep_of, Text,
}
use twoliter.Prelude.Classes.{◌==◌, nat_eq, list_eq}
use twoliter.Prelude.Maps.{lookup, insert, lookup-insert}
use twoliter.Prelude.Results.{Result, ok, err, ◌>>=◌, bind-ok}
use twoliter.Ami.{AmiPublicError}
use twoliter.Ssm.{
  SsmKey, ssm_key_eq, SsmParameters, is_in_public_namespace, key_difference, is_disjoint,
}
use twoliter.Ssm.Difference.{due, lookup-key_difference, key_difference-IsMap, is_disjoint-lookup}
use twoliter.Ssm.Template.{RenderedParameter, extend_ssm_parameters, as_ssm_parameters}
use twoliter.Ssm.Put.{PutLaws, Arranges, SetResult, set_parameters}
use twoliter.Ssm.Put.Live.{set_parameters_other}
use twoliter.Ssm.Fetch.{FetchLaws, get_parameters}
use twoliter.Ssm.Fetch.Found.{get_parameters_ok, IsNew}
use twoliter.Ssm.Publish.Set.{
  as_ssm_parameters-IsMap, UpdateEnds, update-UpdateEnds, PublishEnds, publish-PublishEnds,
  validated-live,
}
use twoliter.Ssm.Publish.{
  SsmArgs, World, SsmError, check_ami_public, no_private_images, publish, image_is_public,
  all_public, check_public_namespace_amis_are_public,
}

extend-Elem :
    (k : SsmKey) (v : Text) (ps : List RenderedParameter) (m : SsmParameters)
    → lookup k (extend_ssm_parameters ps m) ≡ some v
    → (lookup k m ≡ some v) ⊎ Elem k (map (λ p. p.ssm_key) ps)
unfolding extend_ssm_parameters
extend-Elem k v [] m h = inl h
extend-Elem k v (p ∷ ps) m h = elim (extend-Elem k v ps (insert p.ssm_key p.value m) h) [
  | inr later ↦ inr (inr later)
  | inl e ↦ elim (Bool-cases (p.ssm_key == k)) [
    | inl same ↦ inr (inl (sym ((ssm_key_eq.eqb_iff p.ssm_key k).0 same)))
    | inr apart ↦ inl (rw (lookup-insert p.ssm_key k p.value m, apart) at e)
  ]
]

as_ssm_parameters-Elem :
    (k : SsmKey) (v : Text) (ps : List RenderedParameter)
    → lookup k (as_ssm_parameters ps) ≡ some v
    → Elem k (map (λ p. p.ssm_key) ps)
unfolding lookup
as_ssm_parameters-Elem k v ps h = elim (extend-Elem k v ps [] h) [ inl e ↦ cc | inr m ↦ m ]

-- What is due is wanted.
due-wanted :
    (wanted current : Option Text) (v : Text)
    → due wanted current ≡ some v
    → (w : Text) × (wanted ≡ some w)
due-wanted none current v h = cc
due-wanted (some w) current v h = (w, refl)

not-false : (b : Bool) → not b ≡ false → b ≡ true
not-false true h = refl
not-false false h = cc

module _ {S : Type 0} (world : World S) (putting : PutLaws world.putting)
    (fetching : FetchLaws world.fetching putting.live) (arranges : Arranges world.putting)
    (waits : (s : S) (k : SsmKey) → putting.live (world.fetching.wait s) k ≡ putting.live s k) where
  -- Unless it may overwrite, and whatever its result, `run` leaves a parameter that is live as it is,
  -- but for one whose region refused a request because the namespace is new.
  pub publish_keeps :
      (fuel : ℕ) (args : SsmArgs) (ps : List RenderedParameter) (s s' : S)
      (r : Result SsmError Unit) (k : SsmKey) (v : Text)
      → args.allow_clobber ≡ false
      → publish world fuel args ps s ≡ some (r, s')
      → putting.live s k ≡ some v
      → (putting.live s' k ≡ some v) ⊎ IsNew world.fetching putting.live fetching s k.region
  publish_keeps fuel args ps s s' r k v careful e alive =
      of_ends (publish-PublishEnds world fuel args ps s s' r e)
    where
      Kept : Type 0
      Kept = (putting.live s' k ≡ some v) ⊎ IsNew world.fetching putting.live fetching s k.region

      of_due :
          (current : SsmParameters) (x : SetResult) (t : S)
          → let to_set = key_difference (as_ssm_parameters ps) current in
            get_parameters world.fetching s (map (λ p. p.ssm_key) ps) ≡ ok current
            → set_parameters world.putting fuel to_set s ≡ some (x, t)
            → is_disjoint current to_set ≡ true
            → putting.live t k ≡ putting.live s' k
            → Kept
      of_due current x t fetched setting apart final =
          let to_set = key_difference (as_ssm_parameters ps) current in
          elim (Option-cases (lookup k to_set)) [
            | inl h ↦ inl (
                sym final
                ∙ set_parameters_other world.putting putting arranges fuel to_set s t x k
                    (key_difference-IsMap (as_ssm_parameters ps) current) setting h
                ∙ alive)
            | inr (w, h) ↦
                let (u, wanted) =
                  due-wanted (lookup k (as_ssm_parameters ps)) (lookup k current) w (
                    sym (
                      lookup-key_difference k (as_ssm_parameters ps) current
                        (as_ssm_parameters-IsMap ps))
                    ∙ h) in
                let missing = is_disjoint-lookup k w current to_set apart h in
                elim (get_parameters_ok world.fetching putting.live fetching s
                  (map (λ p. p.ssm_key) ps) current k (as_ssm_parameters-Elem k u ps wanted)
                  fetched) [
                    | inl same ↦ let wrong : none ≡ some v = sym missing ∙ same ∙ alive in cc
                    | inr (_, new) ↦ inr new
                  ]
          ]

      of_update :
          (current : SsmParameters)
          → get_parameters world.fetching s (map (λ p. p.ssm_key) ps) ≡ ok current
          → UpdateEnds world fuel args
              (key_difference (as_ssm_parameters ps) current)
              current
              s
              r
              s'
          → Kept
      of_update current fetched (inl (same, rest)) =
          inl (subst (λ y. putting.live y k ≡ some v) same alive)
      of_update current fetched (inr (x, t, setting, allowed, done, final)) =
          let to_set = key_difference (as_ssm_parameters ps) current in
          let apart : not (is_disjoint current to_set) ≡ false = rw careful at allowed in
          of_due current x t fetched setting (not-false (is_disjoint current to_set) apart) (
            sym (validated-live world putting fetching arranges waits to_set x t k)
            ∙ ap (λ y. putting.live y k) final)

      of_ends : PublishEnds world fuel args ps s r s' → Kept
      of_ends (inl (same, x, refused)) = inl (subst (λ y. putting.live y k ≡ some v) same alive)
      of_ends (inr (current, fetched, h)) =
          of_update current fetched
            (update-UpdateEnds world fuel args (as_ssm_parameters ps) current s s' r h)

and-true : (a b : Bool) → (a && b) ≡ true → (a ≡ true) × (b ≡ true)
and-true true b h = (refl, h)
and-true false b h = cc

module _ {S : Type 0} (world : World S) (s : S) where
  all_public-Elem :
      (p : RenderedParameter) (ps : List RenderedParameter)
      → all_public world s ps ≡ ok true
      → Elem p ps
      → image_is_public world s p ≡ ok true
  all_public-Elem p [] h m = elim m [ ]
  all_public-Elem p (q ∷ ps) h m =
      let (here, e, rest_ok) =
        bind-ok (image_is_public world s q)
          (λ here. all_public world s ps >>= λ rest. ok (here && rest)) true h in
      let (rest, f, both) =
        bind-ok (all_public world s ps) (λ rest. ok (here && rest)) true rest_ok in
      let both' : (here && rest) ≡ true = cc in
      let (here_true, rest_true) = and-true here rest both' in
      elim m [
        | inl first ↦ rw first (e ∙ ap ok here_true)
        | inr later ↦ all_public-Elem p ps (f ∙ ap ok rest_true) later
      ]

  -- Unless private images are allowed, a parameter in the public namespace whose image is not found to
  -- be public has `run` end in an error that leaves the world as it is.
  pub publish_private :
      (fuel : ℕ) (args : SsmArgs) (ps : List RenderedParameter) (p : RenderedParameter)
      → args.allow_private_images ≡ false
      → Elem p ps
      → is_in_public_namespace p.ssm_key ≡ true
      → image_is_public world s p ≢ ok true
      → (e : SsmError) × (publish world fuel args ps s ≡ some (err e, s))
  unfolding publish
  publish_private fuel args ps p careful m public private =
      of_check (check_public_namespace_amis_are_public world s ps) refl
    where
      of_check :
          (r : Result AmiPublicError Bool)
          → check_public_namespace_amis_are_public world s ps ≡ r
          → (e : SsmError) × (publish world fuel args ps s ≡ some (err e, s))
      of_check (err x) f = (check_ami_public x, rw (careful, f, publish) refl)
      of_check (ok false) f = (no_private_images, rw (careful, f, publish) refl)
      of_check (ok true) f =
          let all : all_public world s (keep (λ q. is_in_public_namespace q.ssm_key) ps) ≡ ok true =
            f in
          elim (private (
            all_public-Elem p (keep (λ q. is_in_public_namespace q.ssm_key) ps) all
              (Elem-keep_of (λ q. is_in_public_namespace q.ssm_key) p ps m public))) [ ]
