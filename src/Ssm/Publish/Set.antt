-- ===== src/Ssm/Publish/Set.antt =====
-- tools/pubsys/src/aws/ssm/mod.rs: after `run` without an error, all parameters are live.
use twoliter.Prelude.{
  ◌≡◌, refl, subst, ap, ◌∙◌, Bool, true, false, Option, none, some, List, [], ◌∷◌, ◌&&◌, not, ℕ,
  suc, zero, map, Bool-cases, inl, inr, ◌⊎◌, Text, is_empty,
}
use twoliter.Prelude.Classes.{◌==◌, nat_eq, list_eq}
use twoliter.Prelude.Maps.{IsMap, lookup, insert, insert-IsMap}
use twoliter.Prelude.Results.{Result, ok, err}
use twoliter.Ami.{AmiPublicError}
use twoliter.Ssm.{SsmKey, ssm_key_eq, SsmParameters, key_difference, is_disjoint}
use twoliter.Ssm.Difference.{due, lookup-key_difference, key_difference-IsMap}
use twoliter.Ssm.Template.{RenderedParameter, extend_ssm_parameters, as_ssm_parameters}
use twoliter.Ssm.Put.{PutLaws, Arranges, SetResult, all_set, throttled, not_set, set_parameters}
use twoliter.Ssm.Put.Live.{set_parameters_other}
use twoliter.Ssm.Fetch.{
  FetchLaws, FetchError, get_parameters, validate_parameters, validate_parameters_inner,
}
use twoliter.Ssm.Fetch.Sound.{IsLive}
use twoliter.Ssm.Fetch.Found.{get_parameters-IsLive, validate_parameters_ok}
use twoliter.Ssm.Publish.{
  SsmArgs, World, SsmError, check_ami_public, no_private_images, fetch_ssm, no_clobber,
  validation_retries, validated, validation_result, update, fetched_and_updated, publish,
  check_public_namespace_amis_are_public,
}

-- A wanted value is due, or it is the current one.
due-cases :
    (v : Text) (current : Option Text)
    → (due (some v) current ≡ some v) ⊎ ((due (some v) current ≡ none) × (current ≡ some v))
due-cases v none = inl refl
due-cases v (some w) = elim (Bool-cases (w == v)) [
  | inl same ↦ inr (rw same refl, ap some ((list_eq.eqb_iff w v).0 same))
  | inr other ↦ inl (rw other refl)
]

extend-IsMap :
    (ps : List RenderedParameter) (m : SsmParameters) → IsMap m → IsMap (extend_ssm_parameters ps m)
unfolding extend_ssm_parameters
extend-IsMap [] m h = h
extend-IsMap (p ∷ ps) m h =
    extend-IsMap ps (insert p.ssm_key p.value m) (insert-IsMap p.ssm_key p.value m h)

pub as_ssm_parameters-IsMap : (ps : List RenderedParameter) → IsMap (as_ssm_parameters ps)
as_ssm_parameters-IsMap ps = extend-IsMap ps [] tt

ended :
    {S : Type 0} (x r : Result SsmError Unit) (t s' : S)
    → ◌≡◌ {A = Option (Result SsmError Unit × S)} (some (x, t)) (some (r, s'))
    → (x ≡ r) × (t ≡ s')
ended x r t s' h = (cc, cc)

module _ {S : Type 0} (world : World S) where
  -- How an update ends: nothing is set, or it is set and validated.
  abbrev pub UpdateEnds :
      ℕ → SsmArgs → SsmParameters → SsmParameters → S → Result SsmError Unit → S → Type 0
  UpdateEnds fuel args to_set current s r s' =
      ((s ≡ s') × ((is_empty to_set ≡ true) ⊎ (err no_clobber ≡ r)))
      ⊎ ((x : SetResult) × (t : S) × (set_parameters world.putting fuel to_set s ≡ some (x, t))
          × ((not args.allow_clobber && not (is_disjoint current to_set)) ≡ false)
          × ((validated world to_set x t).0 ≡ r)
          × ((validated world to_set x t).1 ≡ s'))

  pub update-UpdateEnds :
      (fuel : ℕ) (args : SsmArgs) (wanted current : SsmParameters) (s s' : S)
      (r : Result SsmError Unit)
      → update world fuel args wanted current s ≡ some (r, s')
      → UpdateEnds fuel args (key_difference wanted current) current s r s'
  unfolding update
  update-UpdateEnds fuel args wanted current s s' r e = elim (Bool-cases (is_empty to_set)) [
    | inl nothing ↦ inl ((ended (ok tt) r s s' (rw (nothing, update) at e)).1, inl nothing)
    | inr more ↦ elim (Bool-cases (not args.allow_clobber && not (is_disjoint current to_set))) [
      | inl clobbers ↦
          let (er, es) = ended (err no_clobber) r s s' (rw (more, clobbers, update) at e) in
          inl (es, inr er)
      | inr allowed ↦ inr (
          of_set (set_parameters world.putting fuel to_set s) refl allowed
            (rw (more, allowed, update) at e))
    ]
  ]
    where
      to_set : SsmParameters
      to_set = key_difference wanted current

      of_set :
          (o : Option (SetResult × S))
          → set_parameters world.putting fuel to_set s ≡ o
          → (not args.allow_clobber && not (is_disjoint current to_set)) ≡ false
          → ◌≡◌ {A = Option (Result SsmError Unit × S)}
              (elim o [ none ↦ none | some (x, t) ↦ some (validated world to_set x t) ])
              (some (r, s'))
          → (x : SetResult) × (t : S) × (set_parameters world.putting fuel to_set s ≡ some (x, t))
            × ((not args.allow_clobber && not (is_disjoint current to_set)) ≡ false)
            × ((validated world to_set x t).0 ≡ r)
            × ((validated world to_set x t).1 ≡ s')
      of_set none f allowed h = cc
      of_set (some (x, t)) f allowed h =
          let (er, es) =
            ended (validated world to_set x t).0 r (validated world to_set x t).1 s' h in
          (x, t, f, allowed, er, es)

module _ {S : Type 0} (world : World S) where
  -- How `run` ends: it is refused before anything is set, or it updates what it fetched.
  abbrev pub PublishEnds :
      ℕ → SsmArgs → List RenderedParameter → S → Result SsmError Unit → S → Type 0
  PublishEnds fuel args ps s r s' =
      ((s ≡ s') × (x : SsmError) × (err x ≡ r))
      ⊎ ((current : SsmParameters) × (get_parameters world.fetching s (map (λ p. p.ssm_key) ps)
            ≡ ok current)
          × (update world fuel args (as_ssm_parameters ps) current s ≡ some (r, s')))

  pub publish-PublishEnds :
      (fuel : ℕ) (args : SsmArgs) (ps : List RenderedParameter) (s s' : S)
      (r : Result SsmError Unit)
      → publish world fuel args ps s ≡ some (r, s')
      → PublishEnds fuel args ps s r s'
  unfolding publish
  publish-PublishEnds fuel args ps s s' r e = of_private args.allow_private_images refl
    where
      of_current :
          (o : Result FetchError SsmParameters)
          → get_parameters world.fetching s (map (λ p. p.ssm_key) ps) ≡ o
          → fetched_and_updated world fuel args ps s ≡ some (r, s')
          → PublishEnds fuel args ps s r s'
      of_current (err x) f h =
          let (er, es) = ended (err (fetch_ssm x)) r s s' (rw (f, fetched_and_updated) at h) in
          inl (es, fetch_ssm x, er)
      of_current (ok current) f h = inr (current, f, rw (f, fetched_and_updated) at h)

      of_checked :
          (o : Result AmiPublicError Bool)
          → check_public_namespace_amis_are_public world s ps ≡ o
          → args.allow_private_images ≡ false
          → PublishEnds fuel args ps s r s'
      of_checked (err x) f g =
          let (er, es) = ended (err (check_ami_public x)) r s s' (rw (g, f, publish) at e) in
          inl (es, check_ami_public x, er)
      of_checked (ok false) f g =
          let (er, es) = ended (err no_private_images) r s s' (rw (g, f, publish) at e) in
          inl (es, no_private_images, er)
      of_checked (ok true) f g =
          of_current (get_parameters world.fetching s (map (λ p. p.ssm_key) ps)) refl
            (rw (g, f, publish) at e)

      of_private : (b : Bool) → args.allow_private_images ≡ b → PublishEnds fuel args ps s r s'
      of_private true f =
          of_current (get_parameters world.fetching s (map (λ p. p.ssm_key) ps)) refl
            (rw (f, publish) at e)
      of_private false f = of_checked (check_public_namespace_amis_are_public world s ps) refl f

lookup-empty : (k : SsmKey) (m : SsmParameters) → is_empty m ≡ true → lookup k m ≡ none
unfolding lookup
lookup-empty k [] h = refl
lookup-empty k (x ∷ m) h = cc

module _ {S : Type 0} (world : World S) (putting : PutLaws world.putting)
    (fetching : FetchLaws world.fetching putting.live) (arranges : Arranges world.putting)
    (waits : (s : S) (k : SsmKey) → putting.live (world.fetching.wait s) k ≡ putting.live s k) where
  validate-live :
      (retries : ℕ) (expected : SsmParameters) (s : S) (k : SsmKey)
      → putting.live (validate_parameters world.fetching retries expected s).1 k ≡ putting.live s k
  unfolding validate_parameters
  validate-live zero expected s k = refl
  validate-live (suc retries) expected s k =
      of_result (validate-live retries expected (world.fetching.wait s) k ∙ waits s k)
        (validate_parameters_inner world.fetching s expected) refl
    where
      of_result :
          putting.live
              (validate_parameters world.fetching retries expected (world.fetching.wait s)).1
              k
            ≡ putting.live s k
          → (r : Result FetchError Unit) → validate_parameters_inner world.fetching s expected ≡ r
          → putting.live (validate_parameters world.fetching (suc retries) expected s).1 k
            ≡ putting.live s k
      of_result next (ok t) f = rw (f, validate_parameters) refl
      of_result next (err x) f = rw (f, validate_parameters) next

  pub validated-live :
      (to_set : SsmParameters) (x : SetResult) (s : S) (k : SsmKey)
      → putting.live (validated world to_set x s).1 k ≡ putting.live s k
  validated-live to_set all_set s k = validate-live validation_retries to_set s k
  validated-live to_set (throttled interval) s k = refl
  validated-live to_set (not_set failures total) s k = refl

  validated-ok :
      (to_set : SsmParameters) (x : SetResult) (s : S) (k : SsmKey) (v : Text)
      → (validated world to_set x s).0 ≡ ok tt
      → lookup k to_set ≡ some v
      → putting.live (validated world to_set x s).1 k ≡ some v
  validated-ok to_set all_set s k v h e =
      validate_parameters_ok world.fetching putting.live fetching validation_retries to_set s k v
        (of_result (validate_parameters world.fetching validation_retries to_set s).0 h) e
    where
      of_result : (r : Result FetchError Unit) → validation_result r ≡ ok tt → r ≡ ok tt
      of_result (ok tt) h = refl
      of_result (err x) h = cc
  validated-ok to_set (throttled interval) s k v h e = cc
  validated-ok to_set (not_set failures total) s k v h e = cc

  pub update_ok :
      (fuel : ℕ) (args : SsmArgs) (wanted current : SsmParameters) (s s' : S) (k : SsmKey)
      (v : Text)
      → IsMap wanted
      → IsLive (putting.live s) current
      → update world fuel args wanted current s ≡ some (ok tt, s')
      → lookup k wanted ≡ some v
      → putting.live s' k ≡ some v
  update_ok fuel args wanted current s s' k v m lives e w =
      let due_now : lookup k (key_difference wanted current) ≡ due (some v) (lookup k current) =
        rw w at (lookup-key_difference k wanted current m) in
      let ends = update-UpdateEnds world fuel args wanted current s s' (ok tt) e in
      elim (due-cases v (lookup k current)) [
        | inl now ↦ of_due ends (due_now ∙ now)
        | inr (not_now, live_now) ↦ of_live ends (due_now ∙ not_now) (lives k v live_now)
      ]
    where
      to_set : SsmParameters
      to_set = key_difference wanted current

      of_due :
          UpdateEnds world fuel args to_set current s (ok tt) s'
          → lookup k to_set ≡ some v
          → putting.live s' k ≡ some v
      of_due (inl (same, inl nothing)) h = let none_due = lookup-empty k to_set nothing in cc
      of_due (inl (same, inr refused)) h = cc
      of_due (inr (x, t, setting, allowed, done, final)) h =
          subst (λ y. putting.live y k ≡ some v) final (validated-ok to_set x t k v done h)

      of_live :
          UpdateEnds world fuel args to_set current s (ok tt) s'
          → lookup k to_set ≡ none
          → putting.live s k ≡ some v
          → putting.live s' k ≡ some v
      of_live (inl (same, rest)) h alive = subst (λ y. putting.live y k ≡ some v) same alive
      of_live (inr (x, t, setting, allowed, done, final)) h alive =
          subst (λ y. putting.live y k ≡ some v) final
            (validated-live to_set x t k
              ∙ set_parameters_other world.putting putting arranges fuel to_set s t x k
                  (key_difference-IsMap wanted current) setting h
              ∙ alive)

  -- When `run` succeeds, each parameter that was rendered is live with its rendered value, if the world
  -- does what is documented of SSM, and nobody else changes parameters while it waits.
  pub publish_ok :
      (fuel : ℕ) (args : SsmArgs) (ps : List RenderedParameter) (s s' : S) (k : SsmKey) (v : Text)
      → publish world fuel args ps s ≡ some (ok tt, s')
      → lookup k (as_ssm_parameters ps) ≡ some v
      → putting.live s' k ≡ some v
  publish_ok fuel args ps s s' k v e w =
      of_ends (publish-PublishEnds world fuel args ps s s' (ok tt) e)
    where
      of_ends : PublishEnds world fuel args ps s (ok tt) s' → putting.live s' k ≡ some v
      of_ends (inl (same, x, wrong)) = cc
      of_ends (inr (current, fetched, h)) =
          update_ok fuel args (as_ssm_parameters ps) current s s' k v (as_ssm_parameters-IsMap ps)
            (get_parameters-IsLive world.fetching putting.live fetching s (map (λ p. p.ssm_key) ps)
              current fetched)
            h w
