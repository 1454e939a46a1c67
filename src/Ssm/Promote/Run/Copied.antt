-- ===== src/Ssm/Promote/Run/Copied.antt =====
-- tools/pubsys/src/aws/promote_ssm/mod.rs: after `run`, the target parameters have the source values.
use twoliter.Ssm.Promote.Run.Names.{
  keys_in-Elem, targets-from, targets-held, renamed-held, renamed-IsMap, lookup_nil,
}
use twoliter.Prelude.{
  is_empty, Bool, true, false, ◌||◌, ◌≡◌, refl, sym, subst, ap, ◌∙◌, ℕ, Option, none, some, List,
  [], ◌∷◌, Option-cases, inl, inr, ◌⊎◌, Elem, Text,
}
use twoliter.Prelude.Classes.{nat_eq, list_eq}
use twoliter.Prelude.Maps.{Map, IsMap, lookup, lookup-Elem, Elem-lookup}
use twoliter.Prelude.Results.{Result, ok, err}
use twoliter.Ssm.{key_difference, Region, SsmKey, ssm_key_eq, SsmParameters}
use twoliter.Ssm.Put.{PutLaws, Arranges}
use twoliter.Ssm.Fetch.{FetchLaws, FetchError, at_key, get_parameters}
use twoliter.Ssm.Fetch.Found.{get_parameters_ok, get_parameters-IsLive, get_parameters-IsMap, IsNew}
use twoliter.Ssm.Publish.{World, SsmError, update}
use twoliter.Ssm.Publish.Set.{update_ok}
use twoliter.Ssm.Promote.Run.{
  PromoteError, fetch_current, empty_source, not_updated, not_appended, panicked, keys_in,
  source_target_map, renamed, overwriting, promote_update, promote_wanted, wanted_of, promote,
}

module _ {S : Type 0} (world : World S) (putting : PutLaws world.putting)
    (fetching : FetchLaws world.fetching putting.live) (arranges : Arranges world.putting)
    (waits : (s : S) (k : SsmKey) → putting.live (world.fetching.wait s) k ≡ putting.live s k) where
  -- What `run` found when it succeeds.
  abbrev pub Promotes : ℕ → List Region → Map Text Text → Map Text Text → S → S → Type 0
  Promotes fuel regions source target s s' =
      (values : SsmParameters) × (current : SsmParameters) × (wanted : SsmParameters)
      × (get_parameters world.fetching s (keys_in regions source) ≡ ok values)
      × (get_parameters world.fetching s (keys_in regions target) ≡ ok current)
      × (wanted_of world source target values ≡ some wanted)
      × (update world fuel overwriting wanted current s ≡ some (ok tt, s'))

  promote-Promotes :
      (append : SsmParameters → Bool) (fuel : ℕ) (regions : List Region)
      (source target : Map Text Text) (s s' : S)
      → promote world append fuel regions source target s ≡ some (ok tt, s')
      → Promotes fuel regions source target s s'
  unfolding promote
  promote-Promotes append fuel regions source target s s' e =
      of_values (get_parameters world.fetching s (keys_in regions source)) refl
    where
      Done : Result PromoteError Unit → S → Type 0
      Done r t = ◌≡◌ {A = Option (Result PromoteError Unit × S)} (some (r, t)) (some (ok tt, s'))

      Done' : Option (Result PromoteError Unit × S) → Type 0
      Done' o = o ≡ some (ok tt, s')

      at_end : (t : S) → Done (ok tt) t → t ≡ s'
      at_end t h = cc

      refused : (x : PromoteError) (t : S) → Done (err x) t → ⊥
      refused x t h = cc

      updated :
          (wanted current : SsmParameters) (o : Option (Result SsmError Unit × S))
          → update world fuel overwriting wanted current s ≡ o
          → promote_update world fuel wanted current s ≡ some (ok tt, s')
          → update world fuel overwriting wanted current s ≡ some (ok tt, s')
      updated wanted current none f h = let h' : Done' none = rw (f, promote_update) at h in cc
      updated wanted current (some (err x, t)) f h =
          elim (refused (not_updated x) t (rw (f, promote_update) at h)) [ ]
      updated wanted current (some (ok tt, t)) f h =
          f ∙ ap (λ y. some (ok tt, y)) (at_end t (rw (f, promote_update) at h))

      appended :
          (wanted current : SsmParameters) (b : Bool)
          → (is_empty (key_difference wanted current) || append (key_difference wanted current)) ≡ b
          → promote_wanted world append fuel wanted current s ≡ some (ok tt, s')
          → promote_update world fuel wanted current s ≡ some (ok tt, s')
      appended wanted current false f h =
          elim (refused not_appended s (rw (f, promote_wanted) at h)) [ ]
      appended wanted current true f h = rw (f, promote_wanted) at h

      of_wanted :
          (p : SsmKey × Text) (ps current : SsmParameters)
          → get_parameters world.fetching s (keys_in regions source) ≡ ok (p ∷ ps)
          → get_parameters world.fetching s (keys_in regions target) ≡ ok current
          → (o : Option SsmParameters) → wanted_of world source target (p ∷ ps) ≡ o
          → Promotes fuel regions source target s s'
      of_wanted p ps current f g none w = elim (refused panicked s (rw (f, g, w, promote) at e)) [ ]
      of_wanted p ps current f g (some wanted) w = (
        p ∷ ps,
        current,
        wanted,
        f,
        g,
        w,
        updated wanted current (update world fuel overwriting wanted current s) refl
            (appended wanted current _ refl (rw (f, g, w, promote) at e)),
      )

      of_current :
          (p : SsmKey × Text) (ps : SsmParameters)
          → get_parameters world.fetching s (keys_in regions source) ≡ ok (p ∷ ps)
          → (o : Result FetchError SsmParameters)
          → get_parameters world.fetching s (keys_in regions target) ≡ o
          → Promotes fuel regions source target s s'
      of_current p ps f (err x) g = elim (refused (fetch_current x) s (rw (f, g, promote) at e)) [ ]
      of_current p ps f (ok current) g =
          of_wanted p ps current f g (wanted_of world source target (p ∷ ps)) refl

      of_values :
          (o : Result FetchError SsmParameters)
          → get_parameters world.fetching s (keys_in regions source) ≡ o
          → Promotes fuel regions source target s s'
      of_values (err x) f = elim (refused (fetch_current x) s (rw (f, promote) at e)) [ ]
      of_values (ok []) f = elim (refused empty_source s (rw (f, promote) at e)) [ ]
      of_values (ok (p ∷ ps)) f =
          of_current p ps f (get_parameters world.fetching s (keys_in regions target)) refl

  wanted_of-lookup :
      (source target : Map Text Text) (values wanted : SsmParameters)
      (template name target_name : Text) (region : Region) (v : Text)
      → IsMap source
      → IsMap values
      → lookup template source ≡ some name
      → lookup template target ≡ some target_name
      → ((t : Text) → lookup t source ≡ some name → t ≡ template)
      → ((t : Text) → lookup t target ≡ some target_name → t ≡ template)
      → wanted_of world source target values ≡ some wanted
      → lookup (at_key region name) values ≡ some v
      → (lookup (at_key region target_name) wanted ≡ some v) × IsMap wanted
  wanted_of-lookup source target values wanted template name target_name region v ms mv fs ft us ut
        e h =
      elim (Option-cases (source_target_map source target [])) [
        | inl missing ↦ let e' : none ≡ some wanted = rw (missing, wanted_of) at e in cc
        | inr (targets, there) ↦ of_targets targets there (rw (there, wanted_of) at e)
      ]
    where
      of_targets :
          (targets : Map Text Text)
          → source_target_map source target [] ≡ some targets
          → renamed values targets [] ≡ some wanted
          → (lookup (at_key region target_name) wanted ≡ some v) × IsMap wanted
      of_targets targets there e' =
          let held : lookup name targets ≡ some target_name =
            targets-held name target_name template source target [] targets
              (λ u u_in. us u (Elem-lookup u name source ms u_in)) ft there
              (inr (lookup-Elem template name source fs)) in
          (
            renamed-held (at_key region target_name) v values targets [] wanted
                (λ j w j_in er en. agree targets there j w j_in er en) e'
                (inr (at_key region name, lookup-Elem (at_key region name) v values h, refl, held)),
            renamed-IsMap values targets [] wanted tt e',
          )
        where
          agree :
              (targets : Map Text Text)
              → source_target_map source target [] ≡ some targets
              → (j : SsmKey) (w : Text) → Elem (j, w) values
              → j.region ≡ region
              → lookup j.name targets ≡ some target_name
              → w ≡ v
          agree targets there j w j_in er en =
              elim (targets-from j.name target_name source target [] targets there en) [
                | inl wrong ↦ elim (lookup_nil j.name target_name wrong) [ ]
                | inr (t, t_in, found) ↦
                    let et : t ≡ template = ut t found in
                    let at_t : lookup t source ≡ some j.name =
                      Elem-lookup t j.name source ms t_in in
                    let at_template : some name ≡ some j.name =
                      sym fs ∙ subst (λ x. lookup x source ≡ some j.name) et at_t in
                    let e_name : j.name ≡ name = cc in
                    let ek : j ≡ at_key region name =
                      ap (λ r. at_key r j.name) er ∙ ap (at_key region) e_name in
                    let value : some w ≡ some v =
                      sym (Elem-lookup j w values mv j_in) ∙ ap (λ x. lookup x values) ek ∙ h in
                    cc
              ]

  -- When `run` succeeds from the rendered names on, the target parameter of each template is live in each
  -- region with the value that its source parameter had, unless a request to the region was refused
  -- because the namespace is new. No other template may have the same source name, or the same target
  -- name.
  pub promote_ok :
      (append : SsmParameters → Bool) (fuel : ℕ) (regions : List Region)
      (source target : Map Text Text) (s s' : S) (template name target_name : Text)
      (region : Region) (v : Text)
      → IsMap source
      → Elem region regions
      → lookup template source ≡ some name
      → lookup template target ≡ some target_name
      → ((t : Text) → lookup t source ≡ some name → t ≡ template)
      → ((t : Text) → lookup t target ≡ some target_name → t ≡ template)
      → promote world append fuel regions source target s ≡ some (ok tt, s')
      → putting.live s (at_key region name) ≡ some v
      → (putting.live s' (at_key region target_name) ≡ some v)
        ⊎ IsNew world.fetching putting.live fetching s region
  promote_ok append fuel regions source target s s' template name target_name region v ms region_in
        fs ft us ut e alive =
      let (values, current, wanted, f, g, w, updating) =
        promote-Promotes append fuel regions source target s s' e in
      elim (get_parameters_ok world.fetching putting.live fetching s (keys_in regions source) values
        (at_key region name)
        (keys_in-Elem region template name regions source region_in
          (lookup-Elem template name source fs))
        f) [
          | inr (_, new) ↦ inr new
          | inl same ↦
              let (held, m) =
                wanted_of-lookup source target values wanted template name target_name region v ms
                  (get_parameters-IsMap world.fetching putting.live fetching s
                    (keys_in regions source) values f)
                  fs ft us ut w (same ∙ alive) in
              inl (
                update_ok world putting fetching arranges waits fuel overwriting wanted current s s'
                  (at_key region target_name) v m
                  (get_parameters-IsLive world.fetching putting.live fetching s
                    (keys_in regions target) current g)
                  updating held)
        ]
