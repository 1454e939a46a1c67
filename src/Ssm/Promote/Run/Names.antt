-- ===== src/Ssm/Promote/Run/Names.antt =====
-- tools/pubsys/src/aws/promote_ssm/mod.rs: the names and values that `run` wants, by those it has.
use twoliter.Prelude.{
  ◌≡◌, refl, sym, subst, ap, ◌∙◌, true, none, some, List, [], ◌∷◌, Bool-cases, Option-cases, inl,
  inr, ◌⊎◌, Elem, Elem-map, Elem-append_left, Elem-append_right, map, Text,
}
use twoliter.Prelude.Classes.{◌==◌, nat_eq, list_eq}
use twoliter.Prelude.Maps.{Map, IsMap, lookup, insert, lookup-insert, insert-IsMap}
use twoliter.Ssm.{Region, SsmKey, ssm_key_eq, SsmParameters}
use twoliter.Ssm.Fetch.{at_key}
use twoliter.Ssm.Promote.Run.{keys_in, source_target_map, renamed}

pub keys_in-Elem :
    (region : Region) (template name : Text) (regions : List Region) (names : Map Text Text)
    → Elem region regions
    → Elem (template, name) names
    → Elem (at_key region name) (keys_in regions names)
unfolding keys_in
keys_in-Elem region template name [] names m h = elim m [ ]
keys_in-Elem region template name (r ∷ regions) names (inl e) h =
    Elem-append_left (at_key region name) (map (λ (t, n). at_key r n) names) (keys_in regions names)
      (subst (λ x. Elem (at_key region name) (map (λ (t, n). at_key x n) names)) e
        (Elem-map (λ (t, n). at_key region n) (template, name) names h))
keys_in-Elem region template name (r ∷ regions) names (inr m) h =
    Elem-append_right (at_key region name) (map (λ (t, n). at_key r n) names)
      (keys_in regions names) (keys_in-Elem region template name regions names m h)

-- An entry of the map of names comes from a template.
pub targets-from :
    (a b : Text) (source target m targets : Map Text Text)
    → source_target_map source target m ≡ some targets
    → lookup a targets ≡ some b
    → (lookup a m ≡ some b) ⊎ ((t : Text) × Elem (t, a) source × (lookup t target ≡ some b))
unfolding source_target_map
targets-from a b [] target m targets e h =
    let same : m ≡ targets = cc in inl (subst (λ x. lookup a x ≡ some b) (sym same) h)
targets-from a b ((t, name) ∷ source) target m targets e h = elim (Option-cases (lookup t target)) [
  | inl missing ↦ let e' : none ≡ some targets = rw (missing, source_target_map) at e in cc
  | inr (c, found) ↦
      elim (targets-from a b source target (insert name c m) targets
        (rw (found, source_target_map) at e) h) [
          | inr (u, u_in, later) ↦ inr (u, inr u_in, later)
          | inl before ↦ elim (Bool-cases (name == a)) [
            | inl same ↦
                let e' : some c ≡ some b = rw (lookup-insert name a c m, same) at before in
                let ea : a ≡ name = sym ((list_eq.eqb_iff name a).0 same) in
                inr (t, inl (cc), found ∙ e')
            | inr apart ↦ inl (rw (lookup-insert name a c m, apart) at before)
          ]
        ]
]

-- A source name that one template has is held with the target name of the template.
pub targets-held :
    (a b t : Text) (source target m targets : Map Text Text)
    → ((u : Text) → Elem (u, a) source → u ≡ t)
    → lookup t target ≡ some b
    → source_target_map source target m ≡ some targets
    → (lookup a m ≡ some b) ⊎ Elem (t, a) source
    → lookup a targets ≡ some b
unfolding source_target_map
targets-held a b t [] target m targets only found e (inl h) =
    let same : m ≡ targets = cc in subst (λ x. lookup a x ≡ some b) same h
targets-held a b t [] target m targets only found e (inr h) = elim h [ ]
targets-held a b t ((u, name) ∷ source) target m targets only found e h =
    elim (Option-cases (lookup u target)) [
      | inl missing ↦ let e' : none ≡ some targets = rw (missing, source_target_map) at e in cc
      | inr (c, there) ↦
          targets-held a b t source target (insert name c m) targets (λ w w_in. only w (inr w_in))
            found (rw (there, source_target_map) at e)
            (elim (Bool-cases (name == a)) [
              | inl same ↦
                  let ea : a ≡ name = sym ((list_eq.eqb_iff name a).0 same) in
                  let eu : u ≡ t = only u (inl (cc)) in
                  let ec : c ≡ b = cc in inl (rw (lookup-insert name a c m, same) (ap some ec))
              | inr apart ↦ elim h [
                | inl held ↦ inl (rw (lookup-insert name a c m, apart) held)
                | inr (inl first) ↦
                    let ea : name ≡ a = cc in
                    let same : (name == a) ≡ true = (list_eq.eqb_iff name a).1 ea in cc
                | inr (inr later) ↦ inr later
              ]
            ])
    ]

-- A value that all entries with a target name agree on is held under it.
pub renamed-held :
    (k : SsmKey) (v : Text) (parameters : SsmParameters) (targets : Map Text Text)
    (m wanted : SsmParameters)
    → ((j : SsmKey) (w : Text)
        → Elem (j, w) parameters
        → j.region ≡ k.region
        → lookup j.name targets ≡ some k.name
        → w ≡ v)
    → renamed parameters targets m ≡ some wanted
    → (lookup k m ≡ some v)
      ⊎ ((j : SsmKey) × Elem (j, v) parameters
          × (j.region ≡ k.region)
          × (lookup j.name targets ≡ some k.name))
    → lookup k wanted ≡ some v
unfolding renamed
renamed-held k v [] targets m wanted agree e (inl h) =
    let same : m ≡ wanted = cc in subst (λ x. lookup k x ≡ some v) same h
renamed-held k v [] targets m wanted agree e (inr (j, j_in, er, en)) = elim j_in [ ]
renamed-held k v ((i, w) ∷ parameters) targets m wanted agree e h =
    elim (Option-cases (lookup i.name targets)) [
      | inl missing ↦ let e' : none ≡ some wanted = rw (missing, renamed) at e in cc
      | inr (c, there) ↦
          let key = at_key i.region c in
          renamed-held k v parameters targets (insert key w m) wanted
            (λ j u j_in. agree j u (inr j_in)) (rw (there, renamed) at e)
            (elim (Bool-cases (key == k)) [
              | inl same ↦
                  let ek : key ≡ k = (ssm_key_eq.eqb_iff key k).0 same in
                  let er : i.region ≡ k.region = ap (λ x. x.region) ek in
                  let en : c ≡ k.name = ap (λ x. x.name) ek in
                  let ew : w ≡ v = agree i w (inl refl) er (there ∙ ap some en) in
                  inl (rw (lookup-insert key k w m, same) (ap some ew))
              | inr apart ↦ elim h [
                | inl held ↦ inl (rw (lookup-insert key k w m, apart) held)
                | inr (j, inl first, er, en) ↦
                    let ej : j ≡ i = ap (λ x. x.0) first in
                    let ec : some c ≡ some k.name =
                      sym there ∙ subst (λ x. lookup x.name targets ≡ some k.name) ej en in
                    let en' : c ≡ k.name = cc in
                    let er' : i.region ≡ k.region = subst (λ x. x.region ≡ k.region) ej er in
                    let ek : key ≡ k = ap (λ r. at_key r c) er' ∙ ap (at_key k.region) en' in
                    let same : (key == k) ≡ true = (ssm_key_eq.eqb_iff key k).1 ek in cc
                | inr (j, inr later, er, en) ↦ inr (j, later, er, en)
              ]
            ])
    ]

pub renamed-IsMap :
    (parameters : SsmParameters) (targets : Map Text Text) (m wanted : SsmParameters)
    → IsMap m
    → renamed parameters targets m ≡ some wanted
    → IsMap wanted
unfolding renamed
renamed-IsMap [] targets m wanted h e = let same : m ≡ wanted = cc in subst (λ x. IsMap x) same h
renamed-IsMap ((i, w) ∷ parameters) targets m wanted h e =
    elim (Option-cases (lookup i.name targets)) [
      | inl missing ↦ let e' : none ≡ some wanted = rw (missing, renamed) at e in cc
      | inr (c, there) ↦
          renamed-IsMap parameters targets (insert (at_key i.region c) w m) wanted
            (insert-IsMap (at_key i.region c) w m h) (rw (there, renamed) at e)
    ]

pub lookup_nil : (a b : Text) → lookup {V = Text} a [] ≡ some b → ⊥
unfolding lookup
lookup_nil a b h = cc
