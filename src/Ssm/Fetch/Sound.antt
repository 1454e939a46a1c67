-- ===== src/Ssm/Fetch/Sound.antt =====
-- tools/pubsys/src/aws/ssm/ssm.rs: the values that `get_parameters` gives, and `validate_parameters`
-- accepts, are live.
use twoliter.Prelude.{
  ◌≡◌, refl, sym, subst, ap, ◌∙◌, Option, none, some, List, [], ◌∷◌, Bool-cases, inl, inr, Elem,
  Text,
}
use twoliter.Prelude.Classes.{◌==◌, nat_eq, list_eq}
use twoliter.Prelude.Maps.{IsMap, insert-IsMap, lookup, insert, lookup-insert, lookup-insert_same}
use twoliter.Prelude.Results.{ok, err}
use twoliter.Ssm.{Region, SsmKey, ssm_key_eq, SsmParameters}
use twoliter.Ssm.Fetch.{Parameter, at_key, as_found, store, missing_in_response}

-- All values of a map are live ones.
abbrev pub IsLive : (SsmKey → Option Text) → SsmParameters → Type 0
IsLive live m = (k : SsmKey) (v : Text) → lookup k m ≡ some v → live k ≡ some v

pub insert-IsLive :
    (live : SsmKey → Option Text) (k : SsmKey) (v : Text) (m : SsmParameters)
    → live k ≡ some v
    → IsLive live m
    → IsLive live (insert k v m)
insert-IsLive live k v m h all j w e = elim (Bool-cases (k == j)) [
  | inl same ↦
      let e' : some v ≡ some w = rw (lookup-insert k j v m, same) at e in
      let ej : k ≡ j = (ssm_key_eq.eqb_iff k j).0 same in cc
  | inr apart ↦ all j w (rw (lookup-insert k j v m, apart) at e)
]

-- A value that is live and held is still held after another live one is inserted.
pub insert-held :
    (live : SsmKey → Option Text) (k j : SsmKey) (v w : Text) (m : SsmParameters)
    → live k ≡ some v
    → live j ≡ some w
    → lookup j m ≡ some w
    → lookup j (insert k v m) ≡ some w
insert-held live k j v w m hk hj e = elim (Bool-cases (k == j)) [
  | inl same ↦
      let ej : k ≡ j = (ssm_key_eq.eqb_iff k j).0 same in
      rw (lookup-insert k j v m, same) (sym hk ∙ ap live ej ∙ hj)
  | inr apart ↦ rw (lookup-insert k j v m, apart) e
]

-- The parameters of a reply are live ones.
abbrev pub AreLive : (SsmKey → Option Text) → Region → List Parameter → Type 0
AreLive live region ps =
    (name value : Text) → Elem (as_found name value) ps → live (at_key region name) ≡ some value

-- What storing a reply gives.
pub record Stores (live : SsmKey → Option Text) (region : Region) (ps : List Parameter)
    (before after : SsmParameters) : Type 0 where
  pub is_map : IsMap before → IsMap after
  pub is_live : IsLive live before → IsLive live after
  pub held :
      (k : SsmKey) (v : Text) → live k ≡ some v → lookup k before ≡ some v → lookup k after ≡ some v
  pub stored :
      (name value : Text)
      → Elem (as_found name value) ps
      → lookup (at_key region name) after ≡ some value

pub store-Stores :
    (live : SsmKey → Option Text) (region : Region) (ps : List Parameter)
    (before after : SsmParameters)
    → AreLive live region ps
    → store region ps before ≡ ok after
    → Stores live region ps before after
unfolding store
store-Stores live region [] before after h e =
    let same : before ≡ after = cc in
    record {
      is_map = λ m. subst (λ x. IsMap x) same m;
      is_live = λ all. subst (IsLive live) same all;
      held = λ k v hk held. subst (λ m. lookup k m ≡ some v) same held;
      stored = λ name value m. elim m [ ];
    }
store-Stores live region (p ∷ ps) before after h e =
    of_name (λ m f. store-Stores live region ps m after (λ n v i. h n v (inr i)) f) p.name refl
  where
    Next : Type 0
    Next = (m : SsmParameters) → store region ps m ≡ ok after → Stores live region ps m after

    of_value :
        Next
        → (name : Text) → p.name ≡ some name
        → (value : Option Text) → p.value ≡ value
        → Stores live region (p ∷ ps) before after
    of_value next name en none ev =
        let e' : err (missing_in_response region) ≡ ok after = rw (en, ev, store) at e in cc
    of_value next name en (some value) ev =
        let key = at_key region name in
        let e' : store region ps (insert key value before) ≡ ok after = rw (en, ev, store) at e in
        let this : as_found name value ≡ p = cc in
        let live_now : live key ≡ some value = h name value (inl this) in
        let later = next (insert key value before) e' in
        record {
          is_map = λ m. later.is_map (insert-IsMap key value before m);
          is_live = λ all. later.is_live (insert-IsLive live key value before live_now all);
          held = λ k v hk held.
              later.held k v hk (insert-held live key k value v before live_now hk held);
          stored = λ n v m. elim m [
            | inl first ↦
                let en' : n ≡ name = cc in
                let ev' : v ≡ value = cc in
                rw (en', ev') (later.held key value live_now (lookup-insert_same key value before))
            | inr m' ↦ later.stored n v m'
          ];
        }

    of_name : Next → (name : Option Text) → p.name ≡ name → Stores live region (p ∷ ps) before after
    of_name next none en =
        let e' : err (missing_in_response region) ≡ ok after = rw (en, store) at e in cc
    of_name next (some name) en = of_value next name en p.value refl
