-- ===== src/Ssm/Fetch/Found.antt =====
-- tools/pubsys/src/aws/ssm/ssm.rs: `get_parameters` finds what is live, but for the regions whose
-- namespace is new, and what `validate_parameters` accepts is live.
use twoliter.Prelude.{
  ◌≡◌, refl, sym, subst, ap, ◌∙◌, true, false, Option, none, some, List, [], ◌∷◌, ℕ, suc, zero, ◌+◌,
  Bool-cases, Option-cases, inl, inr, ◌⊎◌, Elem, Text, length, contains, if◌then◌else◌,
  ◌==◌ as eq_ℕ,
}
use twoliter.Prelude.Classes.{◌==◌, nat_eq, list_eq}
use twoliter.Prelude.Maps.{IsMap, lookup}
use twoliter.Prelude.Results.{Result, ok, err, ◌>>=◌, bind-ok}
use twoliter.Ssm.{Region, SsmKey, ssm_key_eq, SsmParameters}
use twoliter.Ssm.Fetch.Chunks.{requests_of-regional_names}
use twoliter.Ssm.Fetch.Sound.{IsLive, store-Stores}
use twoliter.Ssm.Fetch.{
  Reply, found, failed, FetchService, FetchLaws, FetchError, at_key, or_nil, regional_names,
  requests_of, store, invalid_namespace, collect, get_parameters, all_match, keys_of,
  validate_parameters_inner, validate_parameters, missing_in_response, get_failed, not_valid,
}

module _ {S : Type 0} (service : FetchService S) (live : S → SsmKey → Option Text)
    (laws : FetchLaws service live) (s : S) where
  -- A request to the region was refused because its namespace is new.
  abbrev pub IsNew : Region → Type 0
  IsNew region =
      (names : List Text) × (message : Text) × (service.get s region names ≡ failed message)
      × (contains message invalid_namespace ≡ true)

  -- The live ones of the names are held.
  abbrev pub Holds : Region → List Text → SsmParameters → Type 0
  Holds region names after =
      (name value : Text)
      → Elem name names
      → live s (at_key region name) ≡ some value
      → lookup (at_key region name) after ≡ some value

  pub record Collects (requests : List (Region × List Text)) (before after : SsmParameters)
      : Type 0 where
    pub is_map : IsMap before → IsMap after
    pub is_live : IsLive (live s) before → IsLive (live s) after
    pub held :
        (k : SsmKey) (v : Text)
        → live s k ≡ some v
        → lookup k before ≡ some v
        → lookup k after ≡ some v
    pub collected :
        (region : Region) (names : List Text)
        → Elem (region, names) requests
        → IsNew region ⊎ Holds region names after

  collect-Collects :
      (requests : List (Region × List Text)) (before after : SsmParameters)
      → collect service s requests before ≡ ok after
      → Collects requests before after
  unfolding collect
  collect-Collects [] before after e =
      let same : before ≡ after = cc in
      record {
        is_map = λ m. subst (λ x. IsMap x) same m;
        is_live = λ all. subst (IsLive (live s)) same all;
        held = λ k v hk held. subst (λ m. lookup k m ≡ some v) same held;
        collected = λ region names m. elim m [ ];
      }
  collect-Collects ((region, names) ∷ requests) before after e =
      of_reply (λ m f. collect-Collects requests m after f) (service.get s region names) refl
    where
      Next : Type 0
      Next =
          (m : SsmParameters) → collect service s requests m ≡ ok after → Collects requests m after

      -- The rest of the requests, and how this one was answered.
      extend :
          (m : SsmParameters)
          → Collects requests m after
          → (IsMap before → IsMap m)
          → (IsLive (live s) before → IsLive (live s) m)
          → ((k : SsmKey) (v : Text)
              → live s k ≡ some v
              → lookup k before ≡ some v
              → lookup k m ≡ some v)
          → IsNew region ⊎ Holds region names m
          → Collects ((region, names) ∷ requests) before after
      extend m rest maps lives holds this = record {
        is_map = λ x. rest.is_map (maps x);
        is_live = λ all. rest.is_live (lives all);
        held = λ k v hk held. rest.held k v hk (holds k v hk held);
        collected = λ r ns i. elim i [
          | inl here ↦
              subst (λ x. IsNew x.0 ⊎ Holds x.0 x.1 after) (sym here)
                (elim this [
                  | inl new ↦ inl new
                  | inr held ↦ inr (λ name value n h.
                      rest.held (at_key region name) value h (held name value n h))
                ])
          | inr later ↦ rest.collected r ns later
        ];
      }

      of_reply :
          Next
          → (reply : Reply) → service.get s region names ≡ reply
          → Collects ((region, names) ∷ requests) before after
      of_reply next (failed message) r = elim (Bool-cases (contains message invalid_namespace)) [
        | inl new ↦
            let e' : collect service s requests before ≡ ok after = rw (r, new, collect) at e in
            extend before (next before e') (λ m. m) (λ all. all) (λ k v hk h. h)
              (inl (names, message, r, new))
        | inr other ↦
            let e' : err (get_failed region message) ≡ ok after = rw (r, other, collect) at e in cc
      ]
      of_reply next (found ps invalid) r =
          elim (Bool-cases (eq_ℕ (length (or_nil ps) + length (or_nil invalid)) (length names))) [
            | inl counted ↦
                let e' : (store region (or_nil ps) before >>= λ m. collect service s requests m)
                    ≡ ok after =
                  rw (r, counted, collect) at e in
                let (m, stored, rest) =
                  bind-ok (store region (or_nil ps) before) (λ m. collect service s requests m)
                    after e' in
                let st =
                  store-Stores (live s) region (or_nil ps) before m
                    (λ n v i. laws.found_live s region names ps invalid n v r i) stored in
                extend m (next m rest) st.is_map st.is_live st.held (
                  inr (λ n v i h.
                    st.stored n v (laws.live_found s region names ps invalid n v r i h)))
            | inr short ↦
                let e' : err (missing_in_response region) ≡ ok after =
                  rw (r, short, collect) at e in
                cc
          ]

  nil-IsLive : IsLive (live s) []
  unfolding lookup
  nil-IsLive k v e = cc

  pub get_parameters-IsLive :
      (requested : List SsmKey) (after : SsmParameters)
      → get_parameters service s requested ≡ ok after
      → IsLive (live s) after
  unfolding get_parameters
  get_parameters-IsLive requested after e =
      (collect-Collects (requests_of (regional_names requested [])) [] after e).is_live nil-IsLive

  pub get_parameters-IsMap :
      (requested : List SsmKey) (after : SsmParameters)
      → get_parameters service s requested ≡ ok after
      → IsMap after
  unfolding get_parameters
  get_parameters-IsMap requested after e =
      (collect-Collects (requests_of (regional_names requested [])) [] after e).is_map tt

  -- What is fetched for a requested parameter is its live value, if it has one, unless a request to its
  -- region was refused because the namespace is new, when nothing may be fetched.
  pub get_parameters_ok :
      (requested : List SsmKey) (after : SsmParameters) (k : SsmKey)
      → Elem k requested
      → get_parameters service s requested ≡ ok after
      → (lookup k after ≡ live s k) ⊎ ((lookup k after ≡ none) × IsNew k.region)
  unfolding get_parameters
  get_parameters_ok requested after k m e = elim (Option-cases (lookup k after)) [
    | inr (v, h) ↦ inl (h ∙ sym (get_parameters-IsLive requested after e k v h))
    | inl h ↦ elim (all.collected k.region names in_requests) [
      | inl new ↦ inr (h, new)
      | inr held ↦ inl (elim (Option-cases (live s k)) [
        | inl dead ↦ h ∙ sym dead
        | inr (v, alive) ↦ held k.name v in_names alive ∙ sym alive
      ])
    ]
  ]
    where
      all : Collects (requests_of (regional_names requested [])) [] after
      all = collect-Collects (requests_of (regional_names requested [])) [] after e

      request :
          (names : List Text) × Elem (k.region, names) (requests_of (regional_names requested []))
          × Elem k.name names
      request = (requests_of-regional_names requested).1 k m

      names : List Text
      names = request.0

      in_requests : Elem (k.region, names) (requests_of (regional_names requested []))
      in_requests = request.1

      in_names : Elem k.name names
      in_names = request.2

all_match-cons :
    (j : SsmKey) (w : Text) (updated expected : SsmParameters)
    → all_match updated ((j, w) ∷ expected) ≡ true
    → (lookup j updated ≡ some w) × (all_match updated expected ≡ true)
all_match-cons j w updated expected h = elim (Option-cases (lookup j updated)) [
  | inl missing ↦ let e : false ≡ true = rw (missing, all_match) at h in cc
  | inr (x, fetched) ↦
      let h' : (if x == w then all_match updated expected else false) ≡ true =
        rw (fetched, all_match) at h in
      elim (Bool-cases (x == w)) [
        | inl same ↦ (fetched ∙ ap some ((list_eq.eqb_iff x w).0 same), rw same at h')
        | inr other ↦ let e : false ≡ true = rw other at h' in cc
      ]
]

all_match-lookup :
    (k : SsmKey) (v : Text) (updated expected : SsmParameters)
    → all_match updated expected ≡ true
    → lookup k expected ≡ some v
    → lookup k updated ≡ some v
unfolding lookup
all_match-lookup k v updated [] h e = cc
all_match-lookup k v updated ((j, w) ∷ expected) h e =
    let (here, later) = all_match-cons j w updated expected h in
    elim (Bool-cases (j == k)) [
      | inl same ↦
          let e' : some w ≡ some v = rw (same, lookup) at e in
          let ej : j ≡ k = (ssm_key_eq.eqb_iff j k).0 same in
          subst (λ x. lookup x updated ≡ some v) ej (here ∙ e')
      | inr apart ↦ all_match-lookup k v updated expected later (rw (apart, lookup) at e)
    ]

module _ {S : Type 0} (service : FetchService S) (live : S → SsmKey → Option Text)
    (laws : FetchLaws service live) where
  validate_inner_ok :
      (expected : SsmParameters) (s : S) (k : SsmKey) (v : Text)
      → validate_parameters_inner service s expected ≡ ok tt
      → lookup k expected ≡ some v
      → live s k ≡ some v
  unfolding validate_parameters_inner
  validate_inner_ok expected s k v h e =
      let (updated, fetched, matched) =
        bind-ok (get_parameters service s (keys_of expected))
          (λ updated. if all_match updated expected then ok tt else err not_valid) tt h in
      elim (Bool-cases (all_match updated expected)) [
        | inl matches ↦
            get_parameters-IsLive service live laws s (keys_of expected) updated fetched k v
              (all_match-lookup k v updated expected matches e)
        | inr fails ↦ let wrong : err not_valid ≡ ok tt = rw fails at matched in cc
      ]

  -- When an attempt to validate succeeds, all expected values are live in the world of that attempt.
  pub validate_parameters_ok :
      (retries : ℕ) (expected : SsmParameters) (s : S) (k : SsmKey) (v : Text)
      → (validate_parameters service retries expected s).0 ≡ ok tt
      → lookup k expected ≡ some v
      → live (validate_parameters service retries expected s).1 k ≡ some v
  unfolding validate_parameters
  validate_parameters_ok zero expected s k v h e = validate_inner_ok expected s k v h e
  validate_parameters_ok (suc retries) expected s k v h e =
      of_result (validate_parameters_ok retries expected (service.wait s) k v)
        (validate_parameters_inner service s expected) refl
    where
      of_result :
          ((validate_parameters service retries expected (service.wait s)).0 ≡ ok tt
            → lookup k expected ≡ some v
            → live (validate_parameters service retries expected (service.wait s)).1 k ≡ some v)
          → (r : Result FetchError Unit) → validate_parameters_inner service s expected ≡ r
          → live (validate_parameters service (suc retries) expected s).1 k ≡ some v
      of_result next (ok t) r = rw (r, validate_parameters) (validate_inner_ok expected s k v r e)
      of_result next (err x) r =
          rw (r, validate_parameters) (next (rw (r, validate_parameters) at h) e)
