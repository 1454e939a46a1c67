-- ===== src/Ssm/Fetch/Chunks.antt =====
-- tools/pubsys/src/aws/ssm/ssm.rs: the requests that `get_parameters` builds.
use mathlib.Core.List.{append-nil, append_assoc}
use twoliter.Prelude.{
  ◌≡◌, refl, sym, subst, List, [], ◌∷◌, ◌++◌, map, ℕ, suc, zero, ◌+◌, ◌≤◌, arith, Bool-cases, inl,
  inr, All, All-append, Elem, Elem-append, Elem-append_left, Elem-append_right, Elem-map, Text,
  length, length-append, if◌then◌else◌,
}
use twoliter.Prelude.Classes.{◌==◌, nat_eq, list_eq, eqb_refl}
use twoliter.Prelude.Maps.{Map, lookup, entry_push, at_or_nil, at_or_nil-entry_push}
use twoliter.Ssm.{Region, SsmKey, ssm_key_eq}
use twoliter.Ssm.Fetch.{regional_names, chunks_from, chunks, requests_of}

-- A name is in one of the lists.
abbrev pub IsCovered : Text → List (List Text) → Type 0
IsCovered name cs = (chunk : List Text) × Elem chunk cs × Elem name chunk

chunks_from-IsCovered :
    (name : Text) (room : ℕ) (current names : List Text)
    → Elem name (current ++ names)
    → IsCovered name (chunks_from room current names)
unfolding chunks_from
chunks_from-IsCovered name room [] [] m = elim m [ ]
chunks_from-IsCovered name room (x ∷ current) [] m =
    (x ∷ current, inl refl, subst (Elem name) (append-nil (x ∷ current)) m)
chunks_from-IsCovered name zero current (x ∷ names) m =
    elim (Elem-append name current (x ∷ names) m) [
      | inl here ↦ (current, inl refl, here)
      | inr later ↦
          let (chunk, in_chunks, in_chunk) = chunks_from-IsCovered name 9 (x ∷ []) names later in
          (chunk, inr in_chunks, in_chunk)
    ]
chunks_from-IsCovered name (suc room) current (x ∷ names) m =
    chunks_from-IsCovered name room (current ++ (x ∷ [])) names
      (subst (Elem name) (sym (append_assoc current (x ∷ []) names)) m)

-- What a request may ask for.
abbrev pub IsSized : List Text → Type 0
IsSized chunk = (1 ≤ length chunk) × (length chunk ≤ 10)

chunks_from-IsSized :
    (room : ℕ) (current names : List Text)
    → length current + room ≡ 10
    → All IsSized (chunks_from room current names)
unfolding chunks_from
chunks_from-IsSized room [] [] e = tt
chunks_from-IsSized room (x ∷ current) [] e = ((omega arith, omega (arith, e)), tt)
chunks_from-IsSized zero current (x ∷ names) e =
    ((omega (arith, e), omega (arith, e)), chunks_from-IsSized 9 (x ∷ []) names (omega arith))
chunks_from-IsSized (suc room) current (x ∷ names) e =
    chunks_from-IsSized room (current ++ (x ∷ [])) names
      (omega (arith, e, length-append current (x ∷ [])))

at_region-IsSized :
    (region : Region) (cs : List (List Text))
    → All IsSized cs
    → All (λ (r, chunk). IsSized chunk) (map (λ chunk. (region, chunk)) cs)
at_region-IsSized region [] h = tt
at_region-IsSized region (c ∷ cs) (p, h) = (p, at_region-IsSized region cs h)

requests_of-IsSized :
    (m : Map Region (List Text)) → All (λ (r, chunk). IsSized chunk) (requests_of m)
unfolding requests_of
requests_of-IsSized [] = tt
requests_of-IsSized ((region, names) ∷ m) =
    All-append (λ (r, chunk). IsSized chunk) (map (λ chunk. (region, chunk)) (chunks names))
      (requests_of m)
      (at_region-IsSized region (chunks names) (chunks_from-IsSized 10 [] names refl))
      (requests_of-IsSized m)

at_or_nil-cons :
    (region r : Region) (names : List Text) (m : Map Region (List Text))
    → at_or_nil region ((r, names) ∷ m) ≡ (if r == region then names else at_or_nil region m)
unfolding lookup
at_or_nil-cons region r names m = ground arith

requests_of-Elem :
    (region : Region) (name : Text) (m : Map Region (List Text))
    → Elem name (at_or_nil region m)
    → (chunk : List Text) × Elem (region, chunk) (requests_of m) × Elem name chunk
unfolding requests_of lookup
requests_of-Elem region name [] h = elim h [ ]
requests_of-Elem region name ((r, names) ∷ m) h = elim (Bool-cases (r == region)) [
  | inl same ↦
      let (chunk, in_chunks, in_chunk) =
        chunks_from-IsCovered name 10 [] names (rw (at_or_nil-cons region r names m, same) at h) in
      let here = Elem-map (λ c. (r, c)) chunk (chunks names) in_chunks in
      let e : r ≡ region = (list_eq.eqb_iff r region).0 same in
      (
        chunk,
        subst (λ x. Elem (x, chunk) (requests_of ((r, names) ∷ m))) e
            (Elem-append_left (r, chunk) (map (λ c. (r, c)) (chunks names)) (requests_of m) here),
        in_chunk,
      )
  | inr apart ↦
      let (chunk, later, in_chunk) =
        requests_of-Elem region name m (rw (at_or_nil-cons region r names m, apart) at h) in
      (
        chunk,
        Elem-append_right (region, chunk) (map (λ c. (r, c)) (chunks names)) (requests_of m) later,
        in_chunk,
      )
]

regional_names-keeps :
    (region : Region) (name : Text) (ks : List SsmKey) (m : Map Region (List Text))
    → Elem name (at_or_nil region m)
    → Elem name (at_or_nil region (regional_names ks m))
unfolding regional_names
regional_names-keeps region name [] m h = h
regional_names-keeps region name (k ∷ ks) m h =
    regional_names-keeps region name ks (entry_push k.region k.name m) (
      rw (at_or_nil-entry_push k.region region k.name m) (elim (Bool-cases (k.region == region)) [
        | inl same ↦
            let e : k.region ≡ region = (list_eq.eqb_iff k.region region).0 same in
            rw same (Elem-append_left name (at_or_nil k.region m) (k.name ∷ []) (rw e h))
        | inr apart ↦ rw apart h
      ]))

regional_names-Elem :
    (k : SsmKey) (ks : List SsmKey) (m : Map Region (List Text))
    → Elem k ks
    → Elem k.name (at_or_nil k.region (regional_names ks m))
unfolding regional_names
regional_names-Elem k [] m h = elim h [ ]
regional_names-Elem k (j ∷ ks) m (inr h) = regional_names-Elem k ks (entry_push j.region j.name m) h
regional_names-Elem k (j ∷ ks) m (inl e) = rw e (
    regional_names-keeps j.region j.name ks (entry_push j.region j.name m) (
      rw (at_or_nil-entry_push j.region j.region j.name m, eqb_refl j.region)
        (Elem-append_right j.name (at_or_nil j.region m) (j.name ∷ []) (inl refl))))

-- Each parameter is asked for in a request to its region, and a request asks for one to ten.
pub requests_of-regional_names :
    (requested : List SsmKey)
    → let requests = requests_of (regional_names requested []) in
      All (λ (region, names). (1 ≤ length names) × (length names ≤ 10)) requests
      × ((k : SsmKey)
          → Elem k requested
          → (names : List Text) × Elem (k.region, names) requests × Elem k.name names)
requests_of-regional_names requested = (
  requests_of-IsSized (regional_names requested []),
  λ k h.
      requests_of-Elem k.region k.name (regional_names requested [])
        (regional_names-Elem k requested [] h),
)
