-- ===== src/Ssm/Fetch.antt =====
-- `get_parameters` and `validate_parameters` of tools/pubsys/src/aws/ssm/ssm.rs: the values of
-- parameters are requested by region, ten at a time, and compared with the expected ones. The requests
-- are made in the order in which they are built.
pub mod Chunks
pub mod Sound
pub mod Found
use twoliter.Prelude.{
  ◌≡◌, ℕ, suc, zero, ◌+◌, Bool, true, false, Option, none, some, List, [], ◌∷◌, ◌++◌, map, Elem,
  Text, text, length, contains, is_empty, ◌==◌ as eq_ℕ, if◌then◌else◌,
}
use twoliter.Prelude.Classes.{Eq, ◌==◌, nat_eq, list_eq}
use twoliter.Prelude.Maps.{Map, lookup, insert, entry_push}
use twoliter.Prelude.Results.{Result, ok, err, ◌>>=◌}
use twoliter.Ssm.{Region, SsmKey, ssm_key_eq, SsmParameters}

pub record Parameter : Type 0 where
  pub name : Option Text
  pub value : Option Text

-- The reply to a request: the parameters and the names that are not valid, or the error's message.
pub data Reply : Type 0 where
  found : Option (List Parameter) → Option (List Text) → Reply
  failed : Text → Reply

-- What is not in the sources, over the states of the world: a `get_parameters` request, and what
-- the world is after the time between two attempts.
pub record FetchService (S : Type 0) : Type 0 where
  pub get : S → Region → List Text → Reply
  pub wait : S → S

abbrev pub at_key : Region → Text → SsmKey
at_key region name = record { region = region; name = name }

abbrev pub as_found : Text → Text → Parameter
as_found name value = record { name = some name; value = some value }

-- `as_ref().unwrap_or_default()`
abbrev pub or_nil : {A : Type 0} → Option (List A) → List A
or_nil none = []
or_nil (some xs) = xs

-- A reply has the live values of the requested parameters, and those only.
pub record FetchLaws {S : Type 0} (service : FetchService S) (live : S → SsmKey → Option Text)
    : Type 0 where
  pub found_live :
      (s : S) (region : Region) (names : List Text) (ps : Option (List Parameter))
      (invalid : Option (List Text)) (name value : Text)
      → service.get s region names ≡ found ps invalid
      → Elem (as_found name value) (or_nil ps)
      → live s (at_key region name) ≡ some value
  pub live_found :
      (s : S) (region : Region) (names : List Text) (ps : Option (List Parameter))
      (invalid : Option (List Text)) (name value : Text)
      → service.get s region names ≡ found ps invalid
      → Elem name names
      → live s (at_key region name) ≡ some value
      → Elem (as_found name value) (or_nil ps)

pub data FetchError : Type 0 where
  get_failed : Region → Text → FetchError
  missing_in_response : Region → FetchError
  not_valid : FetchError

-- The requested names, by region.
unfoldable pub regional_names : List SsmKey → Map Region (List Text) → Map Region (List Text)
unfolding entry_push
regional_names [] m = m
regional_names (k ∷ ks) m = regional_names ks (entry_push k.region k.name m)

-- `names.chunks(10)`, with the room that is left in the current chunk.
unfoldable pub chunks_from : ℕ → List Text → List Text → List (List Text)
chunks_from room [] [] = []
chunks_from room (name ∷ current) [] = (name ∷ current) ∷ []
chunks_from zero current (name ∷ names) = current ∷ chunks_from 9 (name ∷ []) names
chunks_from (suc room) current (name ∷ names) = chunks_from room (current ++ (name ∷ [])) names

abbrev pub chunks : List Text → List (List Text)
chunks names = chunks_from 10 [] names

unfoldable pub requests_of : Map Region (List Text) → List (Region × List Text)
unfolding chunks_from
requests_of [] = []
requests_of ((region, names) ∷ m) = map (λ chunk. (region, chunk)) (chunks names) ++ requests_of m

-- The parameters of one reply.
unfoldable pub store : Region → List Parameter → SsmParameters → Result FetchError SsmParameters
unfolding insert
store region [] parameters = ok parameters
store region (p ∷ ps) parameters = elim p.name [
  | none ↦ err (missing_in_response region)
  | some name ↦ elim p.value [
    | none ↦ err (missing_in_response region)
    | some value ↦ store region ps (insert (at_key region name) value parameters)
  ]
]

abbrev pub invalid_namespace : Text
invalid_namespace = text "is not a valid namespace"

-- Each expected parameter has been fetched, with the expected value.
abbrev pub all_match : SsmParameters → SsmParameters → Bool
all_match updated [] = true
all_match updated ((k, v) ∷ expected) =
    let rest = all_match updated expected in
    elim (lookup k updated) [ none ↦ false | some w ↦ if w == v then rest else false ]

abbrev pub keys_of : SsmParameters → List SsmKey
keys_of [] = []
keys_of ((k, v) ∷ parameters) = k ∷ keys_of parameters

module _ {S : Type 0} (service : FetchService S) (s : S) where
  unfoldable pub collect :
      List (Region × List Text) → SsmParameters → Result FetchError SsmParameters
  unfolding store contains
  collect [] parameters = ok parameters
  collect ((region, names) ∷ requests) parameters = elim (service.get s region names) [
    | failed message ↦ elim (contains message invalid_namespace) [
      | true ↦ collect requests parameters
      | false ↦ err (get_failed region message)
    ]
    | found ps invalid ↦ elim (eq_ℕ (length (or_nil ps) + length (or_nil invalid)) (length names)) [
      | true ↦ store region (or_nil ps) parameters >>= λ parameters'. collect requests parameters'
      | false ↦ err (missing_in_response region)
    ]
  ]

  unfoldable pub get_parameters : List SsmKey → Result FetchError SsmParameters
  unfolding collect regional_names requests_of
  get_parameters requested = collect (requests_of (regional_names requested [])) []

  unfoldable pub validate_parameters_inner : SsmParameters → Result FetchError Unit
  unfolding get_parameters lookup
  validate_parameters_inner expected = get_parameters (keys_of expected) >>= λ updated.
      if all_match updated expected then ok tt else err not_valid

module _ {S : Type 0} (service : FetchService S) where
  -- The attempts, with the number of retries that are left, and the world of the last attempt.
  unfoldable pub validate_parameters : ℕ → SsmParameters → S → Result FetchError Unit × S
  unfolding validate_parameters_inner
  validate_parameters zero expected s = (validate_parameters_inner service s expected, s)
  validate_parameters (suc retries) expected s =
      elim (validate_parameters_inner service s expected) [
        | ok _ ↦ (ok tt, s)
        | err e ↦ validate_parameters retries expected (service.wait s)
      ]
