-- ===== src/Ssm/Put.antt =====
-- `set_parameters` of tools/pubsys/src/aws/ssm/ssm.rs: parameters are put in rounds, and the requests
-- that fail are sent again in the next round. A request takes effect as a whole, and those of a round
-- in any order. Intervals are in milliseconds.
pub mod Aged
pub mod Live
pub mod Retries
pub mod Counted
pub mod Rounds
use twoliter.Prelude.{
  ◌≡◌, ◌↔◌, Elem, ℕ, suc, zero, ◌+◌, ◌-◌, ◌*◌, Bool, true, false, Option, none, some, List, [], ◌∷◌,
  ◌++◌, Text, text, length, ltb, leb, contains, is_empty, if◌then◌else◌,
}
use twoliter.Prelude.Classes.{Eq, ◌==◌, nat_eq, list_eq}
use twoliter.Prelude.Maps.{Map, entry_push}
use twoliter.Ssm.{Region, SsmKey, ssm_key_eq, SsmParameters}

pub record RequestContext : Type 0 where
  pub key : SsmKey
  pub value : Text
  pub failures : ℕ

-- The answer to a request, with the code of the error.
pub data Response : Type 0 where
  accepted : Response
  refused : Option Text → Response

-- What is not in the sources, over the states of the world: a `put_parameter` request, and the order
-- in which the requests of a round are made.
pub record PutService (S : Type 0) : Type 0 where
  pub put : SsmKey → Text → S → S × Response
  pub order : S → List RequestContext → List RequestContext

-- The order is one of the same requests.
abbrev pub Arranges : {S : Type 0} → PutService S → Type 0
Arranges {S} service =
    (s : S) (c : RequestContext) (cs : List RequestContext)
    → Elem c (service.order s cs) ↔ Elem c cs

-- The parameters that are live in a state: a request that is accepted sets its parameter, and none
-- changes another one.
pub record PutLaws {S : Type 0} (service : PutService S) : Type 0 where
  pub live : S → SsmKey → Option Text
  pub put_sets :
      (k : SsmKey) (v : Text) (s : S)
      → (service.put k v s).1 ≡ accepted
      → live (service.put k v s).0 k ≡ some v
  pub put_keeps :
      (k other : SsmKey) (v : Text) (s : S)
      → (k == other) ≡ false
      → live (service.put k v s).0 other ≡ live s other

pub record Progress : Type 0 where
  pub contexts : List RequestContext
  pub should_increase : Bool
  pub failed : Map Region (List (Text × Text))

pub data SetResult : Type 0 where
  all_set : SetResult
  throttled : ℕ → SetResult
  not_set : ℕ → ℕ → SetResult

abbrev pub max_interval : ℕ
max_interval = 1600

abbrev pub max_failures : ℕ
max_failures = 5

abbrev pub error_type_of : Option Text → Text
error_type_of none = text "unknown"
error_type_of (some code) = code

-- The answer to one request.
unfoldable pub handle : RequestContext → Response → Progress → Progress
unfolding entry_push contains
handle c accepted p = p
handle c (refused code) p =
    let error_type = error_type_of code in
    if contains error_type (text "ThrottlingException")
    then record { contexts = p.contexts ++ (c ∷ []); should_increase = true; failed = p.failed }
    else if leb (max_failures - 1) c.failures
    then record {
      contexts = p.contexts;
      should_increase = p.should_increase;
      failed = entry_push c.key.region (c.key.name, error_type) p.failed;
    }
    else record {
      contexts =
          p.contexts ++ (record { key = c.key; value = c.value; failures = suc c.failures } ∷ []);
      should_increase = p.should_increase;
      failed = p.failed;
    }

abbrev pub contexts_of : SsmParameters → List RequestContext
contexts_of [] = []
contexts_of ((k, v) ∷ parameters) =
    record { key = k; value = v; failures = 0 } ∷ contexts_of parameters

abbrev pub drained : Progress → Progress
drained p = record { contexts = []; should_increase = false; failed = p.failed }

abbrev pub next_interval : ℕ → Progress → ℕ
next_interval interval p = if p.should_increase then interval * 2 else interval

abbrev pub finished : ℕ → Progress → SetResult
finished total_count p =
    if is_empty p.failed then all_set else not_set (length p.failed) total_count

module _ {S : Type 0} (service : PutService S) where
  -- The requests of a round.
  unfoldable pub send : List RequestContext → Progress → S → S × Progress
  unfolding handle
  send [] p s = (s, p)
  send (c ∷ cs) p s =
      let (s', response) = service.put c.key c.value s in send cs (handle c response p) s'

  unfoldable pub set_rounds : ℕ → ℕ → ℕ → Progress → S → Option (SetResult × S)
  unfolding send
  set_rounds zero total_count interval p s = none
  set_rounds (suc fuel) total_count interval p s = elim (is_empty p.contexts) [
    | true ↦ some (finished total_count p, s)
    | false ↦ elim (ltb max_interval (next_interval interval p)) [
      | true ↦ some (throttled max_interval, s)
      | false ↦
          let (s', p') = send (service.order s p.contexts) (drained p) s in
          set_rounds fuel total_count (next_interval interval p) p' s'
    ]
  ]

  abbrev pub started : SsmParameters → Progress
  started parameters = record {
    contexts = contexts_of parameters;
    should_increase = false;
    failed = [];
  }

  unfoldable pub set_parameters : ℕ → SsmParameters → S → Option (SetResult × S)
  unfolding set_rounds
  set_parameters fuel parameters s =
      set_rounds fuel (length (contexts_of parameters)) 100 (started parameters) s
