-- ===== src/Ssm/Prefix/Live.antt =====
-- tools/pubsys/src/aws/ssm/ssm.rs: the values that `get_parameters_by_prefix_in_region` gives.
use twoliter.Prelude.{◌≡◌, subst, Option, none, some, List, [], ◌∷◌, All, Text}
use twoliter.Prelude.Classes.{nat_eq, list_eq}
use twoliter.Prelude.Maps.{lookup, insert}
use twoliter.Prelude.Results.{ok, ok_or, ◌>>=◌, bind-ok, ok_or-ok}
use twoliter.Ssm.{Region, SsmKey, ssm_key_eq, SsmParameters}
use twoliter.Ssm.Fetch.{Parameter, at_key}
use twoliter.Ssm.Fetch.Sound.{IsLive, insert-IsLive}
use twoliter.Ssm.Prefix.{
  missing_name, missing_value, Pages, store_page, store_pages, get_parameters_by_prefix_in_region,
}

-- What a parameter says is live.
abbrev pub Says : (SsmKey → Option Text) → Region → Parameter → Type 0
Says live region p =
    (name value : Text)
    → p.name ≡ some name
    → p.value ≡ some value
    → live (at_key region name) ≡ some value

store_page-IsLive :
    (live : SsmKey → Option Text) (region : Region) (ps : List Parameter)
    (before after : SsmParameters)
    → All (Says live region) ps
    → store_page region ps before ≡ ok after
    → IsLive live before
    → IsLive live after
unfolding store_page
store_page-IsLive live region [] before after says e h =
    let same : before ≡ after = cc in subst (IsLive live) same h
store_page-IsLive live region (p ∷ ps) before after (here, says) e h =
    let (name, named, e1) =
      bind-ok (ok_or missing_name p.name)
        (λ name. ok_or missing_value p.value >>= λ value.
          store_page region ps (insert (at_key region name) value before))
        after e in
    let (value, valued, e2) =
      bind-ok (ok_or missing_value p.value)
        (λ value. store_page region ps (insert (at_key region name) value before)) after e1 in
    let alive =
      here name value (ok_or-ok missing_name p.name name named)
        (ok_or-ok missing_value p.value value valued) in
    store_page-IsLive live region ps (insert (at_key region name) value before) after says e2
      (insert-IsLive live (at_key region name) value before alive h)

-- The parameters of the pages that did not fail.
abbrev pub SayAll : (SsmKey → Option Text) → Region → List (Option (List Parameter)) → Type 0
SayAll live region [] = Unit
SayAll live region (none ∷ pages) = SayAll live region pages
SayAll live region (some ps ∷ pages) = All (Says live region) ps × SayAll live region pages

store_pages-IsLive :
    (live : SsmKey → Option Text) (region : Region) (pages : List (Option (List Parameter)))
    (before after : SsmParameters)
    → SayAll live region pages
    → store_pages region pages before ≡ ok after
    → IsLive live before
    → IsLive live after
unfolding store_pages
store_pages-IsLive live region [] before after says e h =
    let same : before ≡ after = cc in subst (IsLive live) same h
store_pages-IsLive live region (none ∷ pages) before after says e h = cc
store_pages-IsLive live region (some ps ∷ pages) before after (here, says) e h =
    let (stored, e1, e2) =
      bind-ok (store_page region ps before) (λ m. store_pages region pages m) after e in
    store_pages-IsLive live region pages stored after says e2
      (store_page-IsLive live region ps before stored here e1 h)

-- If what the pages say is live, so is each value that is fetched.
pub get_parameters_by_prefix_in_region-IsLive :
    (live : SsmKey → Option Text) (pages : Pages) (region : Region) (ssm_prefix : Text)
    (after : SsmParameters)
    → SayAll live region (pages region ssm_prefix)
    → get_parameters_by_prefix_in_region pages region ssm_prefix ≡ ok after
    → IsLive live after
unfolding get_parameters_by_prefix_in_region lookup
get_parameters_by_prefix_in_region-IsLive live pages region ssm_prefix after says e =
    store_pages-IsLive live region (pages region ssm_prefix) [] after says e (λ k v h. cc)
