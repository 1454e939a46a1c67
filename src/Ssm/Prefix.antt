-- ===== src/Ssm/Prefix.antt =====
-- `get_parameters_by_prefix` of tools/pubsys/src/aws/ssm/ssm.rs: all parameters under a path, by region.
pub mod Live
use twoliter.Prelude.{◌≡◌, Option, none, some, List, [], ◌∷◌, Elem, Text}
use twoliter.Prelude.Classes.{nat_eq, list_eq}
use twoliter.Prelude.Maps.{Map, insert}
use twoliter.Prelude.Results.{Result, ok, err, ◌>>=◌, ok_or}
use twoliter.Ssm.{Region, SsmKey, ssm_key_eq, SsmParameters}
use twoliter.Ssm.Fetch.{Parameter, at_key}

pub data PrefixError : Type 0 where
  get_by_path : PrefixError
  missing_name : PrefixError
  missing_value : PrefixError

-- The reply of SSM to `get_parameters_by_path`, which is not in the sources: the pages for a region and a
-- path, none for one that fails.
abbrev pub Pages : Type 0
Pages = Region → Text → List (Option (List Parameter))

unfoldable pub store_page :
    Region → List Parameter → SsmParameters → Result PrefixError SsmParameters
unfolding insert
store_page region [] parameters = ok parameters
store_page region (p ∷ ps) parameters = ok_or missing_name p.name >>= λ name.
    ok_or missing_value p.value >>= λ value.
    store_page region ps (insert (at_key region name) value parameters)

unfoldable pub store_pages :
    Region → List (Option (List Parameter)) → SsmParameters → Result PrefixError SsmParameters
unfolding store_page
store_pages region [] parameters = ok parameters
store_pages region (none ∷ pages) parameters = err get_by_path
store_pages region (some ps ∷ pages) parameters =
    store_page region ps parameters >>= λ stored. store_pages region pages stored

unfoldable pub get_parameters_by_prefix_in_region :
    Pages → Region → Text → Result PrefixError SsmParameters
unfolding store_pages
get_parameters_by_prefix_in_region pages region ssm_prefix =
    store_pages region (pages region ssm_prefix) []

unfoldable pub get_parameters_by_prefix :
    Pages → List Region → Text → Map Region (Result PrefixError SsmParameters)
unfolding get_parameters_by_prefix_in_region
get_parameters_by_prefix pages [] ssm_prefix = []
get_parameters_by_prefix pages (region ∷ regions) ssm_prefix =
    (region, get_parameters_by_prefix_in_region pages region ssm_prefix)
    ∷ get_parameters_by_prefix pages regions ssm_prefix
