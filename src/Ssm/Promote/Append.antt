-- ===== src/Ssm/Promote/Append.antt =====
-- `append_rendered_parameters` of tools/pubsys/src/aws/promote_ssm/mod.rs: the promoted parameters are
-- added to the file of the rendered ones.
use twoliter.Prelude.{Option, [], ◌∷◌, Text}
use twoliter.Prelude.Classes.{nat_eq, list_eq}
use twoliter.Prelude.Maps.{Map, insert}
use twoliter.Prelude.Results.{Result, ok, err, ◌>>=◌}
use twoliter.Ssm.{Region, ssm_key_eq, SsmParameters}
use twoliter.Ssm.Promote.{merge_parameters}
use twoliter.Ssm.Validate.Files.{FileError, not_read, not_parsed, parse_parameters}

-- `HashMap::extend`
unfoldable pub extended : SsmParameters → SsmParameters → SsmParameters
unfolding insert
extended [] m = m
extended ((k, v) ∷ parameters) m = extended parameters (insert k v m)

-- The parameters of all regions.
unfoldable pub flattened : Map Region SsmParameters → SsmParameters → SsmParameters
unfolding extended
flattened [] m = m
flattened ((region, parameters) ∷ regions) m = flattened regions (extended parameters m)

-- `RenderedParametersMap::from`, for a region and for all of them.
unfoldable pub names_of : SsmParameters → Map Text Text → Map Text Text
unfolding insert
names_of [] m = m
names_of ((k, v) ∷ parameters) m = names_of parameters (insert k.name v m)

unfoldable pub rendered_regions :
    Map Region SsmParameters → Map Text (Map Text Text) → Map Text (Map Text Text)
unfolding names_of insert
rendered_regions [] m = m
rendered_regions ((region, parameters) ∷ regions) m =
    rendered_regions regions (insert region (names_of parameters []) m)

-- A file that cannot be read has no parameters.
abbrev pub existing :
    Result FileError (Map Region SsmParameters) → Result FileError (Map Region SsmParameters)
existing (err not_read) = ok []
existing (err not_parsed) = err not_parsed
existing (ok m) = ok m

-- What is written to the file.
unfoldable pub append_rendered_parameters :
    (Text → Option (Map Text (Map Text Text)))
    → (Map Text (Map Text Text) → Text)
    → Option Text
    → SsmParameters
    → Result FileError Text
unfolding parse_parameters flattened merge_parameters rendered_regions
append_rendered_parameters from_slice to_writer file set_parameters =
    existing (parse_parameters from_slice file) >>= λ parsed.
    ok (to_writer (rendered_regions (merge_parameters (flattened parsed []) set_parameters) []))
