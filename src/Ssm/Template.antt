-- ===== src/Ssm/Template.antt =====
-- tools/pubsys/src/aws/ssm/template.rs: the templates of parameters, and what is rendered from them.
-- Maps are visited in the order in which they were built.
use twoliter.Prelude.{
  Bool, false, Option, none, some, List, [], ◌∷◌, ◌++◌, ◌&&◌, ◌||◌, keep, any, Text, text, is_empty,
  if◌then◌else◌,
}
use twoliter.Prelude.Classes.{◌==◌, nat_eq, list_eq}
use twoliter.Prelude.Maps.{Map, lookup, insert}
use twoliter.Prelude.Results.{Result, ok, err, ◌>>=◌}
use twoliter.Ami.{Image}
use twoliter.Ssm.{Region, SsmKey, ssm_key_eq, SsmParameters}

pub record TemplateParameter : Type 0 where
  pub name : Text
  pub value : Text
  pub variants : List Text
  pub arches : List Text

pub record BuildContext : Type 0 where
  pub variant : Text
  pub arch : Text
  pub image_version : Text

-- What a template may name. The names of parameters to promote are rendered without an image.
pub data TemplateContext : Type 0 where
  for_image : BuildContext → Region → Image → TemplateContext
  for_build : BuildContext → TemplateContext

-- What is not in the sources: the file of templates, or none if it cannot be read; TOML; and
-- `tinytemplate`, which accepts a template, and renders it.
pub record TemplateTools : Type 0 where
  pub read : Option Text
  pub parse_toml : Text → Option (List TemplateParameter)
  pub add_template : Text → Bool
  pub render : Text → TemplateContext → Option Text

pub data TemplateError : Type 0 where
  no_file : TemplateError
  invalid_toml : TemplateError
  no_templates : TemplateError
  bad_template : Text → TemplateError
  not_rendered : Text → TemplateError

pub record RenderedParameter : Type 0 where
  pub ami : Image
  pub ssm_key : SsmKey
  pub value : Text

abbrev contains_text : Text → List Text → Bool
contains_text s = any (λ x. x == s)

abbrev pub applies : BuildContext → TemplateParameter → Bool
applies context p =
    (is_empty p.variants || contains_text context.variant p.variants)
    && (is_empty p.arches || contains_text context.arch p.arches)

-- `as_ssm_parameters`, in front of the parameters that are there.
unfoldable pub extend_ssm_parameters : List RenderedParameter → SsmParameters → SsmParameters
unfolding insert
extend_ssm_parameters [] m = m
extend_ssm_parameters (p ∷ ps) m = extend_ssm_parameters ps (insert p.ssm_key p.value m)

abbrev pub as_ssm_parameters : List RenderedParameter → SsmParameters
as_ssm_parameters ps = extend_ssm_parameters ps []

-- `s.ends_with(b'/')`
unfoldable pub ends_with_slash : Text → Bool
ends_with_slash [] = false
ends_with_slash (c ∷ []) = c == b'/'
ends_with_slash (c ∷ d ∷ s) = ends_with_slash (d ∷ s)

unfoldable pub starts_with_slash : Text → Bool
starts_with_slash [] = false
starts_with_slash (c ∷ s) = c == b'/'

-- `&s[1..]` of a text that starts with a character of one byte
abbrev pub tail : Text → Text
tail [] = []
tail (c ∷ s) = s

unfoldable pub join_name : Text → Text → Text
unfolding ends_with_slash starts_with_slash
join_name ssm_prefix name_suffix =
    if ends_with_slash ssm_prefix && starts_with_slash name_suffix
    then ssm_prefix ++ tail name_suffix
    else if ends_with_slash ssm_prefix || starts_with_slash name_suffix
    then ssm_prefix ++ name_suffix
    else ssm_prefix ++ text "/" ++ name_suffix

module _ (tools : TemplateTools) where
  unfoldable pub get_parameters : BuildContext → Result TemplateError (List TemplateParameter)
  get_parameters context = elim tools.read [
    | none ↦ err no_file
    | some file ↦ elim (tools.parse_toml file) [
      | none ↦ err invalid_toml
      | some [] ↦ err no_templates
      | some (p ∷ ps) ↦ ok (keep (applies context) (p ∷ ps))
    ]
  ]

  abbrev add : Text → Result TemplateError Unit
  add template = if tools.add_template template then ok tt else err (bad_template template)

  abbrev rendered : Text → TemplateContext → Result TemplateError Text
  rendered template context = elim (tools.render template context) [
    | none ↦ err (not_rendered template)
    | some s ↦ ok s
  ]

  unfoldable pub render_parameter :
      Text
      → BuildContext
      → Region
      → Image
      → TemplateParameter
      → Result TemplateError RenderedParameter
  unfolding join_name
  render_parameter ssm_prefix context region image p = add p.name >>= λ _. add p.value >>= λ _.
      rendered p.name (for_image context region image) >>= λ name_suffix.
      rendered p.value (for_image context region image) >>= λ value. ok record {
        ami = image;
        ssm_key = record { region = region; name = join_name ssm_prefix name_suffix };
        value = value;
      }

  -- The parameters of one image.
  unfoldable pub render_image :
      Text
      → BuildContext
      → Region
      → Image
      → List TemplateParameter
      → Result TemplateError (List RenderedParameter)
  unfolding render_parameter
  render_image ssm_prefix context region image [] = ok []
  render_image ssm_prefix context region image (p ∷ ps) =
      render_parameter ssm_prefix context region image p >>= λ r.
      render_image ssm_prefix context region image ps >>= λ rs. ok (r ∷ rs)

  unfoldable pub render_parameters :
      Text
      → BuildContext
      → List TemplateParameter
      → Map Region Image
      → Result TemplateError (List RenderedParameter)
  unfolding render_image
  render_parameters ssm_prefix context ps [] = ok []
  render_parameters ssm_prefix context ps ((region, image) ∷ amis) =
      render_image ssm_prefix context region image ps >>= λ rs.
      render_parameters ssm_prefix context ps amis >>= λ rest. ok (rs ++ rest)

  unfoldable pub render_parameter_names :
      Text
      → BuildContext
      → List TemplateParameter
      → Map Text Text
      → Result TemplateError (Map Text Text)
  unfolding join_name insert
  render_parameter_names ssm_prefix context [] names = ok names
  render_parameter_names ssm_prefix context (p ∷ ps) names = add p.name >>= λ _.
      rendered p.name (for_build context) >>= λ name_suffix.
      render_parameter_names ssm_prefix context ps
        (insert p.name (join_name ssm_prefix name_suffix) names)

-- `RenderedParametersMap::from`: the values by the region and the name.
unfoldable pub rendered_map :
    List RenderedParameter → Map Region (Map Text Text) → Map Region (Map Text Text)
unfolding lookup insert
rendered_map [] m = m
rendered_map (p ∷ ps) m =
    let names : Map Text Text = elim (lookup p.ssm_key.region m) [
      | none ↦ []
      | some names ↦ names
    ] in
    rendered_map ps (insert p.ssm_key.region (insert p.ssm_key.name p.value names) m)
