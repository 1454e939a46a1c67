-- ===== src/Examples/Variants.antt =====
-- Tests of variant names.
use twoliter.Prelude.{any, ◌==◌, arith, ◌≡◌, refl, Option, none, some, [], ◌∷◌, Text, text, false}
use twoliter.Prelude.Results.{ok, err}
use twoliter.Variant.{Variant, parse, variant_part, variant_part_empty, runtime_part, version_part}
use twoliter.Variant.Parts.{HasNoDash, parse-join}

abbrev variant_of : Text → Option Text → Option Text → Variant
variant_of name version flavor = record {
  variant = name;
  platform = text "aws";
  runtime = text "k8s";
  family = text "aws-k8s";
  version = version;
  variant_flavor = flavor;
}

too_short : parse (text "aws") ≡ err (variant_part runtime_part (text "aws"))
unfolding parse
too_short = refl

ends_in_dash : parse (text "aws-dev-") ≡ err (variant_part_empty version_part (text "aws-dev-"))
unfolding parse
ends_in_dash = refl

no_dash : (s : Text) → any (λ c. c == b'-') s ≡ false → HasNoDash s
no_dash [] h = tt
no_dash (c ∷ s) h = (ground arith, no_dash s (ground arith))

parse-join_example :
    (parse (text "aws-k8s") ≡ ok (variant_of (text "aws-k8s") none none))
    × ((parse (text "aws-k8s-1.24")
          ≡ ok (variant_of (text "aws-k8s-1.24") (some (text "1.24")) none))
        × (parse (text "aws-k8s-1.24-nvidia-x")
            ≡ ok (
                variant_of
                  (text "aws-k8s-1.24-nvidia-x")
                  (some (text "1.24"))
                  (some (text "nvidia")))))
parse-join_example =
    parse-join (text "aws") (text "k8s") (text "1.24") (text "nvidia") (text "x" ∷ [])
      (no_dash (text "aws") refl, refl) (no_dash (text "k8s") refl, refl)
      (no_dash (text "1.24") refl, refl) (no_dash (text "nvidia") refl, refl)
      (no_dash (text "x") refl, tt)
