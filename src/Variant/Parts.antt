-- ===== src/Variant/Parts.antt =====
-- tools/bottlerocket-variant/src/lib.rs: `Variant::parse` gives back the parts of a name.
use twoliter.Prelude.{
  ◌≡◌, ◌≢◌, refl, ap, ◌∙◌, false, none, some, List, [], ◌∷◌, ◌++◌, Text, is_empty, split, All,
  split-append, split_last,
}
use twoliter.Prelude.Results.{ok}
use twoliter.Variant.{parse}

-- Parts with a dash between each two.
abbrev pub join : List Text → Text
join [] = []
join (part ∷ []) = part
join (part ∷ other ∷ parts) = part ++ b'-' ∷ join (other ∷ parts)

abbrev pub HasNoDash : Text → Type 0
HasNoDash part = All (λ c. c ≢ b'-') part

split-join :
    (part : Text) (parts : List Text)
    → HasNoDash part
    → All HasNoDash parts
    → split b'-' (join (part ∷ parts)) ≡ part ∷ parts
split-join part [] h _ = split_last b'-' part h
split-join part (other ∷ parts) h (k, ks) =
    split-append b'-' part (join (other ∷ parts)) h
    ∙ ap (λ x. part ∷ x) (split-join other parts k ks)

-- The parts that `Variant` keeps are not empty.
abbrev pub IsFull : Text → Type 0
IsFull part = HasNoDash part × (is_empty part ≡ false)

-- A name of parts with dashes between them is parsed into those parts: the first two are the platform
-- and the runtime, the third and the fourth, if they are there, the version and the flavor, and
-- those after them, which may be empty, are ignored.
pub parse-join :
    (platform runtime : Text) (version flavor : Text) (more : List Text)
    → IsFull platform
    → IsFull runtime
    → IsFull version
    → IsFull flavor
    → All HasNoDash more
    → (parse (join (platform ∷ runtime ∷ []))
        ≡ ok (record {
          variant = join (platform ∷ runtime ∷ []);
          platform = platform;
          runtime = runtime;
          family = join (platform ∷ runtime ∷ []);
          version = none;
          variant_flavor = none;
        }))
      × ((parse (join (platform ∷ runtime ∷ version ∷ []))
            ≡ ok (record {
              variant = join (platform ∷ runtime ∷ version ∷ []);
              platform = platform;
              runtime = runtime;
              family = join (platform ∷ runtime ∷ []);
              version = some version;
              variant_flavor = none;
            }))
          × (parse (join (platform ∷ runtime ∷ version ∷ flavor ∷ more))
              ≡ ok (record {
                variant = join (platform ∷ runtime ∷ version ∷ flavor ∷ more);
                platform = platform;
                runtime = runtime;
                family = join (platform ∷ runtime ∷ []);
                version = some version;
                variant_flavor = some flavor;
              })))
unfolding parse
parse-join platform runtime version flavor more (p, p') (r, r') (v, v') (f, f') rest = (
  rw (split-join platform (runtime ∷ []) p (r, tt), p', r') refl,
  (
    rw (split-join platform (runtime ∷ version ∷ []) p (r, (v, tt)), p', r', v') refl,
    rw
        (
          split-join platform (runtime ∷ version ∷ flavor ∷ more) p (r, (v, (f, rest))),
          p',
          r',
          v',
          f',
        )
        refl,
  ),
)
