-- ===== src/UpdateMetadata/Manifest.antt =====
-- tools/update-metadata/src/lib.rs: the operations of a manifest. A method that takes `&mut self`
-- returns the manifest that it leaves behind beside its result, on its error paths too.
pub mod MaxVersion
pub mod DefaultMax
pub mod FillWaves
pub mod Policy
pub mod SetWaves
use twoliter.Prelude.{
  ℕ, suc, ◌≤◌, Bool, true, false, not, ◌&&◌, Option, none, some, List, [], ◌∷◌, ◌++◌, map, Text,
  ltb, leb, ◌==◌ as eq_ℕ, if◌then◌else◌, keep, length,
}
use twoliter.Prelude.Classes.{◌==◌, nat_eq, list_eq, Order, same}
use twoliter.Chrono.{Chrono}
use twoliter.ParseDatetime.{Offset, offset, invalid, parse_offset}
use twoliter.UpdateMetadata.Seeds.{seed_of_percent}
use twoliter.UpdateMetadata.Waves.{first_of_list}
use twoliter.UpdateMetadata.Migrations.{Migrations}

pub record Images : Type 0 where
  pub boot : Text
  pub root : Text
  pub hash : Text

pub record Update (V Time : Type 0) : Type 0 where
  pub variant : Text
  pub arch : Text
  pub version : V
  pub max_version : V
  pub waves : List (ℕ × Time)
  pub images : Images

pub record Manifest (V Time : Type 0) : Type 0 where
  pub updates : List (Update V Time)
  pub migrations : Migrations V

pub record UpdateWave : Type 0 where
  pub start_after : Text
  pub fleet_percentage : ℕ

pub data Error : Type 0 where
  invalid_fleet_percentage : (provided : ℕ) → Error
  bad_offset : Text → Error
  waves_unordered : Error

pub data Checked (D : Type 0) : Type 0 where
  good : D → Checked D
  bad : Error → Checked D

-- `BTreeMap::insert`, in the order of the keys
unfoldable pub insert_wave : {Time : Type 0} → ℕ → Time → List (ℕ × Time) → List (ℕ × Time)
insert_wave k t [] = (k, t) ∷ []
insert_wave k t ((j, u) ∷ m) =
    if ltb k j
    then (k, t) ∷ (j, u) ∷ m
    else if eq_ℕ k j
    then (k, t) ∷ m
    else (j, u) ∷ insert_wave k t m

-- `std::cmp::max`
abbrev pub later_of : {V : Type 0} ⦃o : Order V⦄ → V → V → V
later_of ⦃o⦄ a b = if o.lt b a then a else b

module _ {V Time : Type 0} ⦃o : Order V⦄ where
  abbrev pub default_max : V → List (Update V Time) → V
  default_max image_version [] = image_version
  default_max image_version (u ∷ us) = later_of image_version u.max_version

  -- The filter of `update_max_version`.
  abbrev pub is_matching : Option Text → Option Text → Update V Time → Bool
  is_matching (some arch) (some variant) u = u.arch == arch && u.variant == variant
  is_matching (some arch) none u = u.arch == arch
  is_matching none (some variant) u = u.variant == variant
  is_matching none none u = true

  unfoldable pub update_max_version :
      V → Option Text → Option Text → List (Update V Time) → List (Update V Time)
  update_max_version version arch variant [] = []
  update_max_version version arch variant (u ∷ us) =
      (if is_matching arch variant u then record u { max_version = version } else u)
      ∷ update_max_version version arch variant us

  abbrev pub max_or_default : Option V → V → List (Update V Time) → V
  max_or_default none image_version updates = default_max image_version updates
  max_or_default (some version) image_version updates = version

  abbrev pub new_update : V → V → Text → Text → Images → Update V Time
  new_update image_version max_version arch variant images = record {
    variant = variant;
    arch = arch;
    version = image_version;
    max_version = max_version;
    waves = [];
    images = images;
  }

  unfoldable pub add_update :
      V → Option V → Text → Text → Images → Manifest V Time → Manifest V Time
  unfolding update_max_version
  add_update image_version max_version arch variant images m =
      let max_version' = max_or_default max_version image_version m.updates in
      record m {
        updates =
            update_max_version max_version' (some arch) (some variant) m.updates
            ++ new_update image_version max_version' arch variant images ∷ [];
      }

-- The filter of `get_matching_updates`.
abbrev pub is_chosen : {V Time : Type 0} ⦃o : Order V⦄ → Text → Text → V → Update V Time → Bool
is_chosen variant arch image_version u =
    u.arch == arch && u.variant == variant && same u.version image_version

pub data Outcome : Type 0 where
  matched : ℕ → Outcome
  refused : Error → Outcome

abbrev pub outcome_of : ℕ → Option Error → Option Error → Outcome
outcome_of n none none = matched n
outcome_of n none (some e) = refused e
outcome_of n (some e) _ = refused e

module _ (c : Chrono) where
  open c use {Time, Duration, order, add}

  -- The dates of the entries ascend strictly, in the order of the keys.
  unfoldable pub waves_ordered : List (ℕ × Time) → Bool
  waves_ordered [] = true
  waves_ordered (w ∷ []) = true
  waves_ordered (w ∷ v ∷ ws) = order.lt w.1 v.1 && waves_ordered (v ∷ ws)

  -- The two checks of a wave: its percentage, and then its offset.
  unfoldable pub check_wave : UpdateWave → Checked Duration
  check_wave w =
      if ltb 0 w.fleet_percentage && leb w.fleet_percentage 100
      then elim (parse_offset c w.start_after) [
        | offset d ↦ good d
        | invalid e ↦ bad (bad_offset w.start_after)
      ]
      else bad (invalid_fleet_percentage w.fleet_percentage)

  -- The inner loop of `set_waves`: the map as it is when the loop ends or returns early.
  unfoldable pub fill_waves :
      Time → ℕ → List UpdateWave → List (ℕ × Time) → List (ℕ × Time) × Option Error
  unfolding insert_wave
  fill_waves start_at seed [] waves = (waves, none)
  fill_waves start_at seed (w ∷ ws) waves = elim (check_wave w) [
    | good d ↦
        fill_waves start_at (seed_of_percent w.fleet_percentage) ws
          (insert_wave seed (add start_at d) waves)
    | bad e ↦ (waves, some e)
  ]

module _ {V : Type 0} ⦃o : Order V⦄ (c : Chrono) where
  open c use {Time}

  unfoldable pub validate_updates : List (Update V Time) → Option Error
  unfolding waves_ordered
  validate_updates [] = none
  validate_updates (u ∷ us) =
      if waves_ordered c u.waves then validate_updates us else some waves_unordered

  -- The outer loop of `set_waves`. An update keeps the waves that its inner loop leaves; an error ends
  -- the loop.
  abbrev pub with_waves :
      Update V Time
      → List (Update V Time)
      → List (ℕ × Time) × Option Error
      → List (Update V Time) × Option Error
      → List (Update V Time) × Option Error
  with_waves u us (waves, none) (rest, later) = (record u { waves = waves } ∷ rest, later)
  with_waves u us (waves, some e) _ = (record u { waves = waves } ∷ us, some e)

  abbrev pub unchanged :
      Update V Time → List (Update V Time) × Option Error → List (Update V Time) × Option Error
  unchanged u (rest, later) = (u ∷ rest, later)

  unfoldable pub fill_updates :
      (Update V Time → Bool)
      → Time
      → List UpdateWave
      → List (Update V Time)
      → List (Update V Time) × Option Error
  fill_updates chosen start_at ws [] = ([], none)
  fill_updates chosen start_at ws (u ∷ us) =
      let rest = fill_updates chosen start_at ws us in
      if chosen u then with_waves u us (fill_waves c start_at 0 ws []) rest else unchanged u rest

  unfoldable pub set_waves :
      Text → Text → V → Time → List UpdateWave → Manifest V Time → Manifest V Time × Outcome
  unfolding fill_updates validate_updates
  set_waves variant arch image_version start_at ws m =
      let chosen = is_chosen variant arch image_version in
      let (updates, problem) = fill_updates chosen start_at ws m.updates in
      (
        record m { updates = updates },
        outcome_of (length (keep chosen m.updates)) problem (validate_updates updates),
      )
