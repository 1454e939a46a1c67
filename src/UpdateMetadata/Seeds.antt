-- ===== src/UpdateMetadata/Seeds.antt =====
-- tools/update-metadata/src/lib.rs: the seed at which a wave ends, from its fleet percentage.
-- The source computes it in `f32`. Single precision is written out for positive quotients: a
-- significand of 24 bits rounded half to even, over a power of two.
pub mod Bounds
use twoliter.Prelude.{ℕ, zero, suc, ◌+◌, ◌*◌, ◌/◌, ◌%◌, ◌^◌, ltb, leb, ◌==◌, if◌then◌else◌}

-- `MAX_SEED`
abbrev pub max_seed : ℕ
max_seed = 2048

-- The value `significand / 2 ^ scale`.
pub record F32 : Type 0 where
  pub significand : ℕ
  pub scale : ℕ

round_half_even : ℕ → ℕ → ℕ
round_half_even n d =
    let q = n / d in
    let twice = 2 * (n % d) in
    if ltb twice d then q else if ltb d twice then q + 1 else if q % 2 == 0 then q else q + 1

-- The least scale from `e` on at which n / d has 24 bits before the point.
scale_from : ℕ → ℕ → ℕ → ℕ → ℕ
scale_from zero n d e = e
scale_from (suc fuel) n d e =
    let next = scale_from fuel n d (e + 1) in if leb (2 ^ 23 * d) (n * 2 ^ e) then e else next

-- `n as f32 / d as f32`, for n and d below 2 ^ 24 with n ≤ d. 127 scales reach every such quotient.
unfoldable pub f32_div : ℕ → ℕ → F32
unfolding round_half_even scale_from
f32_div n d =
    let e = scale_from 127 n d 23 in
    record { significand = round_half_even (n * 2 ^ e) d; scale = e }

-- `(percent * MAX_SEED as f32) as u32`: the product with a power of two is exact, the cast truncates.
unfoldable pub seed_of_percent : ℕ → ℕ
unfolding f32_div
seed_of_percent fleet_percentage =
    let percent = f32_div fleet_percentage 100 in percent.significand * max_seed / 2 ^ percent.scale
