-- ===== src/Ranking/Policy/Bands.antt =====
-- The coverage bands and the recency buckets of purr/src/ranking/policy.rs follow what they measure.
use clipkitty.Base.{
  ℕ, zero, suc, ◌*◌, ◌/◌, ◌^◌, ◌≤◌, ◌<◌, pos, sub_ℕ, sub_i64-sub_ℕ, pos_part, ◌≡◌, arith,
}
use native.Mathlib.Nat.{div-le_of_le-mul, le-div_iff_mul-le, div-mul-le_self}
use clipkitty.Ranking.Types.{coverage_rank, recency_rank}
use clipkitty.Ranking.Policy.{
  coverage_pct, band_of_pct, compute_coverage_band, bucket_of_age, compute_recency_bucket,
}

div_mono : (a b k : ℕ) → 0 < k → a ≤ b → a / k ≤ b / k
div_mono a b k h le = (le-div_iff_mul-le h).1 (omega (arith, div-mul-le_self a k))

-- The percentage of a part is at most 100, and the cast to a `u8` keeps it.
pub coverage_pct-le :
    (total matched : ℕ)
    → matched ≤ total
    → (coverage_pct total matched ≡ matched * 100 / total) × (coverage_pct total matched ≤ 100)
unfolding coverage_pct
coverage_pct-le total matched h =
    let le : matched * 100 / total ≤ 100 = div-le_of_le-mul total (omega arith) in
    (omega arith, omega arith)

band_of_pct_mono : (a b : ℕ) → a ≤ b → coverage_rank (band_of_pct a) ≤ coverage_rank (band_of_pct b)
unfolding band_of_pct
band_of_pct_mono a b h = ground arith

-- Of two weights that are at most the weight of the query, the larger is not in a lower coverage
-- band.
pub compute_coverage_band_mono :
    (total less more : ℕ)
    → less ≤ more
    → more ≤ total
    → coverage_rank (compute_coverage_band total less)
      ≤ coverage_rank (compute_coverage_band total more)
unfolding compute_coverage_band
compute_coverage_band_mono zero less more h part = ground arith
compute_coverage_band_mono (suc t) less more h part =
    let a = coverage_pct-le (suc t) less (omega arith) in
    let b = coverage_pct-le (suc t) more part in
    let pct : coverage_pct (suc t) less ≤ coverage_pct (suc t) more =
      omega (arith, div_mono (less * 100) (more * 100) (suc t) (omega arith) (omega arith)) in
    let bands = band_of_pct_mono (coverage_pct (suc t) less) (coverage_pct (suc t) more) pct in
    ground arith

bucket_of_age_mono :
    (a b : ℕ) → a ≤ b → recency_rank (bucket_of_age b) ≤ recency_rank (bucket_of_age a)
unfolding bucket_of_age
bucket_of_age_mono a b h = ground arith

-- Of two times from 1970 on, the later is not in an older recency bucket, wherever they stand to the
-- current time.
pub compute_recency_bucket_mono :
    (early late now : ℕ)
    → early ≤ late
    → late < 2 ^ 63
    → now < 2 ^ 63
    → recency_rank (compute_recency_bucket (pos early) (pos now))
      ≤ recency_rank (compute_recency_bucket (pos late) (pos now))
unfolding compute_recency_bucket
compute_recency_bucket_mono early late now h p q =
    let age : pos_part (sub_ℕ now late) ≤ pos_part (sub_ℕ now early) = ground arith in
    rw (sub_i64-sub_ℕ now early q (omega arith), sub_i64-sub_ℕ now late q p)
      (bucket_of_age_mono (pos_part (sub_ℕ now late)) (pos_part (sub_ℕ now early)) age)
