-- ===== src/Limiter/Rate.antt =====
-- veil/dynamic.go, determineSpeedLimit: the smaller of two limits, where 0 is no limit.
use v2b_x_liusu.Prelude.{◌≡◌, ◌≢◌, ◌⊎◌, ◌||◌, arith, if◌then◌else◌}
use v2b_x_liusu.Prelude.Int.{ℤ, pos, negsuc, ltb_ℤ, ◌≤ℤ◌}
use v2b_x_liusu.Prelude.Eq.{◌==◌, int_eq}

unfoldable pub determine_speed_limit : ℤ → ℤ → ℤ
determine_speed_limit limit1 limit2 =
    if limit1 == pos 0 || limit2 == pos 0
    then (if ltb_ℤ limit2 limit1 then limit1 else if ltb_ℤ limit1 limit2 then limit2 else pos 0)
    else (if ltb_ℤ limit2 limit1 then limit2 else if ltb_ℤ limit1 limit2 then limit1 else limit1)

-- `r` is the tighter of the limits `a` and `b` where 0 stands for no limit.
pub record IsTighter (a b r : ℤ) : Type 0 where
  pub unlimited : r ≡ pos 0 → (a ≡ pos 0) × (b ≡ pos 0)
  pub one_of_them : (r ≡ a) ⊎ (r ≡ b)
  pub below_left : a ≢ pos 0 → r ≤ℤ a
  pub below_right : b ≢ pos 0 → r ≤ℤ b

-- For limits that are not negative the result is one of the two, no larger than either of those
-- that are set, and 0 only if both are 0.
pub determine_speed_limit-IsTighter :
    (a b : ℤ) → pos 0 ≤ℤ a → pos 0 ≤ℤ b → IsTighter a b (determine_speed_limit a b)
unfolding determine_speed_limit
determine_speed_limit-IsTighter (negsuc a) b ha hb = absurd (omega arith)
determine_speed_limit-IsTighter (pos a) (negsuc b) ha hb = absurd (omega arith)
determine_speed_limit-IsTighter (pos a) (pos b) ha hb = record {
  unlimited = ground arith;
  one_of_them = ground arith;
  below_left = ground arith;
  below_right = ground arith;
}

-- The order of the two limits does not matter.
pub determine_speed_limit_comm : (a b : ℤ) → determine_speed_limit a b ≡ determine_speed_limit b a
unfolding determine_speed_limit
determine_speed_limit_comm a b = ground arith
