-- ===== src/Time.antt =====
-- Go's `time`, as far as the program uses it: an instant is a number of nanoseconds since 1970 and a
-- duration is an `int64` number of nanoseconds.
use v2b_x_liusu.Prelude.{◌≡◌, refl, ◌+◌, ◌*◌, ◌/◌, ◌^◌}
use v2b_x_liusu.Prelude.Int.{ℤ, pos, negsuc, pos_part, neg_part, sub_ℕ, mul64}

-- time.Duration(n) * time.Second
unfoldable pub seconds : ℤ → ℤ
unfolding mul64
seconds n = mul64 n (pos (10 ^ 9))

-- time.Duration(n) * time.Minute
unfoldable pub minutes : ℤ → ℤ
unfolding mul64
minutes n = mul64 n (pos (60 * 10 ^ 9))

-- t.Add(d)
unfoldable pub time_add : ℤ → ℤ → ℤ
time_add t d = sub_ℕ (pos_part t + pos_part d) (neg_part t + neg_part d)

-- t.Unix(), rounded down
unfoldable pub unix : ℤ → ℤ
unix (pos n) = pos (n / 10 ^ 9)
unix (negsuc n) = negsuc (n / 10 ^ 9)

in_two_seconds : unix (time_add (pos (5 * 10 ^ 9)) (seconds (pos 2))) ≡ pos 7
unfolding unix time_add seconds
in_two_seconds = refl
