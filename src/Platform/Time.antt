-- ===== src/Platform/Time.antt =====
-- `time.Time` and `time.Duration`. A time is its number of nanoseconds after the zero time
-- (the start of the year 1), which is `time.Time{}`; earlier times are not modelled.
use movra.Prelude.{ℕ, suc, ◌+◌, ◌-◌, ◌*◌, ◌/◌, ◌%◌, ltb}
use movra.Prelude.{Bool}
use movra.Prelude.Int.{ℤ, pos, negsuc, pos_part, neg_part, ◌-ℤ◌, to_int64}

abbrev pub Time : Type 0
Time = ℕ

abbrev pub zero_time : Time
zero_time = 0

abbrev pub second : ℕ
second = 1_000_000_000

abbrev pub hour : ℕ
hour = 3600 * second

-- The seconds from the zero time to the Unix epoch.
abbrev pub unix_offset : ℕ
unix_offset = 62_135_596_800

-- `t.Unix()`
unfoldable pub unix : Time → ℤ
unix t = pos (t / second) -ℤ pos unix_offset

-- `t.Nanosecond()`
abbrev pub nanosecond : Time → ℕ
nanosecond t = t % second

-- `t.UnixNano()`, which wraps around outside of the years 1678 to 2262.
unfoldable pub unix_nano : Time → ℤ
unix_nano t = to_int64 (pos t -ℤ pos (unix_offset * second))

-- `t.Add(d)`; a sum before the zero time is not modelled and stops there.
abbrev pub add : Time → ℤ → Time
add t d = t + pos_part d - neg_part d

-- `t.After(u)`
abbrev pub after : Time → Time → Bool
after t u = ltb u t

abbrev pub whole_seconds : ℤ → ℤ
whole_seconds (pos n) = pos (n * second)
whole_seconds (negsuc n) = negsuc (suc n * second - 1)

-- `time.Duration(n) * time.Second`
unfoldable pub seconds : ℤ → ℤ
seconds n = to_int64 (whole_seconds n)
