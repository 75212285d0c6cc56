-- ===== src/Util/Time.antt =====
-- src/slim/util/Timestamp.hpp, Duration.hpp and BigInteger.hpp. A duration is a number of
-- microseconds, a timestamp the clock's number of nanoseconds; both are unbounded integers here,
-- where the source has 64 bits (292 years of nanoseconds).
use slimstream.Base.{Bool}
use slimstream.Base.Int.{ℤ, pos, ◌+ℤ◌, ◌-ℤ◌, ◌*ℤ◌, tdiv, ltb_ℤ}

abbrev pub Duration : Type 0
Duration = ℤ

abbrev pub Timestamp : Type 0
Timestamp = ℤ

-- the constructor from a duration
unfoldable pub of_duration : Duration → Timestamp
unfolding ◌*ℤ◌
of_duration d = d *ℤ pos 1000

-- `get(milliseconds)`
unfoldable pub get_milliseconds : Timestamp → ℤ
unfolding tdiv
get_milliseconds t = tdiv t 1000000

-- `operator-` of two timestamps
unfoldable pub elapsed : Timestamp → Timestamp → Duration
unfolding ◌-ℤ◌ tdiv
elapsed t from = tdiv (t -ℤ from) 1000

-- `operator+` and `operator-` of a timestamp and a duration
unfoldable pub later : Timestamp → Duration → Timestamp
unfolding ◌+ℤ◌ of_duration
later t d = t +ℤ of_duration d

unfoldable pub earlier : Timestamp → Duration → Timestamp
unfolding ◌-ℤ◌ of_duration
earlier t d = t -ℤ of_duration d

-- `operator<`
abbrev pub is_before : Timestamp → Timestamp → Bool
is_before = ltb_ℤ
