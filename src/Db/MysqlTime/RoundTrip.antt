-- ===== src/Db/MysqlTime/RoundTrip.antt =====
-- There and back.
use burger.Common.{ℕ, ◌≡◌, refl, sym, arith, ℤ, pos, ◌+ℤ◌, ◌-ℤ◌}
use burger.Db.MysqlTime.{Tm, time_t_to_mysql_time, mysql_time_to_time_t}

add-sub : (a : ℤ) (n : ℕ) → (a +ℤ pos n) -ℤ pos n ≡ a
unfolding ◌+ℤ◌ ◌-ℤ◌
add-sub a n = ground arith

-- The manual's promise at one time: `mktime` undoes `localtime_r`, and reads neither the day of the
-- week nor the day of the year.
unfoldable pub Undoes : (ℤ → Tm) → (Tm → ℤ) → ℕ → Type 0
Undoes localtime mktime n = (rest : ℕ) → mktime (record (localtime (pos n)) { rest = rest }) ≡ pos n

-- A time that is not negative, made a MYSQL_TIME and back, is itself, over a localtime_r that
-- mktime undoes at that time whatever the day of the week and of the year, when daylight saving is
-- at that time as at time 0.
pub time-round_trip :
    (localtime : ℤ → Tm) (mktime : Tm → ℤ) (n : ℕ)
    → Undoes localtime mktime n
    → (localtime (pos n)).isdst ≡ (localtime (pos 0)).isdst
    → mysql_time_to_time_t localtime mktime (time_t_to_mysql_time localtime (pos n)) ≡ pos n
unfolding Undoes mysql_time_to_time_t time_t_to_mysql_time
time-round_trip localtime mktime n undoes dst =
    let tm = localtime (pos n) in
    rw (add-sub tm.year 1900, add-sub tm.mon 1, sym dst, undoes (localtime (pos 0)).rest) refl
