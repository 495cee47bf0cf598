-- ===== src/Db/MysqlTime.antt =====
-- burger/db/MysqlTime.h and burger/db/MysqlTime.cc: times as MYSQL_TIME. `localtime_r` and `mktime` of the system
-- are arguments. Fields are integers; what a MYSQL_TIME holds besides its six fields is left alone.
mod RoundTrip
mod Tests
use burger.Common.{ℕ, ltb, if◌then◌else◌, ℤ, pos, negsuc, ◌+ℤ◌, ◌-ℤ◌}

-- `struct tm`; the fields that `mktime` ignores are `rest`.
pub record Tm : Type 0 where
  pub year : ℤ
  pub mon : ℤ
  pub mday : ℤ
  pub hour : ℤ
  pub min : ℤ
  pub sec : ℤ
  pub isdst : ℤ
  pub rest : ℕ

pub record MysqlTime : Type 0 where
  pub year : ℤ
  pub month : ℤ
  pub day : ℤ
  pub hour : ℤ
  pub minute : ℤ
  pub second : ℤ

unfoldable pub time_t_to_mysql_time : (ℤ → Tm) → ℤ → MysqlTime
time_t_to_mysql_time localtime ts =
    let tm = localtime ts in
    record {
      year = tm.year +ℤ pos 1900;
      month = tm.mon +ℤ pos 1;
      day = tm.mday;
      hour = tm.hour;
      minute = tm.min;
      second = tm.sec;
    }

abbrev pub not_negative : ℤ → ℤ
not_negative (pos n) = pos n
not_negative (negsuc n) = pos 0

-- The `tm` that is filled in is the one of time 0.
unfoldable pub mysql_time_to_time_t : (ℤ → Tm) → (Tm → ℤ) → MysqlTime → ℤ
mysql_time_to_time_t localtime mktime mt = not_negative (
    mktime (record (localtime (pos 0)) {
      year = mt.year -ℤ pos 1900;
      mon = mt.month -ℤ pos 1;
      mday = mt.day;
      hour = mt.hour;
      min = mt.minute;
      sec = mt.second;
    }))
