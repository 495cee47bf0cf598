-- ===== src/Db/MysqlTime/Tests.antt =====
-- Runs of the model at concrete inputs.
use burger.Common.{◌≡◌, refl, ℤ, pos, negsuc}
use burger.Db.MysqlTime.{Tm, time_t_to_mysql_time, mysql_time_to_time_t}
use burger.Db.MysqlTime.RoundTrip.{Undoes, time-round_trip}

-- A clock that only counts seconds, without daylight saving.
abbrev localtime : ℤ → Tm
localtime ts = record {
  year = pos 70;
  mon = pos 0;
  mday = pos 1;
  hour = pos 0;
  min = pos 0;
  sec = ts;
  isdst = pos 0;
  rest = 4;
}

abbrev mktime : Tm → ℤ
mktime tm = tm.sec

undoes : Undoes localtime mktime 86399
unfolding Undoes
undoes rest = refl

before_epoch :
    mysql_time_to_time_t localtime mktime (time_t_to_mysql_time localtime (negsuc 4)) ≡ pos 0
unfolding mysql_time_to_time_t time_t_to_mysql_time
before_epoch = refl

time-round_trip_example :
    mysql_time_to_time_t localtime mktime (time_t_to_mysql_time localtime (pos 86399)) ≡ pos 86399
time-round_trip_example = time-round_trip localtime mktime 86399 undoes refl
