-- ===== src/Net/TimerQueue/Delay.antt =====
-- `howMuchTimeFromNow` of burger/net/ITimerQueue.cc.
use burger.Common.{ℕ, ◌+◌, ◌*◌, ◌-◌, ◌≤◌, ◌<◌, ◌≡◌, ◌/◌, ◌^◌, arith, ltb, if◌then◌else◌}
use burger.Net.TimerQueue.{how_much_time_from_now}

-- For a time that is not past, the seconds and nanoseconds to it are normalized and add up to the
-- time, or to 100 microseconds when it is nearer than these.
pub how_much_time_from_now-ahead :
    (when now : ℕ)
    → now ≤ when
    → when < 2 ^ 64
    → (let (s, n) = how_much_time_from_now when now in
        (n < 1000000000)
        × (now + (s * 1000000 + n / 1000) ≡ (if ltb (when - now) 100 then now + 100 else when)))
unfolding how_much_time_from_now
how_much_time_from_now-ahead when now h b = ground arith

-- For a time that is past, when now is below 2 ^ 63 microseconds, the descriptor is set to wait
-- for at least 2 ^ 63 microseconds but a second.
pub how_much_time_from_now-past :
    (when now : ℕ)
    → when < now
    → now < 2 ^ 63
    → 2 ^ 63 ≤ (how_much_time_from_now when now).0 * 1000000 + 1000000
unfolding how_much_time_from_now
how_much_time_from_now-past when now h b = ground arith
