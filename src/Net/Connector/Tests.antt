-- ===== src/Net/Connector/Tests.antt =====
-- Runs of the connector, and its theorems at concrete ones.
use burger.Common.{◌+◌, ◌≡◌, refl, true, false, none, some, [], ◌∷◌}
use burger.Net.Connector.{
  Connector, init, start, handle_write, settle, retry, start_in_loop, connect, connecting_on,
  remove_and_reset_channel, opened, handed, disconnected, connected, connecting, resets_channel,
}
use burger.Net.Connector.Backoff.{retry_all}
use burger.Net.Connector.Sockets.{
  Reach, here, next, started, written, opens, ends, holds, Reach-holds,
}

abbrev begun : Connector
begun = record {
  connect = true;
  status = disconnected;
  channel = none;
  delay = 500;
  queued = [];
  timers = [];
  log = [];
}

backed_off :
    (retry_all (3 ∷ 4 ∷ 5 ∷ 6 ∷ 7 ∷ 8 ∷ 9 ∷ 10 ∷ []) begun).timers
    ≡ 500 ∷ 1000 ∷ 2000 ∷ 4000 ∷ 8000 ∷ 16000 ∷ 30000 ∷ 30000 ∷ []
unfolding retry_all retry
backed_off = refl

abbrev done : Connector
done = record {
  connect = true;
  status = connected;
  channel = some 7;
  delay = 500;
  queued = resets_channel ∷ [];
  timers = [];
  log = opened 7 ∷ handed 7 ∷ [];
}

reached : Reach init done
unfolding init start start_in_loop connect connecting_on handle_write settle
    remove_and_reset_channel
reached =
    next {d = record begun { status = connecting; channel = some 7; log = opened 7 ∷ [] }}
      (next here (started true 7 115 refl)) (written 0 false refl)

Reach-holds_example : opens 7 done.log ≡ ends 7 done.log + holds 7 done
Reach-holds_example = Reach-holds 7 reached
