-- ===== src/Net/Acceptor/Tests.antt =====
-- A server that runs out of descriptors, and the theorem at it.
use burger.Common.{◌≡◌, ◌+◌, refl, some, none, false, List, [], ◌∷◌}
use burger.Net.Acceptor.{
  opened, closed, handed, accepted, refused, emfile, Acceptor, handle_read, spare, finish,
}
use burger.Net.Acceptor.Balance.{
  Call, sets_callback, listens, reads, run, opened_count, released_count, idle_count, run_balance,
}

abbrev new : Acceptor
new = record {
  idle = some 4;
  listening = false;
  reading = false;
  has_callback = false;
  log = opened 4 ∷ [];
}

abbrev calls : List Call
calls =
    sets_callback
    ∷ listens
    ∷ reads (accepted 7) none none
    ∷ reads (refused emfile) (some 4) (some 4)
    ∷ []

spared_log :
    (run calls new).log
    ≡ opened 4 ∷ opened 7 ∷ handed 7 ∷ closed 4 ∷ opened 4 ∷ closed 4 ∷ opened 4 ∷ []
unfolding handle_read spare
spared_log = refl

run_balance_example :
    (opened_count 4 (run calls new).log
      ≡ released_count 4 (run calls new).log + idle_count 4 (run calls new).idle)
    × (opened_count 4 (finish (run calls new)).log ≡ released_count 4 (finish (run calls new)).log)
run_balance_example = run_balance 4 new calls refl 4
