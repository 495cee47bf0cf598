-- ===== src/Net/CoTcpServer/Tests.antt =====
-- A server with two processors that accepts.
use burger.Common.{ℕ, ◌≡◌, refl, some, none, false, List, [], ◌∷◌, Option, ◌>>=◌, map}
use burger.Net.Acceptor.{opened, accepted, refused, emfile, spare}
use burger.Net.Processor.{empty, add_pending_task}
use burger.Net.Scheduler.{pick_one_work_processor, start, set_work_proc_num, add_main_task}
use burger.Net.CoTcpServer.{CoTcpServer, set_thread_num, start_server, accept_round}

abbrev new : CoTcpServer
new = record {
  scheduler = record {
    running = false;
    has_quit = false;
    work_proc_num = 0;
    main = none;
    works = [];
    index = 0;
  };
  started = false;
  next_conn_id = 1;
  idle = some 4;
  log = opened 4 ∷ [];
}

abbrev conns : CoTcpServer → Option (List (List ℕ))
conns s = some (map (λ p. p.pending) s.scheduler.works)

two_connections :
    (set_thread_num 2 new
      >>= start_server 100 empty
      >>= accept_round (accepted 7) none none
      >>= accept_round (refused emfile) (some 4) (some 4)
      >>= accept_round (accepted 8) none none
      >>= conns)
    ≡ some ((7 ∷ []) ∷ (8 ∷ []) ∷ [])
unfolding set_thread_num start_server accept_round start set_work_proc_num add_main_task
    pick_one_work_processor add_pending_task spare
two_connections = refl
