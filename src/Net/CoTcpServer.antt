-- ===== src/Net/CoTcpServer.antt =====
-- burger/net/CoTcpServer.h, burger/net/CoTcpServer.cc: the coroutine that accepts, and the processors that get the
-- connections. A task is numbered by the descriptor of its connection. `none` is a failed assert
-- or an overflow of the `int` that counts the connections.
mod Tests
use burger.Common.{
  ℕ, zero, suc, ◌+◌, ◌^◌, Bool, true, false, not, Option, none, some, List, [], ◌∷◌, ◌++◌,
  if◌then◌else◌, ◌==◌, ltb, ◌>>=◌, ◌>>◌, assert,
}
use burger.Net.Acceptor.{Event, opened, closed, handed, Accepted, accepted, refused, emfile, spare}
use burger.Net.Processor.{Processor, add_to_conn_map, add_pending_task, add_task}
use burger.Net.Scheduler.{
  Scheduler, Pick, the_main, the_work, change_at, pick_one_work_processor, set_work_proc_num,
  add_main_task, start,
}

pub record CoTcpServer : Type 0 where
  pub scheduler : Scheduler
  pub started : Bool
  pub next_conn_id : ℕ
  pub idle : Option ℕ
  pub log : List Event

unfoldable pub set_thread_num : ℕ → CoTcpServer → Option CoTcpServer
set_thread_num n s =
    assert (ltb 0 n) >> some (record s { scheduler = set_work_proc_num n s.scheduler })

-- `accepts` is the number of the task that accepts, `p` a new processor.
unfoldable pub start_server : ℕ → Processor → CoTcpServer → Option CoTcpServer
start_server accepts p s =
    let given = add_main_task accepts (start p s.scheduler) in
    if s.started
    then some s
    else (given >>= λ scheduler. some (record s { scheduler = scheduler; started = true }))

-- The main processor runs the coroutine that accepts; another one gets the task from its thread.
abbrev pub add_conn_main : ℕ → Option Processor → Option Processor
add_conn_main fd none = none
add_conn_main fd (some p) = add_task fd (add_to_conn_map fd p)

abbrev pub add_conn : ℕ → Pick × Scheduler → Option Scheduler
add_conn fd (the_main, s) = add_conn_main fd s.main >>= λ p. some (record s { main = some p })
add_conn fd (the_work i, s) =
    change_at i (λ p. add_pending_task fd (add_to_conn_map fd p)) s.works >>= λ ps.
    some (record s { works = ps })

abbrev pub spared : CoTcpServer → Option ℕ × List Event → CoTcpServer
spared s (idle, log) = record s { idle = idle; log = log }

-- A round of `startAccept`. The descriptor 0 counts as an error, whose `errno` is an earlier one's.
unfoldable pub accept_round : Accepted → Option ℕ → Option ℕ → CoTcpServer → Option CoTcpServer
unfolding spare
accept_round (accepted zero) conn again s = some (record s { log = s.log ++ opened 0 ∷ [] })
accept_round (accepted (suc n)) conn again s =
    pick_one_work_processor s.scheduler >>= add_conn (suc n) >>= λ scheduler.
    assert (ltb (s.next_conn_id + 1) (2 ^ 31))
    >> some (record s {
      scheduler = scheduler;
      next_conn_id = s.next_conn_id + 1;
      log = s.log ++ opened (suc n) ∷ handed (suc n) ∷ [];
    })
accept_round (refused errno) conn again s =
    some (if errno == emfile then spared s (spare s.idle conn again s.log) else s)
