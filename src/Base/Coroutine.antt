-- ===== src/Base/Coroutine.antt =====
-- burger/base/Coroutine.h and burger/base/Coroutine.cc: the state of a coroutine. A callback is its number. The
-- switch of contexts is assembly: `inside` says that the context has not come to the end of
-- `RunInCo`, behind which it cannot be resumed.
use burger.Common.{ℕ, Bool, true, false, Option, none, some}

pub data State : Type 0 where
  exec hold term : State

-- The descriptor -1 is `none`.
pub record Coroutine : Type 0 where
  pub state : State
  pub callback : Option ℕ
  pub fd : Option ℕ
  pub inside : Bool

abbrev pub fresh : ℕ → Coroutine
fresh cb = record { state = term; callback = some cb; fd = none; inside = true }

abbrev pub set_state : State → Coroutine → Coroutine
set_state s co = record co { state = s }

abbrev pub set_fd : Option ℕ → Coroutine → Coroutine
set_fd fd co = record co { fd = fd }

-- `BURGER_ASSERT` ends the program when the state is not TERM.
abbrev pub reset_at : State → ℕ → Coroutine → Option Coroutine
reset_at term cb co = some (record co { callback = some cb; inside = true })
reset_at exec cb co = none
reset_at hold cb co = none

abbrev pub reset : ℕ → Coroutine → Option Coroutine
reset cb co = reset_at co.state cb co

-- What `RunInCo` does once the callback has returned.
abbrev pub run_end : Coroutine → Coroutine
run_end co = record co { callback = none; state = term; inside = false }
