-- ===== src/Net/EventLoop/Cycle.antt =====
-- `loop` of burger/net/EventLoop.cc, the loop of a thread, with what other threads do to it. What a channel's
-- callbacks do is an argument; an answer of epoll comes with the calls of other threads while the
-- loop waits for it and while it handles it. `none` is a failed assert.
use burger.Common.{
  ℕ, Bool, true, false, not, ◌&&◌, Option, none, some, List, [], ◌∷◌, if◌then◌else◌, ◌>>=◌, ◌>>◌,
  assert,
}
use burger.Net.EventLoop.{
  Func, Loop, is_in_loop_thread, queue_in_loop, stop, do_queue_in_loop_funcs,
}

-- A call of a thread.
pub data Act : Type 0 where
  queue : ℕ → Func → Act
  quit : ℕ → Act

unfoldable pub act : Act → Loop → Loop
unfolding queue_in_loop stop
act (queue tid f) l = queue_in_loop tid f l
act (quit tid) l = stop tid l

unfoldable pub acts : List Act → Loop → Loop
acts [] l = l
acts (a ∷ rest) l = acts rest (act a l)

pub record Turn : Type 0 where
  pub waiting : List Act
  pub active : List ℕ
  pub handling : List Act

module _ (handle : ℕ → Loop → Option Loop) (fuel : ℕ) where
  unfoldable pub handle_all : List ℕ → Loop → Option Loop
  handle_all [] l = some l
  handle_all (c ∷ cs) l = handle c (record l { current = some c }) >>= handle_all cs

  -- One round of the loop.
  unfoldable pub turn : Turn → Loop → Option Loop
  unfolding acts handle_all
  turn t l =
      let l1 = acts t.waiting (record l { active = [] }) in
      handle_all t.active (record l1 { active = t.active; event_handling = true }) >>= λ l2.
      do_queue_in_loop_funcs fuel
        (acts t.handling (record l2 { current = none; event_handling = false }))

  -- The rounds of the answers of epoll that come; whether the loop has ended.
  unfoldable pub turns : List Turn → Loop → Option (Bool × Loop)
  turns [] l = some (if l.quit then (true, record l { looping = false }) else (false, l))
  turns (t ∷ ts) l = elim l.quit [
    | true ↦ some (true, record l { looping = false })
    | false ↦ turn t l >>= turns ts
  ]

  unfoldable pub loop : ℕ → List Turn → Loop → Option (Bool × Loop)
  unfolding turns
  loop tid ts l =
      assert (not l.looping)
      >> assert (is_in_loop_thread tid l)
      >> turns ts (record l { looping = true; quit = false })

unfoldable pub is_running : Loop → Bool
is_running l = l.looping && not l.quit
