-- ===== src/Net/Epoll.antt =====
-- burger/net/Epoll.h, burger/net/Epoll.cc and the channel methods of burger/net/EventLoop.cc: the map of
-- channels and the kernel's interest list. The kernel is a parameter; a failed `assert`, or a call
-- from another thread, is `none`.
pub mod Calls
pub mod Tracking
mod Tests
use burger.Common.{
  ℕ, ◌+◌, ◌*◌, ◌≡◌, ◌≢◌, Bool, true, false, not, ◌&&◌, ◌||◌, Option, none, some, List, [], ◌∷◌,
  if◌then◌else◌, ◌==◌, leb, ◌>>=◌, ◌>>◌, assert, length,
}
use burger.Net.EventLoop.{Loop, is_in_loop_thread}
use burger.Net.Channel.{
  Channel, Status, new, added, dismissed, Events, Revents, is_none_event, enable_reading,
  disable_reading, enable_writing, disable_writing, disable_all,
}

pub data Ctl : Type 0 where
  ctl_add ctl_mod ctl_del : Ctl

-- Where a call is made: the thread, and the loop that is called, with its number.
pub record Site : Type 0 where
  pub tid : ℕ
  pub number : ℕ
  pub loop : Loop

abbrev pub is_in_thread : Site → Bool
is_in_thread at = is_in_loop_thread at.tid at.loop

abbrev pub contains : ℕ → List ℕ → Bool
contains x [] = false
contains x (y ∷ ys) = y == x || contains x ys

-- The state of the loop lets go of this channel: while events are handled it is the one whose
-- events are, or it had none.
abbrev pub is_current : ℕ → Option ℕ → Bool
is_current id none = false
is_current id (some c) = c == id

abbrev pub may_remove : ℕ → Loop → Bool
may_remove id l = not l.event_handling || (is_current id l.current || not (contains id l.active))

-- `epoll_ctl` on one epoll instance, as its manual states it for descriptors that can be polled: a
-- descriptor is added once, and changed and removed while it is there.
pub record Kernel : Type 1 where
  pub State : Type 0
  pub ctl : Ctl → ℕ → Events → State → State
  pub interest : State → ℕ → Option Events
  pub interest-add :
      (fd j : ℕ) (ev : Events) (k : State)
      → interest k fd ≡ none
      → interest (ctl ctl_add fd ev k) j ≡ (if fd == j then some ev else interest k j)
  pub interest-mod :
      (fd j : ℕ) (ev old : Events) (k : State)
      → interest k fd ≡ some old
      → interest (ctl ctl_mod fd ev k) j ≡ (if fd == j then some ev else interest k j)
  pub interest-del :
      (fd j : ℕ) (ev old : Events) (k : State)
      → interest k fd ≡ some old
      → interest (ctl ctl_del fd ev k) j ≡ (if fd == j then none else interest k j)

module _ (kernel : Kernel) where
  open kernel use {State, ctl}

  -- `channelMap_` from descriptors to channels, the epoll instance, the size of `eventList_`.
  pub record Epoll : Type 0 where
    pub map : ℕ → Option ℕ
    pub instance_state : State
    pub event_list_size : ℕ

  abbrev pub insert : ℕ → ℕ → (ℕ → Option ℕ) → ℕ → Option ℕ
  insert fd id m j = if fd == j then some id else m j

  abbrev pub erase : ℕ → (ℕ → Option ℕ) → ℕ → Option ℕ
  erase fd m j = if fd == j then none else m j

  abbrev pub is_none : Option ℕ → Bool
  is_none none = true
  is_none (some x) = false

  abbrev pub holds : Option ℕ → ℕ → Bool
  holds none id = false
  holds (some x) id = x == id

  abbrev pub epollctl : Ctl → Channel → Epoll → Epoll
  epollctl op c e = record e { instance_state = ctl op c.fd c.events e.instance_state }

  abbrev pub update_at : Status → Channel → Epoll → Option (Channel × Epoll)
  update_at new c e = do
    assert (is_none (e.map c.fd))
    let c' = record c { status = added }
    some (c', epollctl ctl_add c' (record e { map = insert c.fd c.id e.map }))
  update_at dismissed c e = do
    assert (holds (e.map c.fd) c.id)
    let c' = record c { status = added }
    some (c', epollctl ctl_add c' e)
  update_at added c e = do
    assert (holds (e.map c.fd) c.id)
    some (
        if is_none_event c
        then (record c { status = dismissed }, epollctl ctl_del c e)
        else (c, epollctl ctl_mod c e))

  unfoldable pub update_channel : Site → Channel → Epoll → Option (Channel × Epoll)
  update_channel at c e = assert (is_in_thread at) >> update_at c.status c e

  abbrev pub is_new : Status → Bool
  is_new new = true
  is_new added = false
  is_new dismissed = false

  abbrev pub is_added : Status → Bool
  is_added added = true
  is_added new = false
  is_added dismissed = false

  unfoldable pub remove_channel : Site → Channel → Epoll → Option (Channel × Epoll)
  remove_channel at c e = do
    assert (is_in_thread at)
    assert (holds (e.map c.fd) c.id)
    assert (is_none_event c)
    assert (not (is_new c.status))
    let e' = record e { map = erase c.fd e.map }
    some (record c { status = new }, (if is_added c.status then epollctl ctl_del c e' else e'))

  unfoldable pub has_channel : Site → Channel → Epoll → Option Bool
  has_channel at c e = assert (is_in_thread at) >> some (holds (e.map c.fd) c.id)

  -- The loop's methods, with their asserts.
  unfoldable pub loop_update_channel : Site → Channel → Epoll → Option (Channel × Epoll)
  unfolding update_channel
  loop_update_channel at c e = do
    assert (c.owner_loop == at.number)
    assert (is_in_thread at)
    update_channel at c e

  unfoldable pub loop_remove_channel : Site → Channel → Epoll → Option (Channel × Epoll)
  unfolding remove_channel
  loop_remove_channel at c e = do
    assert (c.owner_loop == at.number)
    assert (is_in_thread at)
    assert (may_remove c.id at.loop)
    remove_channel at c e

  unfoldable pub loop_has_channel : Site → Channel → Epoll → Option Bool
  unfolding has_channel
  loop_has_channel at c e = do
    assert (c.owner_loop == at.number)
    assert (is_in_thread at)
    has_channel at c e

  -- `Channel::update` and `Channel::remove`, through the loop.
  unfoldable pub update : Site → Channel → Epoll → Option (Channel × Epoll)
  unfolding loop_update_channel
  update at c e = loop_update_channel at (record c { added_to_epoll = true }) e

  -- The methods of a channel that reach the poller.
  pub data Call : Type 0 where
    enables_reading disables_reading enables_writing disables_writing disables_all removes : Call

  unfoldable pub remove : Site → Channel → Epoll → Option (Channel × Epoll)
  unfolding loop_remove_channel
  remove at c e = do
    assert (is_none_event c)
    loop_remove_channel at (record c { added_to_epoll = false }) e

  unfoldable pub call : Site → Call → Channel → Epoll → Option (Channel × Epoll)
  call at enables_reading c e = update at (enable_reading c) e
  call at disables_reading c e = update at (disable_reading c) e
  call at enables_writing c e = update at (enable_writing c) e
  call at disables_writing c e = update at (disable_writing c) e
  call at disables_all c e = update at (disable_all c) e
  call at removes c e = remove at c e

  -- The size of `eventList_` after a wait that reported `n` events: a full list doubles.
  unfoldable pub grow : ℕ → Epoll → Option Epoll
  grow n e = do
    assert (leb n e.event_list_size)
    some
        (if n == e.event_list_size then record e { event_list_size = e.event_list_size * 2 } else e)
