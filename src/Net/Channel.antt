-- ===== src/Net/Channel.antt =====
-- burger/net/Channel.h and burger/net/Channel.cc: what a channel watches, and the callbacks that an event
-- runs. `events_` holds only the masks `kReadEvent` and `kWriteEvent`, so it is the pair of these.
use burger.Common.{ℕ, Bool, true, false, not, ◌&&◌, ◌||◌, List, [], ◌∷◌, ◌++◌, if◌then◌else◌}

pub data Status : Type 0 where
  new added dismissed : Status

pub record Events : Type 0 where
  pub reading : Bool
  pub writing : Bool

abbrev pub none_event : Events
none_event = record { reading = false; writing = false }

-- The bits that `epoll_wait` reports.
pub record Revents : Type 0 where
  pub epoll_in : Bool
  pub epoll_pri : Bool
  pub epoll_out : Bool
  pub epoll_hup : Bool
  pub epoll_rdhup : Bool
  pub epoll_err : Bool

pub data Callback : Type 0 where
  close error read write : Callback

-- `id` stands for the object's address, and `owner_loop` for the loop's, `loop_`. The four flags say which callbacks are set.
pub record Channel : Type 0 where
  pub id : ℕ
  pub owner_loop : ℕ
  pub fd : ℕ
  pub events : Events
  pub revents : Revents
  pub status : Status
  pub tied : Bool
  pub added_to_epoll : Bool
  pub on_close : Bool
  pub on_error : Bool
  pub on_read : Bool
  pub on_write : Bool

abbrev pub no_revents : Revents
no_revents = record {
  epoll_in = false;
  epoll_pri = false;
  epoll_out = false;
  epoll_hup = false;
  epoll_rdhup = false;
  epoll_err = false;
}

unfoldable pub init : ℕ → ℕ → ℕ → Channel
init id loop fd = record {
  id = id;
  owner_loop = loop;
  fd = fd;
  events = none_event;
  revents = no_revents;
  status = new;
  tied = false;
  added_to_epoll = false;
  on_close = false;
  on_error = false;
  on_read = false;
  on_write = false;
}

abbrev pub is_writing : Channel → Bool
is_writing c = c.events.writing

abbrev pub is_reading : Channel → Bool
is_reading c = c.events.reading

abbrev pub is_none_event : Channel → Bool
is_none_event c = not c.events.reading && not c.events.writing

-- The change of `events_` that each of the five methods makes before it calls `update`.
abbrev pub enable_reading : Channel → Channel
enable_reading c = record c { events = record { reading = true; writing = c.events.writing } }

abbrev pub disable_reading : Channel → Channel
disable_reading c = record c { events = record { reading = false; writing = c.events.writing } }

abbrev pub enable_writing : Channel → Channel
enable_writing c = record c { events = record { reading = c.events.reading; writing = true } }

abbrev pub disable_writing : Channel → Channel
disable_writing c = record c { events = record { reading = c.events.reading; writing = false } }

abbrev pub disable_all : Channel → Channel
disable_all c = record c { events = none_event }

abbrev pub when : Bool → Callback → List Callback
when true k = k ∷ []
when false k = []

-- The callbacks that run, in order.
unfoldable pub handle_event_with_guard : Channel → List Callback
handle_event_with_guard c =
    when (c.revents.epoll_hup && not c.revents.epoll_in && c.on_close) close
    ++ (when (c.revents.epoll_err && c.on_error) error
        ++ (when
              ((c.revents.epoll_in || (c.revents.epoll_pri || c.revents.epoll_rdhup)) && c.on_read)
              read
            ++ when (c.revents.epoll_out && c.on_write) write))

-- `alive`: the object that the channel is tied to still exists.
unfoldable pub handle_event : Bool → Channel → List Callback
unfolding handle_event_with_guard
handle_event alive c =
    if c.tied then (if alive then handle_event_with_guard c else []) else handle_event_with_guard c
