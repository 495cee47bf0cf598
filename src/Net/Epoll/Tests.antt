-- ===== src/Net/Epoll/Tests.antt =====
-- The poller over a small kernel: its state is the interest list itself.
use burger.Common.{
  ℕ, ◌≡◌, refl, inl, true, false, Option, none, some, List, [], ◌∷◌, ◌++◌, if◌then◌else◌, ◌==◌,
}
use burger.Net.Channel.{Channel, Events, init}
use burger.Net.Epoll.{
  Site, Kernel, Ctl, ctl_add, ctl_mod, ctl_del, Epoll, Call, enables_reading, enables_writing,
  disables_writing, disables_all, removes,
}
use burger.Net.Epoll.Tracking.{Gone, run, run-Gone}

abbrev table_ctl : Ctl → ℕ → Events → (ℕ → Option Events) → ℕ → Option Events
table_ctl ctl_add fd ev k j = if fd == j then some ev else k j
table_ctl ctl_mod fd ev k j = if fd == j then some ev else k j
table_ctl ctl_del fd ev k j = if fd == j then none else k j

abbrev table_kernel : Kernel
table_kernel = record {
  State = ℕ → Option Events;
  ctl = table_ctl;
  interest = λ k. k;
  interest-add = λ fd j ev k h. refl;
  interest-mod = λ fd j ev old k h. refl;
  interest-del = λ fd j ev old k h. refl;
}

abbrev idle : Epoll table_kernel
idle = record { map = λ j. none; instance_state = λ j. none; event_list_size = 16 }

-- The loop handles the channel's events, and another's are still to be handled.
abbrev here : Site
here = record {
  tid = 5;
  number = 3;
  loop = record {
    thread = 5;
    looping = true;
    quit = false;
    event_handling = true;
    calling = false;
    active = 1 ∷ 2 ∷ [];
    current = some 1;
    queue = [];
    wakeups = 0;
    log = [];
  };
}

abbrev channel : Channel
channel = init 1 3 7

abbrev connection : List (Call table_kernel)
connection = enables_reading ∷ enables_writing ∷ disables_writing ∷ []

run-Gone_example :
    (r : Channel × Epoll table_kernel) × (run table_kernel here
        (connection ++ disables_all ∷ removes ∷ [])
        channel
        idle
      ≡ some r)
    × Gone table_kernel 7 idle r
unfolding init
run-Gone_example =
    run-Gone table_kernel here connection channel idle ((λ h. cc), ((λ h. cc), ((λ h. cc), tt)))
      (record { in_thread = refl; owner = refl }) (λ h. inl refl) (refl, refl)
