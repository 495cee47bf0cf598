-- ===== src/Net/Epoll/Tracking.antt =====
-- The poller of burger/net/Epoll.cc keeps the kernel's interest list equal to what its channels watch.
use burger.Common.{
  ℕ, ◌≡◌, ◌≢◌, refl, sym, ◌∙◌, inl, inr, true, false, Option, none, some, List, [], ◌∷◌, ◌++◌,
  arith, if◌then◌else◌, ◌==◌, ==_refl, Bool-cases, ◌>>=◌,
}
use burger.Net.Channel.{Channel, Status, new, added, dismissed, Events, none_event, is_none_event}
use burger.Net.Epoll.{
  Site, Kernel, ctl_add, ctl_mod, ctl_del, Epoll, insert, erase, update_at, update_channel,
  remove_channel, loop_update_channel, loop_remove_channel, update, remove, Call, enables_reading,
  disables_reading, enables_writing, disables_writing, disables_all, removes, call, epollctl,
}
use burger.Net.Epoll.Calls.{Home, Removable, Home-test, Removable-test}

module _ (kernel : Kernel) where
  open kernel use {interest, interest-add, interest-mod, interest-del}

  abbrev pub TracksAt : Status → Channel → Epoll kernel → Type 0
  TracksAt new c e = (e.map c.fd ≡ none) × (interest e.instance_state c.fd ≡ none)
  TracksAt added c e = (e.map c.fd ≡ some c.id) × (interest e.instance_state c.fd ≡ some c.events)
  TracksAt dismissed c e = (e.map c.fd ≡ some c.id) × (interest e.instance_state c.fd ≡ none)

  -- A channel that is new is neither in the map nor watched by the kernel; one that is added is in the
  -- map, and the kernel watches its events; one that is dismissed is in the map only.
  abbrev pub Tracks : Channel → Epoll kernel → Type 0
  Tracks c e = TracksAt c.status c e

  -- The same before `update`, when `events_` has changed and the kernel still has the old events.
  abbrev Ready : Status → Channel → Epoll kernel → Type 0
  Ready new c e = TracksAt new c e
  Ready added c e =
      (old : Events) × (e.map c.fd ≡ some c.id) × (interest e.instance_state c.fd ≡ some old)
  Ready dismissed c e = TracksAt dismissed c e

  -- Nothing happens to another descriptor.
  abbrev pub Elsewhere : ℕ → Epoll kernel → Epoll kernel → Type 0
  Elsewhere fd e e' =
      (j : ℕ)
      → j ≢ fd
      → (e'.map j ≡ e.map j) × (interest e'.instance_state j ≡ interest e.instance_state j)

  if-ne : {A : Type 0} (fd j : ℕ) (x y : A) → j ≢ fd → (if fd == j then x else y) ≡ y
  if-ne fd j x y h = ground arith

  not-both : added ≡ new → ⊥
  not-both h = cc

  update_at-Tracks :
      (s : Status) (c : Channel) (e : Epoll kernel)
      → c.status ≡ s
      → Ready s c e
      → (c' : Channel) × (e' : Epoll kernel) × (update_at kernel s c e ≡ some (c', e'))
        × Tracks c' e'
        × (c'.events ≡ c.events)
        × (c'.fd ≡ c.fd)
        × (c'.id ≡ c.id)
        × (c'.owner_loop ≡ c.owner_loop)
        × (c'.status ≢ new)
        × Elsewhere c.fd e e'
  update_at-Tracks new c e es (m, i) =
      let c' : Channel = record c { status = added } in
      let e' = epollctl kernel ctl_add c' (record e { map = insert kernel c.fd c.id e.map }) in
      let at = λ (j : ℕ). interest-add c.fd j c.events e.instance_state i in
      (
        c',
        e',
        rw m refl,
        (rw (==_refl c.fd) refl, at c.fd ∙ (rw (==_refl c.fd) refl)),
        refl,
        refl,
        refl,
        refl,
        (λ h. cc),
        λ j h. (if-ne c.fd j _ _ h, at j ∙ if-ne c.fd j _ _ h),
      )
  update_at-Tracks dismissed c e es (m, i) =
      let c' : Channel = record c { status = added } in
      let at = λ (j : ℕ). interest-add c.fd j c.events e.instance_state i in
      (
        c',
        epollctl kernel ctl_add c' e,
        rw (m, ==_refl c.id) refl,
        (m, at c.fd ∙ (rw (==_refl c.fd) refl)),
        refl,
        refl,
        refl,
        refl,
        (λ h. cc),
        λ j h. (refl, at j ∙ if-ne c.fd j _ _ h),
      )
  update_at-Tracks added c e es (old, m, i) = elim (Bool-cases (is_none_event c)) [
    | inl idle ↦
        let at = λ (j : ℕ). interest-del c.fd j c.events old e.instance_state i in
        (
          record c { status = dismissed },
          epollctl kernel ctl_del c e,
          rw (m, ==_refl c.id, idle) refl,
          (m, at c.fd ∙ (rw (==_refl c.fd) refl)),
          refl,
          refl,
          refl,
          refl,
          (λ h. cc),
          λ j h. (refl, at j ∙ if-ne c.fd j _ _ h),
        )
    | inr busy ↦
        let at = λ (j : ℕ). interest-mod c.fd j c.events old e.instance_state i in
        (
          c,
          epollctl kernel ctl_mod c e,
          rw (m, ==_refl c.id, busy) refl,
          rw es (m, at c.fd ∙ (rw (==_refl c.fd) refl)),
          refl,
          refl,
          refl,
          refl,
          (λ h. not-both (sym es ∙ h)),
          λ j h. (refl, at j ∙ if-ne c.fd j _ _ h),
        )
  ]

  ready :
      (s : Status) (c : Channel) (ev : Events) (e : Epoll kernel)
      → TracksAt s c e
      → Ready s (record c { events = ev; added_to_epoll = true }) e
  ready new c ev e t = t
  ready added c ev e (m, i) = (c.events, m, i)
  ready dismissed c ev e t = t

  -- What one call leaves: the channel is tracked with these events, and other descriptors are as before.
  pub record Kept (c : Channel) (ev : Events) (e : Epoll kernel) (r : Channel × Epoll kernel)
      : Type 0 where
    pub tracked : Tracks r.0 r.1
    pub watches : r.0.events ≡ ev
    pub same_fd : r.0.fd ≡ c.fd
    pub same_id : r.0.id ≡ c.id
    pub same_owner : r.0.owner_loop ≡ c.owner_loop
    pub present : r.0.status ≢ new
    pub elsewhere : Elsewhere c.fd e r.1

  Home-Kept :
      (at : Site) (c : Channel) (ev : Events) (e : Epoll kernel) (r : Channel × Epoll kernel)
      → Kept c ev e r
      → Home at c
      → Home at r.0
  Home-Kept at c ev e r k h = record { in_thread = h.in_thread; owner = k.same_owner ∙ h.owner }

  update-Kept :
      (at : Site) (c : Channel) (ev : Events) (e : Epoll kernel)
      → Home at c
      → Tracks c e
      → (r : Channel × Epoll kernel) × (update kernel at (record c { events = ev }) e ≡ some r)
        × Kept c ev e r
  unfolding update loop_update_channel update_channel
  update-Kept at c ev e h t =
      let d : Channel = record c { events = ev; added_to_epoll = true } in
      let (in_thread, owner) = Home-test at c h in
      let (c', e', eq, t', w, f, i, l, p, o) =
        update_at-Tracks c.status d e refl (ready c.status c ev e t) in
      (
        (c', e'),
        rw (owner, in_thread) eq,
        record {
          tracked = t';
          watches = w;
          same_fd = f;
          same_id = i;
          same_owner = l;
          present = p;
          elsewhere = o;
        },
      )

  -- The events that a call other than `remove` leaves.
  abbrev pub events_after : Call kernel → Events → Events
  events_after enables_reading ev = record ev { reading = true }
  events_after disables_reading ev = record ev { reading = false }
  events_after enables_writing ev = record ev { writing = true }
  events_after disables_writing ev = record ev { writing = false }
  events_after disables_all ev = none_event
  events_after removes ev = ev

  -- Over any kernel that keeps an interest list, a call other than remove on a tracked channel, made
  -- in the thread of its own loop, succeeds and leaves it tracked: it watches the events that the call asks for, its place in the
  -- map and in the interest list agrees with its status, and other descriptors are as before.
  pub call-Kept :
      (at : Site) (k : Call kernel) (c : Channel) (e : Epoll kernel)
      → k ≢ removes
      → Home at c
      → Tracks c e
      → (r : Channel × Epoll kernel) × (call kernel at k c e ≡ some r)
        × Kept c (events_after k c.events) e r
  unfolding call
  call-Kept at enables_reading c e n h t = update-Kept at c _ e h t
  call-Kept at disables_reading c e n h t = update-Kept at c _ e h t
  call-Kept at enables_writing c e n h t = update-Kept at c _ e h t
  call-Kept at disables_writing c e n h t = update-Kept at c _ e h t
  call-Kept at disables_all c e n h t = update-Kept at c _ e h t
  call-Kept at removes c e n h t = absurd (n refl)

  -- The channel is out of the map and the kernel's list, and other descriptors are as before.
  pub record Gone (fd : ℕ) (e : Epoll kernel) (r : Channel × Epoll kernel) : Type 0 where
    pub is_new : r.0.status ≡ new
    pub unmapped : r.1.map fd ≡ none
    pub unwatched : interest r.1.instance_state fd ≡ none
    pub others : Elsewhere fd e r.1

  Gone-after :
      (fd d : ℕ) (e e' : Epoll kernel) (r : Channel × Epoll kernel)
      → d ≡ fd
      → Elsewhere fd e e'
      → Gone d e' r
      → Gone fd e r
  Gone-after fd d e e' r p o g = record {
    is_new = g.is_new;
    unmapped = rw (← p) g.unmapped;
    unwatched = rw (← p) g.unwatched;
    others = λ j h. let (a, b) = g.others j (λ q. h (q ∙ p)) in (a ∙ (o j h).0, b ∙ (o j h).1);
  }

  remove_at :
      (at : Site) (s : Status) (c : Channel) (e : Epoll kernel)
      → c.status ≡ s
      → s ≢ new
      → TracksAt s c e
      → c.events ≡ none_event
      → Home at c
      → Removable at c
      → (r : Channel × Epoll kernel) × (remove kernel at c e ≡ some r) × Gone c.fd e r
  unfolding remove loop_remove_channel remove_channel
  remove_at at new c e es n t v h q = absurd (n refl)
  remove_at here added c e es n (m, i) v h q =
      let (in_thread, owner) = Home-test here c h in
      let may = Removable-test here c q in
      let at = λ (j : ℕ). interest-del c.fd j c.events c.events e.instance_state i in
      (
        (
          record c { status = new; added_to_epoll = false },
          epollctl kernel ctl_del c (record e { map = erase kernel c.fd e.map }),
        ),
        rw (v, owner, in_thread, may, m, ==_refl c.id, es) refl,
        record {
          is_new = refl;
          unmapped = rw (==_refl c.fd) refl;
          unwatched = at c.fd ∙ (rw (==_refl c.fd) refl);
          others = λ j h. (if-ne c.fd j _ _ h, at j ∙ if-ne c.fd j _ _ h);
        },
      )
  remove_at at dismissed c e es n (m, i) v h q =
      let (in_thread, owner) = Home-test at c h in
      let may = Removable-test at c q in
      (
        (
          record c { status = new; added_to_epoll = false },
          record e { map = erase kernel c.fd e.map },
        ),
        rw (v, owner, in_thread, may, m, ==_refl c.id, es) refl,
        record {
          is_new = refl;
          unmapped = rw (==_refl c.fd) refl;
          unwatched = i;
          others = λ j h. (if-ne c.fd j _ _ h, refl);
        },
      )

  unfoldable pub run :
      Site → List (Call kernel) → Channel → Epoll kernel → Option (Channel × Epoll kernel)
  run at [] c e = some (c, e)
  run at (k ∷ ks) c e = call kernel at k c e >>= λ r. run at ks r.0 r.1

  abbrev pub NoRemove : List (Call kernel) → Type 0
  NoRemove [] = Unit {0}
  NoRemove (k ∷ ks) = (k ≢ removes) × NoRemove ks

  finish :
      (at : Site) (c : Channel) (e : Epoll kernel)
      → Home at c
      → Removable at c
      → Tracks c e
      → (r : Channel × Epoll kernel) × (run at (disables_all ∷ removes ∷ []) c e ≡ some r)
        × Gone c.fd e r
  unfolding run call
  finish at c e h m t =
      let (r, eq, k) = call-Kept at disables_all c e (λ h. cc) h t in
      let (q, eq', g) =
        remove_at at r.0.status r.0 r.1 refl k.present k.tracked k.watches
          (Home-Kept at c _ e r k h) (rw (k.same_id) m) in
      (q, rw (eq, eq') refl, Gone-after c.fd r.0.fd e r.1 q k.same_fd k.elsewhere g)

  -- Over any kernel that keeps an interest list, a tracked channel that makes any calls but
  -- remove, then disableAll and remove, in the thread of its own loop, never fails an assert,
  -- those of the loop and of the poller included, if, where the loop is handling events, the
  -- channel is the one whose events are handled or is not among the active ones; it ends new, out
  -- of the map and out of the interest list, and other descriptors are as before.
  pub run-Gone :
      (at : Site) (ks : List (Call kernel)) (c : Channel) (e : Epoll kernel)
      → NoRemove ks
      → Home at c
      → Removable at c
      → Tracks c e
      → (r : Channel × Epoll kernel) × (run at (ks ++ disables_all ∷ removes ∷ []) c e ≡ some r)
        × Gone c.fd e r
  unfolding run
  run-Gone at [] c e n h m t = finish at c e h m t
  run-Gone at (k ∷ ks) c e n h m t =
      let (r, eq, kept) = call-Kept at k c e n.0 h t in
      let (q, eq', g) =
        run-Gone at ks r.0 r.1 n.1 (Home-Kept at c _ e r kept h) (rw (kept.same_id) m)
          kept.tracked in
      (q, rw (eq, eq') refl, Gone-after c.fd r.0.fd e r.1 q kept.same_fd kept.elsewhere g)
