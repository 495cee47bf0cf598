-- ===== src/Net/Epoll/Calls.antt =====
-- Where the loop of burger/net/EventLoop.cc lets a channel be changed and removed.
use burger.Common.{◌≡◌, ◌⊎◌, refl, inl, inr, true, false, arith, ◌==◌, ==_refl, Bool-cases, some}
use burger.Net.Channel.{Channel}
use burger.Net.Epoll.{Site, is_in_thread, contains, may_remove}

-- A call is made in the loop's thread, and the loop is the channel's.
pub record Home (at : Site) (c : Channel) : Type 0 where
  pub in_thread : at.loop.thread ≡ at.tid
  pub owner : c.owner_loop ≡ at.number

-- While events are handled, a channel that is removed is the one whose events are, or had none.
abbrev pub Removable : Site → Channel → Type 0
Removable at c =
    at.loop.event_handling ≡ true
    → (at.loop.current ≡ some c.id) ⊎ (contains c.id at.loop.active ≡ false)

pub Home-test :
    (at : Site) (c : Channel)
    → Home at c
    → (is_in_thread at ≡ true) × ((c.owner_loop == at.number) ≡ true)
Home-test at c h = (ground (arith, h), ground (arith, h))

pub Removable-test : (at : Site) (c : Channel) → Removable at c → may_remove c.id at.loop ≡ true
Removable-test at c h = elim (Bool-cases at.loop.event_handling) [
  | inr e ↦ rw e refl
  | inl e ↦ elim (h e) [ inl p ↦ rw (e, p, ==_refl c.id) refl | inr p ↦ rw (e, p) (ground arith) ]
]
