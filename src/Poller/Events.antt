-- ===== src/Poller/Events.antt =====
-- `event_type` of include/tang/event.h, and how src/event_poller_linux.cpp turns it into the flags of
-- epoll and back. The flags have the values of the Linux ABI.
use Prim.Native.Nat.{bit_and, bit_or}
use tang.Prelude.{ℕ, ◌≡◌, refl, Bool, true, false, not, ◌==◌, if◌then◌else◌}

-- `event_type`.
abbrev pub read : ℕ
read = 1

abbrev pub write : ℕ
write = 2

abbrev pub error : ℕ
error = 4

abbrev pub timeout : ℕ
timeout = 8

abbrev epollin : ℕ
epollin = 0x001

abbrev epollout : ℕ
epollout = 0x004

abbrev epollerr : ℕ
epollerr = 0x008

abbrev epollet : ℕ
epollet = 0x80000000

-- `if (events & flag)`.
abbrev pub has : ℕ → ℕ → Bool
has events flag = not (bit_and events flag == 0)

abbrev add_if : Bool → ℕ → ℕ → ℕ
add_if b flag events = if b then bit_or events flag else events

unfoldable pub to_epoll_events : ℕ → ℕ
to_epoll_events events =
    bit_or
      (add_if (has events error) epollerr
        (add_if (has events write) epollout (add_if (has events read) epollin 0)))
      epollet

unfoldable pub from_epoll_events : ℕ → ℕ
from_epoll_events events =
    add_if (has events epollerr) error
      (add_if (has events epollout) write (add_if (has events epollin) read 0))

-- The three flags that epoll keeps, as an event mask.
abbrev mask : Bool → Bool → Bool → ℕ
mask r w e = add_if e error (add_if w write (add_if r read 0))

abbrev epoll_mask : Bool → Bool → Bool → ℕ
epoll_mask r w e = bit_or (add_if e epollerr (add_if w epollout (add_if r epollin 0))) epollet

from_epoll_mask : (r w e : Bool) → from_epoll_events (epoll_mask r w e) ≡ mask r w e
unfolding from_epoll_events
from_epoll_mask true true true = refl
from_epoll_mask true true false = refl
from_epoll_mask true false true = refl
from_epoll_mask true false false = refl
from_epoll_mask false true true = refl
from_epoll_mask false true false = refl
from_epoll_mask false false true = refl
from_epoll_mask false false false = refl

has-mask :
    (r w e : Bool)
    → (has (mask r w e) read ≡ r)
      × (has (mask r w e) write ≡ w)
      × (has (mask r w e) error ≡ e)
      × (has (mask r w e) timeout ≡ false)
has-mask true true true = (refl, refl, refl, refl)
has-mask true true false = (refl, refl, refl, refl)
has-mask true false true = (refl, refl, refl, refl)
has-mask true false false = (refl, refl, refl, refl)
has-mask false true true = (refl, refl, refl, refl)
has-mask false true false = (refl, refl, refl, refl)
has-mask false false true = (refl, refl, refl, refl)
has-mask false false false = (refl, refl, refl, refl)

-- Whatever events are asked for: what goes to epoll and comes back asks for reading, writing and
-- errors exactly if they did, and never for a timeout.
pub from-to_epoll_events :
    (events : ℕ)
    → let back = from_epoll_events (to_epoll_events events) in
      (has back read ≡ has events read)
      × (has back write ≡ has events write)
      × (has back error ≡ has events error)
      × (has back timeout ≡ false)
unfolding to_epoll_events
from-to_epoll_events events =
    let r = has events read in
    let w = has events write in
    let e = has events error in rw (from_epoll_mask r w e) (has-mask r w e)
