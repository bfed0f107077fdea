-- ===== src/Poller/Flags.antt =====
-- The operators on `event_type` of include/tang/event.h, on `uint32_t`.
use Prim.Native.Nat.{bit_and, bit_or, min, max}
use tang.Prelude.{ℕ, ◌-◌, ◌/◌, ◌%◌, ◌^◌, ◌≤◌, ◌≡◌, ap, ◌∙◌, not, ◌&&◌, ◌||◌, ◌==◌, arith}
use tang.Prelude.Digits.{mask_lowest, and_lowest, or_lowest}
use tang.Poller.Events
use tang.Poller.Events.{has, to_epoll_events, from_epoll_events, from-to_epoll_events}

-- `operator|` and `operator&`, and `operator|=` and `operator&=` as what they assign.
unfoldable pub either : ℕ → ℕ → ℕ
either a b = bit_or a b

unfoldable pub both : ℕ → ℕ → ℕ
both a b = bit_and a b

-- `operator~`.
unfoldable pub complement : ℕ → ℕ
complement a = 2 ^ 32 - 1 - a % 2 ^ 32

-- `event_type`.
pub data EventType : Type 0 where
  read write error timeout : EventType

-- `static_cast<uint32_t>`.
abbrev pub value : EventType → ℕ
value read = Events.read
value write = Events.write
value error = Events.error
value timeout = Events.timeout

-- The binary digit of a mask that stands for an event type.
abbrev digit : EventType → ℕ → ℕ
digit read a = a % 2
digit write a = a / 2 % 2
digit error a = a / 4 % 2
digit timeout a = a / 8 % 2

has-digit : (f : EventType) (a : ℕ) → has a (value f) ≡ (digit f a == 1)
has-digit read a = ground (arith, (mask_lowest a).0)
has-digit write a = ground (arith, (mask_lowest a).1)
has-digit error a = ground (arith, (mask_lowest a).2)
has-digit timeout a = ground (arith, (mask_lowest a).3)

digit-or : (f : EventType) (a b : ℕ) → digit f (bit_or a b) ≡ max (digit f a) (digit f b)
digit-or read a b = (or_lowest a b).0
digit-or write a b = (or_lowest a b).1
digit-or error a b = (or_lowest a b).2
digit-or timeout a b = (or_lowest a b).3

digit-and : (f : EventType) (a b : ℕ) → digit f (bit_and a b) ≡ min (digit f a) (digit f b)
digit-and read a b = (and_lowest a b).0
digit-and write a b = (and_lowest a b).1
digit-and error a b = (and_lowest a b).2
digit-and timeout a b = (and_lowest a b).3

digit-complement :
    (f : EventType) (a : ℕ) → (digit f (complement a) ≡ 1 - digit f a) × (digit f a ≤ 1)
unfolding complement
digit-complement read a = omega arith
digit-complement write a = omega arith
digit-complement error a = omega arith
digit-complement timeout a = omega arith

max_digit : (x y : ℕ) → x ≤ 1 → y ≤ 1 → (max x y == 1) ≡ (x == 1) || (y == 1)
max_digit x y p q = ground arith

min_digit : (x y : ℕ) → x ≤ 1 → y ≤ 1 → (min x y == 1) ≡ (x == 1) && (y == 1)
min_digit x y p q = ground arith

other_digit : (x : ℕ) → x ≤ 1 → (1 - x == 1) ≡ not (x == 1)
other_digit x p = ground arith

-- For masks made of event types: `a | b` has an event type exactly if `a` or `b` has it, `a & b` if both
-- have it, and `~a` if `a` does not.
operators_lem :
    (a b : ℕ) (f : EventType)
    → (has (either a b) (value f) ≡ has a (value f) || has b (value f))
      × (has (both a b) (value f) ≡ has a (value f) && has b (value f))
      × (has (complement a) (value f) ≡ not (has a (value f)))
unfolding either both
operators_lem a b f =
    let p = (digit-complement f a).1 in
    let q = (digit-complement f b).1 in
    rw (has-digit f a, has-digit f b)
      (
        has-digit f (bit_or a b)
            ∙ ap (λ d. d == 1) (digit-or f a b)
            ∙ max_digit (digit f a) (digit f b) p q,
        has-digit f (bit_and a b)
            ∙ ap (λ d. d == 1) (digit-and f a b)
            ∙ min_digit (digit f a) (digit f b) p q,
        has-digit f (complement a)
            ∙ ap (λ d. d == 1) (digit-complement f a).0
            ∙ other_digit (digit f a) p,
      )
