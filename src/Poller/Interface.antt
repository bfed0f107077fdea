-- ===== src/Poller/Interface.antt =====
-- `event_poller` of include/tang/event_poller.h, and the calls of src/event_loop.cpp that hand over to
-- it.
use tang.Prelude.{ℕ, Bool, false, Option, none, some, List, [], ◌∷◌}

-- The calls that change a poller `P`; a source is its address.
pub record EventPoller (P : Type 0) : Type 0 where
  pub register_event : ℕ → ℕ → P → P × Bool
  pub modify_event : ℕ → ℕ → P → P × Bool
  pub delete_event : ℕ → P → P × Bool

pub data Request : Type 0 where
  registers modifies : ℕ → ℕ → Request
  deletes : ℕ → Request

module _ {P : Type 0} (poller : EventPoller P) where
  unfoldable pub serve : Request → P → P × Bool
  serve (registers source events) p = poller.register_event source events p
  serve (modifies source events) p = poller.modify_event source events p
  serve (deletes source) p = poller.delete_event source p

  unfoldable pub run : List Request → P → P
  unfolding serve
  run [] p = p
  run (r ∷ rs) p = run rs (serve r p).0

  -- `register_event`, `modify_event` and `delete_event` of the event loop: `poller_` may be null.
  unfoldable pub hand_over : Request → Option P → Option P × Bool
  unfolding serve
  hand_over r none = (none, false)
  hand_over r (some p) = let (q, ok) = serve r p in (some q, ok)
