-- ===== src/Select/Defs.antt =====
-- The cases of include/tang/select.h, over channels of one value type.
use tang.Prelude.{
  ℕ, Bool, true, not, ◌||◌, Option, none, some, List, [], ◌∷◌, ◌++◌, if◌then◌else◌, update,
}
use tang.Channel.Runtime.{Runtime}
use tang.Channel.Defs.{Channel, Store, State}
use tang.Channel.Ops.{try_send, try_recv, is_closed, is_empty, is_full}

-- `select_case_type`.
pub data CaseType : Type 0 where
  recv send default_case : CaseType

-- What a case does. A channel is named by its address, and so is the variable received into, if the
-- case has one.
pub data Action {ℓ} (T : Type ℓ) : Type ℓ where
  recv_from : ℕ → Option ℕ → Action T
  send_to : ℕ → T → Action T
  nothing : Action T

-- `select_case`: `callback` names a function, or is empty; `handle` is `handle_`.
pub record Case {ℓ} (T : Type ℓ) : Type ℓ where
  pub action : Action T
  pub callback : Option ℕ
  pub handle : Option ℕ

-- All channels, the memory, the runtime, and the callbacks called so far.
pub record Net {ℓ} (T W : Type ℓ) : Type ℓ where
  pub chans : ℕ → Channel T
  pub store : Store T
  pub world : W
  pub called : List ℕ

module _ {ℓ} {T : Type ℓ} where
  -- `case_recv`, with a variable or none and with a callback or none.
  abbrev pub case_recv : ℕ → Option ℕ → Option ℕ → Case T
  case_recv c p f = record { action = recv_from c p; callback = f; handle = none }

  -- `case_send`, with a callback or none.
  abbrev pub case_send : ℕ → T → Option ℕ → Case T
  case_send c v f = record { action = send_to c v; callback = f; handle = none }

  -- `default_case`, whose class has a callback of its own.
  abbrev pub default_action : Option ℕ → Case T
  default_action f = record { action = nothing; callback = f; handle = none }

  -- `type`.
  abbrev pub type_of : Case T → CaseType
  type_of k = elim (k.action) [ recv_from c p ↦ recv | send_to c v ↦ send | nothing ↦ default_case ]

  -- `register_waiter` and `unregister_waiter`: only the case itself keeps the handle.
  abbrev pub set_handle : Option ℕ → Case T → Case T
  set_handle h k = elim (k.action) [
    | recv_from c p ↦ record k { handle = h }
    | send_to c v ↦ record k { handle = h }
    | nothing ↦ k
  ]

module _ {ℓ} {T W : Type ℓ} where
  -- One channel of the net, and the net with that channel put back.
  abbrev pub focus : ℕ → Net T W → State T W
  focus c n = record { chan = n.chans c; store = n.store; world = n.world }

  abbrev pub unfocus : ℕ → State T W → Net T W → Net T W
  unfocus c s n = record n { chans = update n.chans c s.chan; store = s.store; world = s.world }

  -- `try_ready`.
  unfoldable pub is_ready : Action T → Net T W → Bool
  is_ready (recv_from c p) n = not (is_empty (focus c n)) || is_closed (focus c n)
  is_ready (send_to c v) n = not (is_full (focus c n)) || is_closed (focus c n)
  is_ready nothing n = true

  unfoldable pub try_ready : Case T → Net T W → Bool
  unfolding is_ready
  try_ready k n = is_ready k.action n

  -- `execute_callback`.
  abbrev pub execute_callback : Option ℕ → Net T W → Net T W
  execute_callback none n = n
  execute_callback (some f) n = record n { called = n.called ++ f ∷ [] }

module _ {ℓ} {T W : Type ℓ} ⦃rt : Runtime W⦄ where
  -- With the callback called if the operation succeeded.
  abbrev pub finish : ℕ → Option ℕ → Net T W → State T W × Bool → Net T W × Bool
  finish c f n r = (if r.1 then execute_callback f (unfocus c r.0 n) else unfocus c r.0 n, r.1)

  -- Without a variable the value goes to a local one, so the memory stays as it was.
  abbrev pub discard : State T W → State T W × Bool → State T W × Bool
  discard s r = (record (r.0) { store = s.store }, r.1)

  unfoldable pub execute : Action T → Option ℕ → Net T W → Net T W × Bool
  execute (recv_from c (some p)) f n = finish c f n (try_recv p (focus c n))
  execute (recv_from c none) f n = finish c f n (discard (focus c n) (try_recv 0 (focus c n)))
  execute (send_to c v) f n = finish c f n (try_send v (focus c n))
  execute nothing f n = (execute_callback f n, true)

  -- `try_execute`.
  unfoldable pub try_execute : Case T → Net T W → Net T W × Bool
  unfolding execute
  try_execute k n = execute k.action k.callback n
