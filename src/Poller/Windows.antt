-- ===== src/Poller/Windows.antt =====
-- `iocp_event_poller` of src/event_poller_win.cpp. The kernel is a parameter.
use tang.Prelude.{
  ℕ, ◌-◌, ◌%◌, ◌^◌, ◌≡◌, refl, Bool, true, false, not, ◌||◌, Option, none, some, List, [], ◌∷◌,
  ◌==◌, if◌then◌else◌, arith,
}
use tang.EventLoop.Defs.{milliseconds_max, Wait, failed, timed_out, ready}
use tang.Poller.Events
use tang.Poller.Interface.{EventPoller, Request, registers, modifies, deletes, serve, run}

-- `CreateIoCompletionPort` for a handle and an open port, over the kernel's state `K`: it answers
-- whether it succeeded. As its documentation says, a handle can be associated with one port only, and
-- stays with it until the handle is closed.
pub record Ports (K : Type 0) : Type 0 where
  pub associate : ℕ → ℕ → K → K × Bool
  pub is_associated : K → ℕ → Bool
  pub was_free :
      (handle key : ℕ) (k : K) → (associate handle key k).1 ≡ true → is_associated k handle ≡ false
  pub associated :
      (handle key j : ℕ) (k : K)
      → (associate handle key k).1 ≡ true
      → is_associated (associate handle key k).0 j
        ≡ (if handle == j then true else is_associated k j)
  pub not_associated :
      (handle key : ℕ) (k : K) → (associate handle key k).1 ≡ false → (associate handle key k).0 ≡ k

-- What `GetQueuedCompletionStatus` gives: its result, the source and the events of the
-- `iocp_overlapped` if the pointer to it is not null, and whether the last error is `WAIT_TIMEOUT`.
pub record Completion : Type 0 where
  pub result : Bool
  pub overlapped : Option (Option ℕ × ℕ)
  pub is_timeout : Bool

-- `is_open` says that `iocp_handle_` is not null.
pub record Iocp (K : Type 0) : Type 0 where
  pub is_open : Bool
  pub kernel : K

-- The constructor; `created` says whether `CreateIoCompletionPort` made a port.
unfoldable pub iocp_event_poller : {K : Type 0} → Bool → K → Iocp K
iocp_event_poller created k = record { is_open = created; kernel = k }

-- What the destructor does to the port.
unfoldable pub destroy : {K : Type 0} → Iocp K → Iocp K
destroy p = record p { is_open = false }

-- `INFINITE`, and `INVALID_HANDLE_VALUE` as the bits of a pointer.
abbrev pub infinite : ℕ
infinite = 2 ^ 32 - 1

abbrev pub invalid_handle_value : ℕ
invalid_handle_value = 2 ^ 64 - 1

unfoldable pub wait_time : ℕ → ℕ
wait_time timeout = if timeout == milliseconds_max then infinite else timeout % 2 ^ 32

unfoldable pub answer : Completion → Wait
answer c = elim (c.overlapped) [
  | some (source, events) ↦
      ready ((record { source = source; events = if c.result then events else Events.error }) ∷ [])
  | none ↦ if c.result then timed_out else if c.is_timeout then timed_out else failed
]

unfoldable pub wait : (ℕ → Completion) → ℕ → Wait
unfolding wait_time answer
wait get_queued timeout = answer (get_queued (wait_time timeout))

-- `get_handle` gives the handle of a source, as the bits of a pointer.
module _ {K : Type 0} (os : Ports K) (get_handle : ℕ → ℕ) where
  abbrev pub finish : Iocp K → K × Bool → Iocp K × Bool
  finish p r = (record p { kernel = r.0 }, r.1)

  unfoldable pub register_event : ℕ → ℕ → Iocp K → Iocp K × Bool
  register_event source events p =
      if source == 0 || not p.is_open
      then (p, false)
      else if get_handle source == 0 || get_handle source == invalid_handle_value
      then (p, false)
      else finish p (os.associate (get_handle source) source p.kernel)

  unfoldable pub modify_event : ℕ → ℕ → Iocp K → Iocp K × Bool
  modify_event source events p = register_event source events p

  unfoldable pub delete_event : ℕ → Iocp K → Iocp K × Bool
  delete_event source p = (p, true)

  abbrev pub iocp_poller : EventPoller (Iocp K)
  iocp_poller = record {
    register_event = register_event;
    modify_event = modify_event;
    delete_event = delete_event;
  }

  -- The source's handle belongs to the port.
  abbrev IsBound : ℕ → Iocp K → Type 0
  IsBound source p = os.is_associated p.kernel (get_handle source) ≡ true

  register_event-IsBound :
      (source events : ℕ) (p : Iocp K)
      → (register_event source events p).1 ≡ true
      → IsBound source (register_event source events p).0
  unfolding register_event
  register_event-IsBound source events p e = ground (
    arith,
    os.associated (get_handle source) source (get_handle source) p.kernel,
    os.not_associated (get_handle source) source p.kernel,
  )

  register_event_refused :
      (source events : ℕ) (p : Iocp K)
      → IsBound source p
      → (register_event source events p).1 ≡ false
  unfolding register_event
  register_event_refused source events p b =
      ground (arith, os.was_free (get_handle source) source p.kernel)

  register_event-keeps :
      (source other events : ℕ) (p : Iocp K)
      → IsBound source p
      → IsBound source (register_event other events p).0
  unfolding register_event
  register_event-keeps source other events p b = ground (
    arith,
    os.associated (get_handle other) other (get_handle source) p.kernel,
    os.not_associated (get_handle other) other p.kernel,
  )

  run-IsBound :
      (source : ℕ) (rs : List Request) (p : Iocp K)
      → IsBound source p
      → IsBound source (run iocp_poller rs p)
  unfolding run serve modify_event delete_event
  run-IsBound source [] p b = b
  run-IsBound source (registers other events ∷ rs) p b =
      run-IsBound source rs (register_event other events p).0
        (register_event-keeps source other events p b)
  run-IsBound source (modifies other events ∷ rs) p b =
      run-IsBound source rs (register_event other events p).0
        (register_event-keeps source other events p b)
  run-IsBound source (deletes other ∷ rs) p b = run-IsBound source rs p b

  -- Once a source was registered with success, every later `register_event` and `modify_event` of it
  -- answers `false`, whatever calls come between, `delete_event` of the same source included; and
  -- `delete_event` answers `true` and changes nothing, for any source.
  pub registers_once :
      (source events events' : ℕ) (rs : List Request) (p : Iocp K)
      → (serve iocp_poller (registers source events) p).1 ≡ true
      → let q = run iocp_poller rs (serve iocp_poller (registers source events) p).0 in
        ((serve iocp_poller (registers source events') q).1 ≡ false)
        × ((serve iocp_poller (modifies source events') q).1 ≡ false)
        × ((other : ℕ) → serve iocp_poller (deletes other) q ≡ (q, true))
  unfolding serve modify_event delete_event
  registers_once source events events' rs p e =
      let q = run iocp_poller rs (register_event source events p).0 in
      let b = run-IsBound source rs _ (register_event-IsBound source events p e) in
      (
        register_event_refused source events' q b,
        register_event_refused source events' q b,
        λ other. refl,
      )
