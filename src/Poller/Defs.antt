-- ===== src/Poller/Defs.antt =====
-- `epoll_event_poller` of src/event_poller_linux.cpp. The kernel is a parameter.
use tang.Prelude.{
  ℕ, ◌-◌, ◌%◌, ◌^◌, ◌≡◌, ◌≢◌, Bool, true, false, not, ◌||◌, Option, none, some, List, [], ◌∷◌, ◌==◌,
  if◌then◌else◌,
}
use tang.EventLoop.Defs.{milliseconds_max, Event, Wait, failed, timed_out, ready}
use tang.Poller.Events.{to_epoll_events, from_epoll_events}

-- `epoll_ctl` on one epoll instance, over the kernel's state `K`: it answers whether it succeeded.
-- `watched` is the set of descriptors with their flags, as epoll_ctl(2) describes it.
pub record Epoll (K : Type 0) : Type 0 where
  pub ctl_add : ℕ → ℕ → K → K × Bool
  pub ctl_mod : ℕ → ℕ → K → K × Bool
  pub ctl_del : ℕ → K → K × Bool
  pub watched : K → ℕ → Option ℕ
  pub added :
      (fd flags : ℕ) (k : K)
      → (ctl_add fd flags k).1 ≡ true
      → (watched k fd ≡ none)
        × ((j : ℕ)
            → watched (ctl_add fd flags k).0 j ≡ (if fd == j then some flags else watched k j))
  pub not_added :
      (fd flags : ℕ) (k : K) → (ctl_add fd flags k).1 ≡ false → (ctl_add fd flags k).0 ≡ k
  pub modified :
      (fd flags : ℕ) (k : K)
      → (ctl_mod fd flags k).1 ≡ true
      → (watched k fd ≢ none)
        × ((j : ℕ)
            → watched (ctl_mod fd flags k).0 j ≡ (if fd == j then some flags else watched k j))
  pub not_modified :
      (fd flags : ℕ) (k : K) → (ctl_mod fd flags k).1 ≡ false → (ctl_mod fd flags k).0 ≡ k
  pub deleted :
      (fd : ℕ) (k : K)
      → (ctl_del fd k).1 ≡ true
      → (j : ℕ) → watched (ctl_del fd k).0 j ≡ (if fd == j then none else watched k j)
  pub not_deleted : (fd : ℕ) (k : K) → (ctl_del fd k).1 ≡ false → (ctl_del fd k).0 ≡ k

-- `epoll_fd == -1` is `is_open ≡ false`; a source is its address, 0 the null pointer, and
-- `fd_to_source` a function. `kernel` is the state behind `epoll_fd`.
pub record Poller (K : Type 0) : Type 0 where
  pub is_open : Bool
  pub fd_to_source : ℕ → Option ℕ
  pub kernel : K

-- The constructor; `created` says whether `epoll_create1` succeeded.
unfoldable pub epoll_event_poller : {K : Type 0} → Bool → K → Poller K
epoll_event_poller created k = record { is_open = created; fd_to_source = λ _. none; kernel = k }

-- What the destructor does to the members.
unfoldable pub destroy : {K : Type 0} → Poller K → Poller K
destroy p = record p { is_open = false; fd_to_source = λ _. none }

-- The bits of the `int` -1.
abbrev pub minus_one : ℕ
minus_one = 2 ^ 32 - 1

abbrev pub put : (ℕ → Option ℕ) → ℕ → Option ℕ → ℕ → Option ℕ
put f fd s j = if fd == j then s else f j

-- `get_handle` gives the descriptor of a source, as the bits of an `int`.
module _ {K : Type 0} (os : Epoll K) (get_handle : ℕ → ℕ) where
  abbrev pub invalid : ℕ → Poller K → Bool
  invalid source p = source == 0 || not p.is_open || get_handle source == minus_one

  abbrev pub finish_register : ℕ → ℕ → Poller K → K × Bool → Poller K × Bool
  finish_register fd source p r = (
    if r.1
        then record p { fd_to_source = put p.fd_to_source fd (some source); kernel = r.0 }
        else record p { kernel = r.0 },
    r.1,
  )

  unfoldable pub register_event : ℕ → ℕ → Poller K → Poller K × Bool
  register_event source events p =
      if invalid source p
      then (p, false)
      else finish_register (get_handle source) source p
          (os.ctl_add (get_handle source) (to_epoll_events events) p.kernel)

  abbrev pub finish_modify : Poller K → K × Bool → Poller K × Bool
  finish_modify p r = (record p { kernel = r.0 }, r.1)

  unfoldable pub modify_found : ℕ → ℕ → Poller K → Option ℕ → Poller K × Bool
  modify_found fd events p none = (p, false)
  modify_found fd events p (some s) =
      finish_modify p (os.ctl_mod fd (to_epoll_events events) p.kernel)

  unfoldable pub modify_event : ℕ → ℕ → Poller K → Poller K × Bool
  unfolding modify_found
  modify_event source events p =
      if invalid source p
      then (p, false)
      else modify_found (get_handle source) events p (p.fd_to_source (get_handle source))

  abbrev pub finish_delete : ℕ → Poller K → K × Bool → Poller K × Bool
  finish_delete fd p r = (
    if r.1
        then record p { fd_to_source = put p.fd_to_source fd none; kernel = r.0 }
        else record p { kernel = r.0 },
    r.1,
  )

  unfoldable pub delete_found : ℕ → Poller K → Option ℕ → Poller K × Bool
  delete_found fd p none = (p, false)
  delete_found fd p (some s) = finish_delete fd p (os.ctl_del fd p.kernel)

  unfoldable pub delete_event : ℕ → Poller K → Poller K × Bool
  unfolding delete_found
  delete_event source p =
      if invalid source p
      then (p, false)
      else delete_found (get_handle source) p (p.fd_to_source (get_handle source))

-- The loop of `wait` over what `epoll_wait` filled in, pairs of a descriptor and its flags: the
-- events for the caller.
unfoldable pub collect : (ℕ → Option ℕ) → List (ℕ × ℕ) → List Event
collect f [] = []
collect f ((fd, flags) ∷ es) = elim (f fd) [
  | none ↦ collect f es
  | some s ↦ (record { source = some s; events = from_epoll_events flags }) ∷ collect f es
]

-- The bits of the `int` that `wait` passes on: -1 for no limit.
unfoldable pub wait_time : ℕ → ℕ
wait_time timeout = if timeout == milliseconds_max then minus_one else timeout % 2 ^ 32

-- What `wait` makes of the answer of `epoll_wait`; `none` is -1.
unfoldable pub answer : (ℕ → Option ℕ) → Option (List (ℕ × ℕ)) → Wait
unfolding collect
answer f none = failed
answer f (some []) = timed_out
answer f (some (e ∷ es)) = ready (collect f (e ∷ es))

-- `wait`; `epoll_wait` answers for a time limit.
unfoldable pub wait : {K : Type 0} → (ℕ → Option (List (ℕ × ℕ))) → ℕ → Poller K → Wait
unfolding wait_time answer
wait epoll_wait timeout p =
    if not p.is_open then failed else answer p.fd_to_source (epoll_wait (wait_time timeout))
