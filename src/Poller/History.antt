-- ===== src/Poller/History.antt =====
-- Histories of calls on the poller of src/event_poller_linux.cpp.
use tang.Prelude.{
  subst, sym, ap, ℕ, ◌≡◌, ◌≢◌, true, false, Option, none, some, List, [], ◌∷◌, All, arith,
  Bool-cases, Option-cases, inl, inr,
}
use tang.EventLoop.Defs.{dispatch, handle_wait}
use tang.Poller.Events.{to_epoll_events}
use tang.Poller.Interface.{EventPoller, Request, registers, modifies, deletes, serve, run}
use tang.Poller.Dispatch.{handle_wait_with, handle_wait_with_lem}
use tang.Poller.Defs.{
  Epoll, Poller, register_event, modify_event, delete_event, collect, answer, wait, wait_time,
}
use tang.Poller.Laws.{InSync, register_event-InSync, modify_event-InSync, delete_event-InSync}

-- The calls `on_event` of a round, of which none is on the source.
abbrev pub NoCall : ℕ → List (ℕ × ℕ) → Type 0
NoCall source = All λ c. c.0 ≢ source

collect-NoCall :
    (source : ℕ) (f : ℕ → Option ℕ) (es : List (ℕ × ℕ))
    → ((fd : ℕ) → f fd ≢ some source)
    → NoCall source (dispatch (collect f es))
unfolding collect dispatch
collect-NoCall source f [] n = tt
collect-NoCall source f ((fd, flags) ∷ es) n = elim (Option-cases (f fd)) [
  | inl e ↦ ground (arith, collect-NoCall source f es n)
  | inr (s, e) ↦ ground (arith, collect-NoCall source f es n, n fd)
]

wait-NoCall :
    {K : Type 0} (source : ℕ) (p : Poller K) (o : Option (List (ℕ × ℕ)))
    → ((fd : ℕ) → p.fd_to_source fd ≢ some source)
    → NoCall source (handle_wait (answer p.fd_to_source o))
unfolding handle_wait answer
wait-NoCall source p none n = tt
wait-NoCall source p (some []) n = tt
wait-NoCall source p (some (e ∷ es)) n = collect-NoCall source p.fd_to_source (e ∷ es) n

-- The call does not register the source.
abbrev pub Spares : ℕ → Request → Type 0
Spares source (registers s events) = s ≢ source
Spares source (modifies s events) = Unit
Spares source (deletes s) = Unit

module _ {K : Type 0} (os : Epoll K) (get_handle : ℕ → ℕ) where
  abbrev pub epoll_poller : EventPoller (Poller K)
  epoll_poller = record {
    register_event = register_event os get_handle;
    modify_event = modify_event os get_handle;
    delete_event = delete_event os get_handle;
  }

  -- A call that answers `false`, for a null source, a closed poller, a bad or unknown descriptor or a
  -- refusal of the kernel, leaves the table and the kernel as they were.
  serve_refused :
      (r : Request) (p : Poller K)
      → (serve epoll_poller r p).1 ≡ false
      → (serve epoll_poller r p).0 ≡ p
  unfolding serve register_event modify_event delete_event
  serve_refused (registers source events) p e =
      ground (arith, os.not_added (get_handle source) (to_epoll_events events) p.kernel)
  serve_refused (modifies source events) p e =
      ground (arith, os.not_modified (get_handle source) (to_epoll_events events) p.kernel)
  serve_refused (deletes source) p e = ground (arith, os.not_deleted (get_handle source) p.kernel)

  serve-InSync : (r : Request) (p : Poller K) → InSync os p → InSync os (serve epoll_poller r p).0
  unfolding serve
  serve-InSync (registers source events) p s = register_event-InSync os get_handle source events p s
  serve-InSync (modifies source events) p s = modify_event-InSync os get_handle source events p s
  serve-InSync (deletes source) p s = delete_event-InSync os get_handle source p s

  -- After any history of calls on a poller whose table has entries for exactly the descriptors that
  -- the kernel watches, it still has, whichever calls the kernel refuses.
  pub run-InSync :
      (rs : List Request) (p : Poller K) → InSync os p → InSync os (run epoll_poller rs p)
  unfolding run
  run-InSync [] p s = s
  run-InSync (r ∷ rs) p s = run-InSync rs (serve epoll_poller r p).0 (serve-InSync r p s)

  -- The table names a source only under its own descriptor.
  abbrev pub IsOwned : Poller K → Type 0
  IsOwned p = (fd s : ℕ) → p.fd_to_source fd ≡ some s → get_handle s ≡ fd

  serve-IsOwned : (r : Request) (p : Poller K) → IsOwned p → IsOwned (serve epoll_poller r p).0
  unfolding serve register_event modify_event delete_event
  serve-IsOwned (registers source events) p o fd s = ground (arith, o fd s)
  serve-IsOwned (modifies source events) p o fd s = ground (arith, o fd s)
  serve-IsOwned (deletes source) p o fd s = ground (arith, o fd s)

  run-IsOwned : (rs : List Request) (p : Poller K) → IsOwned p → IsOwned (run epoll_poller rs p)
  unfolding run
  run-IsOwned [] p o = o
  run-IsOwned (r ∷ rs) p o = run-IsOwned rs (serve epoll_poller r p).0 (serve-IsOwned r p o)

  delete_event-gone :
      (source : ℕ) (p : Poller K)
      → IsOwned p
      → (delete_event os get_handle source p).1 ≡ true
      → (fd : ℕ) → (delete_event os get_handle source p).0.fd_to_source fd ≢ some source
  unfolding delete_event
  delete_event-gone source p o e fd = ground (arith, o fd source)

  abbrev IsGone : ℕ → Poller K → Type 0
  IsGone source p = (fd : ℕ) → p.fd_to_source fd ≢ some source

  serve-IsGone :
      (source : ℕ) (r : Request) (p : Poller K)
      → Spares source r
      → IsGone source p
      → IsGone source (serve epoll_poller r p).0
  unfolding serve register_event modify_event delete_event
  serve-IsGone source (registers s events) p n g fd = ground (arith, g fd)
  serve-IsGone source (modifies s events) p n g fd = ground (arith, g fd)
  serve-IsGone source (deletes s) p n g fd = ground (arith, g fd)

  run-IsGone :
      (source : ℕ) (rs : List Request) (p : Poller K)
      → All (Spares source) rs
      → IsGone source p
      → IsGone source (run epoll_poller rs p)
  unfolding run
  run-IsGone source [] p n g = g
  run-IsGone source (r ∷ rs) p n g =
      run-IsGone source rs (serve epoll_poller r p).0 n.1 (serve-IsGone source r p n.0 g)

  -- After any history of calls on a poller whose table names each source under its own descriptor
  -- only: once a source is deleted with success, and then not registered again, in a round whose
  -- `wait` starts after that it is not called, whatever the kernel still reports, and whatever the
  -- calls of `on_event` in this round do. A round in the midst of which it is deleted is not one of
  -- these.
  pub deletes-NoCall :
      (source : ℕ) (rs later : List Request) (on_event : ℕ → ℕ → List Request) (p : Poller K)
      (epoll_wait : ℕ → Option (List (ℕ × ℕ))) (timeout : ℕ)
      → IsOwned p
      → (serve epoll_poller (deletes source) (run epoll_poller rs p)).1 ≡ true
      → All (Spares source) later
      → let q =
          run epoll_poller later (serve epoll_poller (deletes source) (run epoll_poller rs p)).0 in
        NoCall source (handle_wait_with epoll_poller on_event (wait epoll_wait timeout q) q).1
  unfolding wait serve handle_wait
  deletes-NoCall source rs later on_event p epoll_wait timeout o e n =
      let d = (delete_event os get_handle source (run epoll_poller rs p)).0 in
      let q = run epoll_poller later d in
      let gone =
        run-IsGone source later d n
          (delete_event-gone source (run epoll_poller rs p) (run-IsOwned rs p o) e) in
      subst (NoCall source)
        (sym (
          ap (λ (x : Poller K × List (ℕ × ℕ)). x.1)
            (handle_wait_with_lem epoll_poller on_event (wait epoll_wait timeout q) q)))
        (elim (Bool-cases q.is_open) [
          | inl u ↦ rw (u, wait) (wait-NoCall source q (epoll_wait (wait_time timeout)) gone)
          | inr c ↦ rw (c, wait) tt
        ])
