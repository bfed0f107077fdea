-- ===== src/Poller/Dispatch.antt =====
-- The loop of `event_loop::run` in src/event_loop.cpp over the events of a round, with sources whose
-- `on_event` registers, modifies and deletes sources.
use tang.Prelude.{sym, inl, inr, Option-cases, ℕ, ◌≡◌, ap, refl, none, some, List, [], ◌∷◌, ◌++◌}
use tang.EventLoop.Defs.{Event, Wait, failed, timed_out, ready, dispatch, handle_wait}
use tang.Poller.Interface.{EventPoller, Request, serve, run}

module _ {P : Type 0} (poller : EventPoller P) (on_event : ℕ → ℕ → List Request) where
  -- The poller afterwards, and the calls of `on_event`. The vector of events is not looked up again.
  unfoldable pub dispatch_with : List Event → P → P × List (ℕ × ℕ)
  dispatch_with [] p = (p, [])
  dispatch_with (e ∷ es) p = elim (e.source) [
    | none ↦ dispatch_with es p
    | some s ↦
        let r = dispatch_with es (run poller (on_event s e.events) p) in (r.0, (s, e.events) ∷ r.1)
  ]

  unfoldable pub handle_wait_with : Wait → P → P × List (ℕ × ℕ)
  unfolding dispatch_with
  handle_wait_with failed p = (p, [])
  handle_wait_with timed_out p = (p, [])
  handle_wait_with (ready es) p = dispatch_with es p

  -- What the calls do to the poller.
  abbrev pub requests : List (ℕ × ℕ) → List Request
  requests [] = []
  requests ((s, events) ∷ cs) = on_event s events ++ requests cs

  run-append :
      (rs qs : List Request) (p : P) → run poller (rs ++ qs) p ≡ run poller qs (run poller rs p)
  unfolding run
  run-append [] qs p = refl
  run-append (r ∷ rs) qs p = run-append rs qs (serve poller r p).0

  dispatch_with_lem :
      (es : List Event) (p : P)
      → dispatch_with es p ≡ (run poller (requests (dispatch es)) p, dispatch es)
  unfolding dispatch_with dispatch run
  dispatch_with_lem [] p = refl
  dispatch_with_lem (e ∷ es) p = elim (Option-cases e.source) [
    | inl n ↦ rw (n, dispatch_with) (dispatch_with_lem es p)
    | inr (s, f) ↦
        rw (f, dispatch_with_lem es (run poller (on_event s e.events) p))
          (ap (λ q. (q, (s, e.events) ∷ dispatch es))
            (sym (run-append (on_event s e.events) (requests (dispatch es)) p)))
  ]

  -- In a round whose calls of `on_event` register, modify and delete sources, the calls are those that
  -- the answer of `wait` lists, in its order, whatever the calls before have done, so that a source
  -- which an earlier call has deleted is called all the same; and the poller is left as by the requests
  -- of these calls, one after the other.
  pub handle_wait_with_lem :
      (w : Wait) (p : P)
      → handle_wait_with w p ≡ (run poller (requests (handle_wait w)) p, handle_wait w)
  unfolding handle_wait_with handle_wait run
  handle_wait_with_lem failed p = refl
  handle_wait_with_lem timed_out p = refl
  handle_wait_with_lem (ready es) p = dispatch_with_lem es p
