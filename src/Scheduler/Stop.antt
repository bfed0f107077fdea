-- ===== src/Scheduler/Stop.antt =====
-- `scheduler::stop` in src/runtime.cpp.
use tang.Prelude.{
  ℕ, ◌≡◌, ◌≢◌, ap, ◌∙◌, Bool, true, false, not, ◌&&◌, ◌||◌, List, [], ◌∷◌, ◌++◌, if◌then◌else◌,
  ◌==◌, is_in, update, arith, All, inl, inr, Bool-cases,
}
use tang.Scheduler.Defs.{Frame, suspended, finished, destroyed, Machine, is_finished}
use tang.Scheduler.Ops.{set_sched}

-- The loop that destroys what is still queued, where it is defined (`is_defined`).
unfoldable pub destroy_handles : List ℕ → (ℕ → Frame) → ℕ → Frame
destroy_handles [] f = f
destroy_handles (h ∷ hs) f =
    destroy_handles hs (if not (h == 0) && not (is_finished (f h)) then update f h destroyed else f)

abbrev pub is_destroyed : Frame → Bool
is_destroyed destroyed = true
is_destroyed suspended = false
is_destroyed finished = false

abbrev release : ℕ → (ℕ → Frame) → ℕ → Frame
release h f = if not (h == 0) && not (is_finished (f h)) then update f h destroyed else f

-- Whether the loop is defined: it calls `done()` on every handle that is not null, which a destroyed
-- frame does not allow.
unfoldable pub is_defined : List ℕ → (ℕ → Frame) → Bool
is_defined [] f = true
is_defined (h ∷ hs) f = (h == 0 || not (is_destroyed (f h))) && is_defined hs (release h f)

abbrev pub AreDistinct : List ℕ → Type 0
AreDistinct [] = Unit
AreDistinct (h ∷ hs) = (is_in h hs ≡ false) × AreDistinct hs

abbrev pub AreThere : (ℕ → Frame) → List ℕ → Type 0
AreThere f = All λ h. is_destroyed (f h) ≡ false

-- The frame of `k` afterwards.
abbrev pub after : List ℕ → (ℕ → Frame) → ℕ → Frame
after hs f k = if not (k == 0) && is_in k hs && not (is_finished (f k)) then destroyed else f k

destroyed_again :
    (h : ℕ) (hs : List ℕ) (f : ℕ → Frame)
    → h ≢ 0
    → f h ≡ destroyed
    → is_in h hs ≡ true
    → is_defined hs f ≡ false
unfolding is_defined
destroyed_again h [] f z e i = absurd cc
destroyed_again h (k ∷ hs) f z e i = elim (Bool-cases (k == h)) [
  | inl same ↦ ground arith
  | inr other ↦
      let rest = destroyed_again h hs (release k f) z (ground arith) (ground arith) in
      ground (arith, rest)
]

queued_twice :
    (h : ℕ) (hs ks : List ℕ) (f : ℕ → Frame)
    → h ≢ 0
    → is_finished (f h) ≡ false
    → is_in h ks ≡ true
    → is_defined (hs ++ h ∷ ks) f ≡ false
unfolding is_defined
queued_twice h [] ks f z l i = ground (arith, destroyed_again h ks (release h f) z (ground arith) i)
queued_twice h (k ∷ hs) ks f z l i =
    ground (arith, queued_twice h hs ks (release k f) z (ground arith) i)

module _ {ℓ} {U : Type ℓ} where
  -- The stores before the worker threads are joined.
  abbrev pub signal_stop : Machine U → Machine U
  signal_stop m = set_sched (record (m.sched) { running = false; event_loop_running = false }) m

  abbrev pub clear : Machine U → Machine U
  clear m = record m {
    sched = record (m.sched) { threads = 0; task_queue = []; active_tasks = 0 };
    frame = destroy_handles m.task_queue m.frame;
  }

  -- `joined` is what the worker threads still do until they are joined.
  unfoldable pub stop : (Machine U → Machine U) → Machine U → Machine U
  stop joined m = if m.running then clear (joined (signal_stop m)) else m

  -- If a handle that is not null, whose coroutine has not ended, is in the queue twice when the workers
  -- are joined, as after a `yield`, then `stop` on a running scheduler is undefined: the loop that
  -- destroys the queued coroutines comes to a frame that it or somebody else has destroyed.
  pub stop_twice :
      (joined : Machine U → Machine U) (m : Machine U) (h : ℕ) (hs ks : List ℕ)
      → h ≢ 0
      → (joined (signal_stop m)).task_queue ≡ hs ++ h ∷ ks
      → is_in h ks ≡ true
      → is_finished ((joined (signal_stop m)).frame h) ≡ false
      → let j = joined (signal_stop m) in is_defined j.task_queue j.frame ≡ false
  stop_twice joined m h hs ks z q i l =
      let f = (joined (signal_stop m)).frame in
      ap (λ qs. is_defined qs f) q ∙ queued_twice h hs ks f z l i

  -- On a scheduler that is not running, `stop` does nothing, so the handles queued there stay queued
  -- and their frames suspended.
  stop_idle :
      (joined : Machine U → Machine U) (m : Machine U) → m.running ≡ false → stop joined m ≡ m
  unfolding stop
  stop_idle joined m e = rw (e, stop)
