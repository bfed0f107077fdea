-- ===== src/Sleep/Coroutine.antt =====
-- The coroutine `sleep` of include/tang/sleep.h, which is also `task<void>::sleep` of
-- include/tang/task.h, and a coroutine that awaits it.
use tang.Prelude.{
  ℕ, ◌≡◌, ◌≢◌, refl, sym, ap, ◌∙◌, true, false, none, List, [], ◌∷◌, ◌++◌, append_assoc, update,
  update_self, ◌==◌, arith,
}
use tang.Scheduler.Defs.{Frame, suspended, finished, Machine, Program}
use tang.Scheduler.Ops
use tang.Scheduler.Ops.{run_handle}
use tang.Scheduler.Global.{Global}
use tang.Task.Defs.{
  Task, Promise, Promises, returned, await_ready, await_suspend, await_resume_void,
}
use tang.Task.Creation.{begin, promise, get_return_object}
use tang.Task.Awaiting.{as_global, awaiting, as_global-awaiting, as_global-injective}
use tang.Sleep
use tang.Sleep.{Night}
use tang.Sleep.Early.{sleeper}

module _ {ℓ} {R : Type ℓ} where
  -- `sleep(duration)` at the time `now`, as the coroutine `h`: it runs up to its `co_await`, for which
  -- the awaiter is never ready.
  unfoldable pub sleep :
      ℕ → ℕ → ℕ → Night (Global (Promises R)) → Task × Night (Global (Promises R))
  sleep now duration h n = (
    get_return_object h,
    Sleep.await_suspend now duration h (record n { world = begin h n.world }),
  )

  -- What is left of its body when it is resumed: it returns.
  unfoldable pub go_on : ℕ → Machine (Promises R) → Machine (Promises R)
  go_on h m = record m { frame = update m.frame h finished }

  -- A coroutine that is run and suspends is queued.
  suspends :
      (resume : Program (Promises R)) (k : ℕ) (m w : Machine (Promises R))
      → k ≢ 0
      → m.frame k ≡ suspended
      → w.frame k ≡ suspended
      → resume k m ≡ (w, false)
      → let v = run_handle resume k m in
        (v.task_queue ≡ w.task_queue ++ k ∷ []) × (v.frame ≡ w.frame) × (v.user ≡ w.user)
  unfolding run_handle Ops.schedule
  suspends resume k m w z f g r = (ground arith, ground arith, ground arith)

  -- A coroutine that is run and ends is not.
  ends :
      (resume : Program (Promises R)) (h : ℕ) (v : Machine (Promises R))
      → h ≢ 0
      → v.frame h ≡ suspended
      → resume h v ≡ (go_on h v, false)
      → let w = run_handle resume h v in
        (w.task_queue ≡ v.task_queue) × (w.frame h ≡ finished) × (w.user ≡ v.user)
  unfolding run_handle go_on Ops.task_completed
  ends resume h v z f r = (ground arith, ground arith, ground arith)

  awaiting_lem :
      (h k : ℕ) (n : Machine (Promises R))
      → h ≢ 0
      → n.frame h ≡ suspended
      → let w = awaiting (get_return_object h) k n in
        (w.task_queue ≡ n.task_queue ++ h ∷ [])
        × (w.frame ≡ n.frame)
        × ((w.user h).exception ≡ (n.user h).exception)
  unfolding Ops.schedule
  awaiting_lem h k n z f = (ground arith, ground arith, ground arith)

  resumes_void :
      (h : ℕ) (w : Machine (Promises R))
      → h ≢ 0
      → w.frame h ≡ finished
      → (w.user h).exception ≡ none
      → (await_ready (get_return_object h) (as_global w) ≡ true)
        × (await_resume_void (get_return_object h) (as_global w) ≡ returned tt)
  unfolding await_ready await_resume_void
  resumes_void h w z f e = (ground arith, ground arith)

module _ {ℓ} {R : Type ℓ} (hardware : ℕ) where
  -- A coroutine `k` that is run, does what takes the machine to `n`, and comes to `co_await sleep(…)`,
  -- whose new coroutine is `h`: the await schedules `h`, and the loop queues `k` behind it, while the
  -- thread that is to wake `h` up still sleeps. When `h` is run next it ends at once, so that `k` goes
  -- on, as after a sleep that is over.
  pub sleep_skipped :
      (resume : Program (Promises R)) (now duration h k : ℕ) (m n w : Machine (Promises R))
      (ss : List Sleep.Sleeper)
      → h ≢ 0
      → k ≢ 0
      → (k == h) ≡ false
      → m.frame k ≡ suspended
      → n.frame k ≡ suspended
      → resume k m ≡ (w, false)
      → as_global w
        ≡ await_suspend hardware
            (sleep now duration h (record { world = as_global n; sleepers = ss })).0
            k
            (sleep now duration h (record { world = as_global n; sleepers = ss })).1.world
      → ((x : Machine (Promises R)) → resume h x ≡ (go_on h x, false))
      → let (t, s) = sleep now duration h (record { world = as_global n; sleepers = ss }) in
        let v = run_handle resume k m in
        let u = run_handle resume h v in
        (s.sleepers ≡ ss ++ sleeper now duration h ∷ [])
        × (v.task_queue ≡ n.task_queue ++ (h ∷ k ∷ []))
        × (u.task_queue ≡ v.task_queue)
        × (await_ready t (as_global u) ≡ true)
        × (await_resume_void t (as_global u) ≡ returned tt)
  unfolding sleep Sleep.await_suspend
  sleep_skipped resume now duration h k m n w ss z y q f g r a s =
      let n' : Machine (Promises R) = record n {
        frame = update n.frame h suspended;
        user = update n.user h promise;
      } in
      let same : w ≡ awaiting (get_return_object h) k n' =
        as_global-injective hardware w (awaiting (get_return_object h) k n')
          (a ∙ sym (as_global-awaiting hardware (get_return_object h) k n')) in
      let fresh = awaiting_lem h k n' z (update_self n.frame h suspended) in
      let frames : w.frame ≡ n'.frame = ap (λ (x : Machine (Promises R)). x.frame) same ∙ fresh.1 in
      let there : n'.frame k ≡ suspended = ground arith in
      let one = suspends resume k m w y f (ap (λ (fs : ℕ → Frame). fs k) frames ∙ there) r in
      let v : Machine (Promises R) = run_handle resume k m in
      let two =
        ends resume h v z
          (ap (λ (fs : ℕ → Frame). fs h) (one.1 ∙ frames) ∙ update_self n.frame h suspended)
          (s v) in
      let no_exception =
        ap (λ (us : Promises R). (us h).exception)
          (two.2 ∙ one.2 ∙ ap (λ (x : Machine (Promises R)). x.user) same)
        ∙ fresh.2
        ∙ ap (λ (x : Promise R). x.exception) (update_self n.user h promise) in
      let three = resumes_void h (run_handle resume h v) z two.1 no_exception in
      (
        refl,
        one.0
            ∙ ap (λ hs. hs ++ k ∷ [])
                (ap (λ (x : Machine (Promises R)). x.task_queue) same ∙ fresh.0)
            ∙ append_assoc n.task_queue (h ∷ []) (k ∷ []),
        two.0,
        three.0,
        three.1,
      )
