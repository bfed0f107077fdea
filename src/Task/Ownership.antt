-- ===== src/Task/Ownership.antt =====
-- Who destroys the coroutine of a task of include/tang/task.h.
use tang.Prelude.{ℕ, ◌≡◌, ◌≢◌, refl, arith, update, Option-cases, inl, inr}
use tang.Scheduler.Defs.{destroyed}
use tang.Scheduler.Global.{Global}
use tang.Task.Defs.{Task, Promises, Destructor, release_result, destroy, drop, move, assign}

module _ {ℓ} {R : Type ℓ} ⦃d : Destructor R⦄ where
  pub destroy_destroys : (h : ℕ) (g : Global (Promises R)) → (destroy h g).frame h ≡ destroyed
  unfolding release_result
  destroy_destroys h g = elim (Option-cases ((g.user h).result)) [
    | inl e ↦ ground arith
    | inr (r, e) ↦ ground (arith, d.keeps_destroyed r (update g.frame h destroyed) h)
  ]

  pub drop_destroys :
      (t : Task) (g : Global (Promises R)) → t.handle ≢ 0 → (drop t g).frame t.handle ≡ destroyed
  unfolding drop
  drop_destroys t g n = ground (arith, destroy_destroys t.handle g)

  -- After a move the new task alone owns the coroutine: dropping what was moved from changes nothing,
  -- and dropping both, in either order, is dropping the first owner.
  pub move_owner :
      (t : Task) (g : Global (Promises R))
      → let (new, old) = move t in
        (drop old g ≡ g) × (drop old (drop new g) ≡ drop t g) × (drop new (drop old g) ≡ drop t g)
  unfolding move drop
  move_owner t g = (refl, ground arith, refl)

  -- An assignment by move hands the coroutine over, leaves the source with nothing to destroy, and
  -- does to the coroutine that the target owned what dropping it does.
  pub assign_owner :
      (this other : Task) (g : Global (Promises R))
      → let (a, b, g') = assign this other g in (a ≡ other) × (drop b g' ≡ g') × (g' ≡ drop this g)
  unfolding assign drop
  assign_owner this other g = (refl, refl, refl)
