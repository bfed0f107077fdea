-- ===== src/Select/Awaiting.antt =====
-- `co_await co_select(…)`, the `select_awaiter` of include/tang/select.h.
use mathlib.Core.Bool.{Bool-set}
use mathlib.Core.List.{Mem, Perm, mem-cons, mem-cons_self, mem-cons_of_mem, not-mem-nil}
use mathlib.Core.List.Perm
use mathlib.Core.Logic.Or
use tang.Prelude.{ℕ, ◌≡◌, ◌∙◌, false, Option, some, List, [], ◌∷◌, map, arith}
use tang.Channel.Runtime.{Runtime}
use tang.Channel.Ops.{try_send}
use tang.Select.Defs.{Case, Net, focus, try_ready, set_handle}
use tang.Select.Ops.{Awaiter, await_ready, await_suspend}
use tang.Select.Blocking.{first_ready_unready}

module _ {ℓ} {T W : Type ℓ} ⦃rt : Runtime W⦄ where
  abbrev pub AllUnready : List (Case T) → Net T W → Type ℓ
  AllUnready ks n = (k : Case T) → Mem k ks → try_ready k n ≡ false

  AllUnready-perm :
      (ks js : List (Case T)) (n : Net T W) → Perm js ks → AllUnready ks n → AllUnready js n
  AllUnready-perm ks js n p u k m = u k ((Perm.mem_iff p).0 m)

  set_handle-try_ready :
      (h : Option ℕ) (k : Case T) (n : Net T W) → try_ready (set_handle h k) n ≡ try_ready k n
  unfolding try_ready
  set_handle-try_ready h k n = ground arith

  AllUnready-set_handle :
      (h : Option ℕ) (ks : List (Case T)) (n : Net T W)
      → AllUnready ks n
      → AllUnready (map (set_handle h) ks) n
  AllUnready-set_handle h [] n u k m = absurd (not-mem-nil m)
  AllUnready-set_handle h (j ∷ ks) n u k m =
      Or.elim (Bool-set _ _) (mem-cons.0 m)
        (λ same. rw same (set_handle-try_ready h j n ∙ u j mem-cons_self))
        (λ more. AllUnready-set_handle h ks n (λ i l. u i (mem-cons_of_mem j l)) k more)

  -- If no case of a `co_select` is ready, the coroutine `h` suspends, and neither a channel nor the
  -- runtime learns of it: a later send to any channel that no receiver waits on schedules nobody.
  co_select_unheard :
      (before after : List (Case T) → List (Case T)) (h c : ℕ) (v : T) (a : Awaiter T) (n : Net T W)
      → ((ks : List (Case T)) → Perm (before ks) ks)
      → ((ks : List (Case T)) → Perm (after ks) ks)
      → AllUnready a.cases n
      → (n.chans c).recv_waiters ≡ []
      → a.resumed ≡ false
      → let r = await_ready before a n in
        let s = await_suspend after h r.0 r.1 in
        (r.2 ≡ false)
        × (s.0.resumed ≡ false)
        × (s.1 ≡ n)
        × ((try_send v (focus c s.1)).0.world ≡ n.world)
  unfolding await_ready await_suspend try_send
  co_select_unheard before after h c v a n p q u w f =
      let first =
        first_ready_unready (before a.cases) n (AllUnready-perm a.cases _ n (p a.cases) u) in
      let cases = map (set_handle (some h)) (before a.cases) in
      let again = first_ready_unready (after cases) n (
        AllUnready-perm cases _ n (q cases) (
          AllUnready-set_handle (some h) (before a.cases) n
            (AllUnready-perm a.cases _ n (p a.cases) u))) in
      ground (arith, first, again)
