-- ===== src/Channel/Operators.antt =====
-- `operator<<` and `operator>>` of include/tang/channel.h as the coroutines that they are: each gives a
-- `task<bool>`.
use tang.Prelude.{
  ℕ, zero, suc, ◌+◌, ◌≡◌, ◌≢◌, refl, ap, ◌∙◌, Bool, true, false, Option, none, some, List, [], ◌∷◌,
  arith, if◌then◌else◌, Option-cases, inl, inr, update_self,
}
use tang.Channel.Defs.{SendWaiter, RecvWaiter, Channel, Store, State}
use tang.Channel.Closed.{closed_recv}
use tang.Channel.Ops.{try_send, send_open, try_recv, recv_front, send_operator, recv_operator}
use tang.Channel.Runtime.{Runtime}
use tang.Scheduler.Ops
use tang.Scheduler.Global
use tang.Scheduler.Global.{Global}
use tang.Scheduler.Interface.{global_runtime}
use tang.Task.Defs.{
  Task, Promises, Destructor, drop, operator_bool, await_ready, await_resume, resume_with, returned,
  return_value,
}
use tang.Task.Creation.{Function, returns, begin, create, settle, plain_destructor}

instance abbrev pub bool_destructor : Destructor Bool
bool_destructor = plain_destructor

-- A program with a channel, whose coroutines end with a Boolean.
abbrev pub World : Type 0
World = Global (Promises Bool)

module _ {T : Type 0} where
  abbrev pub joined : World × (Channel T × Store T) → State T World
  joined (g, (c, m)) = record { chan = c; store = m; world = g }

  abbrev pub parts : State T World → World × (Channel T × Store T)
  parts s = (s.world, (s.chan, s.store))

  -- The body of an operator, which never suspends.
  abbrev pub body :
      (State T World → State T World × Bool) → Function (Channel T × Store T) Bool Bool
  body op x = let r = op (joined x) in (parts r.0, returns r.1)

  -- A call of an operator: the coroutine `h` is made, and runs to its end.
  unfoldable pub call :
      ℕ → (State T World → State T World × Bool) → State T World → Task × State T World
  unfolding create
  call h op s = let (t, g, v) = create h (body op) (parts s) in (t, joined (g, v))

  -- The frame is there when the body starts.
  abbrev pub begun : ℕ → State T World → State T World
  begun h s = record s { world = begin h s.world }

  -- The operator leaves the promises of all coroutines alone.
  abbrev IsApart : (State T World → State T World × Bool) → Type 0
  IsApart op = (s : State T World) → (op s).0.world.user ≡ s.world.user

  call_lem :
      (h : ℕ) (op : State T World → State T World × Bool) (s : State T World)
      → h ≢ 0
      → IsApart op
      → let (t, u) = call h op s in
        let r = op (begun h s) in
        (operator_bool t u.world ≡ false)
        × (await_ready t u.world ≡ true)
        × (await_resume t u.world ≡ returned r.1)
        × (u.chan ≡ r.0.chan)
        × (u.store ≡ r.0.store)
  unfolding call operator_bool await_ready await_resume settle return_value resume_with
  call_lem h op s z a = (
    ground arith,
    ground arith,
    ground (arith, ap (λ u. (u h).exception) (a (begun h s))),
    refl,
    refl,
  )

module _ (hardware : ℕ) where
  instance abbrev pub runtime : Runtime World
  runtime = global_runtime hardware

  schedule-user : (h : ℕ) (g : World) → (Global.schedule hardware h g).user ≡ g.user
  unfolding Global.schedule Ops.schedule
  schedule-user h g = elim (Option-cases g.g_scheduler) [
    | inl e ↦ ground arith
    | inr (c, e) ↦ ground arith
  ]

  module _ {T : Type 0} where
    -- `ch << v` and `ch >> value`.
    abbrev pub send_task : ℕ → T → State T World → Task × State T World
    send_task h v s = call h (send_operator v) s

    abbrev pub recv_task : ℕ → ℕ → State T World → Task × State T World
    recv_task h p s = call h (recv_operator p) s

    recv_front-user :
        (p : ℕ) (xs : List T) (ws : List (SendWaiter T)) (s : State T World)
        → (recv_front p xs ws s).0.world.user ≡ s.world.user
    unfolding recv_front
    recv_front-user p [] [] s = refl
    recv_front-user p [] (w ∷ ws) s = schedule-user w.handle s.world
    recv_front-user p (x ∷ xs) [] s = refl
    recv_front-user p (x ∷ xs) (w ∷ ws) s = schedule-user w.handle s.world

    recv_operator-IsApart : (p : ℕ) → IsApart (recv_operator {T = T} p)
    unfolding recv_operator try_recv
    recv_operator-IsApart p s = ground (arith, recv_front-user p s.buffer s.send_waiters s)

    send_open-user :
        (v : T) (ws : List RecvWaiter) (s : State T World)
        → (send_open v ws s).0.world.user ≡ s.world.user
    unfolding send_open
    send_open-user v [] s = ground arith
    send_open-user v (w ∷ ws) s = schedule-user w.handle s.world

    send_operator-IsApart : (v : T) → IsApart (send_operator v)
    unfolding send_operator try_send
    send_operator-IsApart v s = ground (arith, send_open-user v s.recv_waiters s)

    -- The channel and the memory after a call of an operator.
    pub send_task-effect :
        (h : ℕ) (v : T) (s : State T World)
        → h ≢ 0
        → let u = (send_task h v s).1 in
          let r = (send_operator v (begun h s)).0 in (u.chan ≡ r.chan) × (u.store ≡ r.store)
    send_task-effect h v s z =
        let r = call_lem h (send_operator v) s z (send_operator-IsApart v) in (r.3, r.4)

    pub recv_task-effect :
        (h p : ℕ) (s : State T World)
        → h ≢ 0
        → let (t, u) = recv_task h p s in
          let r = recv_operator p (begun h s) in
          (await_resume t u.world ≡ returned r.1) × (u.chan ≡ r.0.chan) × (u.store ≡ r.0.store)
    recv_task-effect h p s z =
        let r = call_lem h (recv_operator p) s z (recv_operator-IsApart p) in (r.2, r.3, r.4)

    operators-answer :
        (p : ℕ) (v : T) (s : State T World)
        → ((recv_operator p s).1 ≡ (try_recv p s).1) × ((send_operator v s).1 ≡ (try_send v s).1)
    unfolding recv_operator send_operator
    operators-answer p v s = (ground arith, ground arith)

    -- Whatever the state of the channel, if the address `h` of the new coroutine is not null: the tasks that `ch << v` and `ch >> value` give have ended
    -- when the caller gets them: as a condition such a task is false, whether or not a value was sent
    -- or received; `co_await` does not suspend, and gives the answer of `try_send` or `try_recv`.
    pub operators_answer :
        (h p : ℕ) (v : T) (s : State T World)
        → h ≢ 0
        → let (t, u) = recv_task h p s in
          let (t', u') = send_task h v s in
          (operator_bool t u.world ≡ false)
          × (operator_bool t' u'.world ≡ false)
          × (await_ready t u.world ≡ true)
          × (await_ready t' u'.world ≡ true)
          × (await_resume t u.world ≡ returned (try_recv p (begun h s)).1)
          × (await_resume t' u'.world ≡ returned (try_send v (begun h s)).1)
    operators_answer h p v s z =
        let r = call_lem h (recv_operator p) s z (recv_operator-IsApart p) in
        let w = call_lem h (send_operator v) s z (send_operator-IsApart v) in
        let e = operators-answer p v (begun h s) in
        (
          r.0,
          w.0,
          r.1,
          w.1,
          r.2 ∙ ap (λ (b : Bool). returned b) e.0,
          w.2 ∙ ap (λ (b : Bool). returned b) e.1,
        )

    -- The loop `while (ch >> value) { … }`, from the round `k`: the values that its body sees. The task
    -- in the test is destroyed after the test. `none` means that the fuel ran out.
    unfoldable pub while_recv :
        ℕ → (ℕ → ℕ) → ℕ → ℕ → State T World → Option (List T × State T World)
    while_recv zero hs k p s = none
    while_recv (suc fuel) hs k p s =
        let (t, u) = recv_task (hs k) p s in
        let w = record u { world = drop t u.world } in
        let rest = while_recv fuel hs (k + 1) p w in
        if operator_bool t u.world
        then elim rest [ none ↦ none | some (vs, z) ↦ some (u.cell p ∷ vs, z) ]
        else some ([], w)

    -- Such a loop ends at its first test.
    pub while_recv_lem :
        (fuel k p : ℕ) (hs : ℕ → ℕ) (s : State T World)
        → hs k ≢ 0
        → let r = recv_operator p (begun (hs k) s) in
          (u : State T World) × (while_recv (suc fuel) hs k p s ≡ some ([], u))
          × (u.chan ≡ r.0.chan)
          × (u.store ≡ r.0.store)
    unfolding while_recv
    while_recv_lem fuel k p hs s z =
        let r = call_lem (hs k) (recv_operator p) s z (recv_operator-IsApart p) in
        let called = recv_task (hs k) p s in
        (record (called.1) { world = drop called.0 called.1.world }, rw r.0 refl, r.3, r.4)

    -- The loop `while (ch >> value)` over a channel with values in the buffer and no waiting sender, if the
    -- address of the coroutine of its first test is not null,
    -- takes the oldest one out of the channel, does not run its body, and ends.
    pub while_drops :
        (fuel k p : ℕ) (hs : ℕ → ℕ) (x : T) (xs : List T) (s : State T World)
        → hs k ≢ 0
        → s.buffer ≡ x ∷ xs
        → s.send_waiters ≡ []
        → (u : State T World) × (while_recv (suc fuel) hs k p s ≡ some ([], u))
          × (u.buffer ≡ xs)
          × (u.cell p ≡ x)
    while_drops fuel k p hs x xs s z b w =
        let r = while_recv_lem fuel k p hs s z in
        let front = closed_recv p x xs (begun (hs k) s) b w in
        (
          r.0,
          r.1,
          ap (λ (c : Channel T). c.buffer) r.2
              ∙ ap (λ (y : State T World × Bool). y.0.buffer) front,
          ap (λ (m : Store T). m.cell p) r.3
              ∙ ap (λ (y : State T World × Bool). y.0.cell p) front
              ∙ update_self s.cell p x,
        )
