-- ===== src/Tests/Channels.antt =====
-- Channels of numbers over the global scheduler.
use tang.Prelude.{ℕ, ◌≡◌, refl, inl, true, false, none, some, List, [], ◌∷◌, arith, All}
use tang.Channel.Runtime.{Runtime}
use tang.Channel.Defs.{Channel, Store, State}
use tang.Channel.Ops.{try_recv, try_send, close}
use tang.Channel.RecvAwaiter
use tang.Channel.RecvAwaiter.{RecvAwaiter, waiter}
use tang.Channel.System.{System, init, start, later, sends}
use tang.Channel.Waking.{close_wakes_everyone, HasFailed}
use tang.Channel.Invariant.{Inv, Reach-Inv}
use tang.Channel.Queue.{Settled, view, Receives, try_recv-Receives}
use tang.Channel.Fifo.{
  Op, sending, receiving, run, view_run, run-view, send_each, recv_each, recv_each-send_each,
}
use tang.Channel.Closed.{consume, consume_closed}
use tang.Channel.Races.{Quiet, overtaken, lost_wakeup}
use tang.Scheduler.Defs.{suspended}
use tang.Scheduler.Global.{Global, pending, is_live}
use tang.Task.Creation.{promise}
use tang.Task.Defs.{operator_bool, await_ready, await_resume, returned}
use tang.Channel.Operators.{World, send_task, recv_task, while_recv, operators_answer, while_drops}
use tang.Scheduler.Interface.{global_runtime}

instance abbrev two_threads : Runtime (Global ℕ)
two_threads = global_runtime 2

abbrev world : Global ℕ
world = record { g_scheduler = none; frame = λ _. suspended; user = 0 }

abbrev memory : Store ℕ
memory = record { cell = λ _. 0; flag = λ _. true }

abbrev fresh : ℕ → Channel ℕ
fresh n = record { capacity = n; buffer = []; closed = false; send_waiters = []; recv_waiters = [] }

abbrev on : Channel ℕ → State ℕ (Global ℕ)
on c = record { chan = c; store = memory; world = world }

abbrev awaiter : RecvAwaiter
awaiter = record { value = 100; result = 200 }

fresh-Settled : (n : ℕ) → Settled (on (fresh n))
fresh-Settled n = record { is_open = refl; no_takers = inl refl; no_room = inl refl }

fresh-Quiet : (n : ℕ) → Quiet (on (fresh n))
fresh-Quiet n = record { is_open = refl; no_values = refl; no_senders = refl; no_receivers = refl }

-- Three senders, of which two wait, and one receiver.
recv_each-send_each_example :
    recv_each 9 awaiter 3 (send_each ((5, 50) ∷ (6, 60) ∷ (7, 70) ∷ []) (on (fresh 1)))
    ≡ 50 ∷ 60 ∷ 70 ∷ []
recv_each-send_each_example =
    recv_each-send_each 9 awaiter ((5, 50) ∷ (6, 60) ∷ (7, 70) ∷ []) (on (fresh 1))
      (fresh-Settled 1) refl refl

abbrev history : List (Op ℕ)
history = receiving 9 awaiter ∷ sending 5 50 ∷ sending 6 60 ∷ sending 7 70 ∷ []

run-view_example :
    (view (run history (on (fresh 1))) ≡ view_run history (view (on (fresh 1))))
    × Settled (run history (on (fresh 1)))
run-view_example = run-view history (on (fresh 1)) (fresh-Settled 1)

abbrev shared : System ℕ (Global ℕ)
shared = init 1 memory world

abbrev sent : System ℕ (Global ℕ)
sent = record shared { state = (try_send 50 shared.state).0 }

Reach-Inv_example : Inv 1 sent
Reach-Inv_example = Reach-Inv (later (start memory world) (sends 50))

-- A full channel on which a sender waits.
abbrev full : State ℕ (Global ℕ)
full =
    on (record (fresh 1) {
      buffer = 50 ∷ [];
      send_waiters = (record { handle = 6; value = 60 }) ∷ [];
    })

try_recv-Receives_example : Receives 100 full (try_recv 100 full)
try_recv-Receives_example = try_recv-Receives 100 full

close_wakes_everyone_example :
    (pending (close full).world ≡ 6 ∷ [])
    × All (HasFailed (close full).flag) []
    × ((close full).cell ≡ memory.cell)
    × ((close full).chan ≡ record (fresh 1) { buffer = 50 ∷ []; closed = true })
unfolding pending is_live
close_wakes_everyone_example = close_wakes_everyone full refl (refl, tt)

lost_wakeup_example :
    let parked = RecvAwaiter.await_suspend 9 awaiter (overtaken awaiter 50 (on (fresh 1))) in
    ((RecvAwaiter.await_ready awaiter (RecvAwaiter.recv awaiter (on (fresh 1)))).1 ≡ false)
    × (parked.buffer ≡ 50 ∷ [])
    × (parked.recv_waiters ≡ waiter 9 awaiter ∷ [])
    × (parked.world ≡ world)
    × ((try_send 60 parked).0.cell 100 ≡ 60)
    × ((try_send 60 parked).0.buffer ≡ 50 ∷ [])
lost_wakeup_example = lost_wakeup 9 awaiter 50 60 (on (fresh 1)) (fresh-Quiet 1) (omega arith)

abbrev drained : State ℕ (Global ℕ)
drained = on (record (fresh 2) { buffer = 50 ∷ 60 ∷ []; closed = true })

consume_closed_example :
    (t : State ℕ (Global ℕ)) × (consume 3 100 drained ≡ some (50 ∷ 60 ∷ [], t)) × (t.buffer ≡ [])
consume_closed_example = consume_closed 3 100 drained refl refl (omega arith)

-- A program with two values in a channel.
abbrev stocked : State ℕ World
stocked = record {
  chan = record (fresh 2) { buffer = 50 ∷ 60 ∷ [] };
  store = memory;
  world = record { g_scheduler = none; frame = λ _. suspended; user = λ _. promise };
}

operators_answer_example :
    let (t, u) = recv_task 2 7 100 stocked in
    let (t', u') = send_task 2 7 70 stocked in
    (operator_bool t u.world ≡ false)
    × (operator_bool t' u'.world ≡ false)
    × (await_ready t u.world ≡ true)
    × (await_ready t' u'.world ≡ true)
    × (await_resume t u.world ≡ returned true)
    × (await_resume t' u'.world ≡ returned false)
unfolding try_recv try_send
operators_answer_example = operators_answer 2 7 100 70 stocked (omega arith)

while_drops_example :
    (u : State ℕ World) × (while_recv 2 3 (λ _. 7) 0 100 stocked ≡ some ([], u))
    × (u.buffer ≡ 60 ∷ [])
    × (u.cell 100 ≡ 50)
while_drops_example = while_drops 2 2 0 100 (λ _. 7) 50 (60 ∷ []) stocked (omega arith) refl refl
