-- ===== src/Tests/Selects.antt =====
-- Selects on concrete channels.
use mathlib.Core.List.{mem-cons, mem-cons_self, not-mem-nil}
use mathlib.Core.Logic.Or
use mathlib.Core.Bool.{Bool-set}
use mathlib.Core.List.Perm
use tang.Prelude.{ℕ, ◌≡◌, refl, false, none, some, List, [], ◌∷◌}
use tang.Channel.Runtime.{Runtime}
use tang.Channel.Defs.{Channel}
use tang.Scheduler.Defs.{suspended}
use tang.Scheduler.Global.{Global}
use tang.Scheduler.Interface.{global_runtime}
use tang.Select.Defs.{
  recv_from, nothing, case_recv, case_send, default_action, Case, Net, try_ready,
}
use tang.Select.Ops.{select}
use tang.Select.Defs.{Action, send_to}
use tang.Select.Defs.{try_execute, is_ready, execute}
use tang.Channel.Ops.{try_recv}
use tang.Select.Taken.{first_ready_with, IsLeft, taken_between}
use tang.Select.Once.{Ran, select-Ran}
use tang.Select.Choice.{IsOpen}
use tang.Select.Blocking.{NoDefault, select_starves}

instance abbrev two_threads : Runtime (Global ℕ)
two_threads = global_runtime 2

abbrev world : Global ℕ
world = record { g_scheduler = none; frame = λ _. suspended; user = 0 }

-- All channels are alike.
abbrev net : Channel ℕ → Net ℕ (Global ℕ)
net c = record {
  chans = λ _. c;
  store = record { cell = λ _. 0; flag = λ _. false };
  world = world;
  called = [];
}

abbrev unbuffered : Channel ℕ
unbuffered = record {
  capacity = 0;
  buffer = [];
  closed = false;
  send_waiters = [];
  recv_waiters = [];
}

abbrev stocked : Channel ℕ
stocked = record unbuffered { capacity = 2; buffer = 50 ∷ [] }

abbrev receive : Case ℕ
receive = case_recv 1 (some 100) (some 7)

abbrev default : Case ℕ
default = default_action (some 8)

abbrev in_order : ℕ → List (Case ℕ) → List (Case ℕ)
in_order _ ks = ks

abbrev alone : ℕ → Net ℕ (Global ℕ) → Net ℕ (Global ℕ)
alone _ n = n

no_default : NoDefault (receive ∷ [])
no_default k m =
    Or.elim (Bool-set _ _) (mem-cons.0 m) (λ same. rw same refl) (λ more. absurd (not-mem-nil more))

select_starves_example : select 9 in_order alone (receive ∷ []) (net unbuffered) ≡ none
select_starves_example =
    select_starves 9 in_order alone (receive ∷ []) (net unbuffered) (λ _ js. Perm.refl js)
      (λ _ m u. u) no_default (λ _. (refl, refl, refl))

stocked-IsOpen : (a : Action ℕ) → IsOpen a (net stocked)
stocked-IsOpen (recv_from c p) = refl
stocked-IsOpen (send_to c v) = refl
stocked-IsOpen nothing = tt

-- Both cases are ready.
abbrev two_cases : List (Case ℕ)
two_cases = case_send 2 60 none ∷ receive ∷ []

select-Ran_example : Ran two_cases (net stocked) (select 0 in_order alone two_cases (net stocked))
unfolding try_ready
select-Ran_example =
    select-Ran 0 in_order alone two_cases (net stocked) (case_send 2 60 none) (Perm.refl two_cases)
      (λ j m. stocked-IsOpen j.action) mem-cons_self refl

-- Another thread takes the value first.
abbrev steals : Net ℕ (Global ℕ) → Net ℕ (Global ℕ)
steals n = (try_execute (case_recv 1 (some 200) none) n).0

abbrev ready_once : Net ℕ (Global ℕ)
ready_once = net stocked

taken_between_example :
    (m : Net ℕ (Global ℕ)) × (first_ready_with steals (receive ∷ []) ready_once ≡ some m)
    × IsLeft (steals ready_once) m
    × ((try_execute receive (steals ready_once)).1 ≡ false)
unfolding try_ready is_ready try_execute execute try_recv
taken_between_example =
    taken_between steals [] [] 1 (some 100) (some 7) ready_once tt refl refl refl
