-- ===== src/Tests/Programs.antt =====
-- The programs of the directory examples with the numbers that they have there.
use tang.Prelude.{false, ℕ, ◌+◌, ◌≡◌, ◌++◌, map, take, drop, none, some, true, [], ◌∷◌, arith}
use tang.Channel.Defs.{channel, Store}
use tang.Channel.Operators.{World}
use tang.Task.Creation.{promise}
use tang.Scheduler.Defs.{suspended}
use tang.Examples.Channels.{sent, received, buffered_channel_example}
use tang.Examples.Loops.{values, found}
use tang.Examples.Overflow.{buffered_channel_example_lem}
use tang.Prelude.{◌≤◌, ◌%◌, ◌==◌, if◌then◌else◌, List}
use tang.Select.Defs.{Case, Net}
use tang.Examples.Channels.{Line}
use tang.Examples.Selects
use tang.Examples.Selects.{Source, one, two, three, address, case_of, select_example}
use tang.Examples.Rounds.{values_of}
use tang.Examples.Fairness.{count}
use tang.Examples.Received.{select_example-ends}
use tang.Scheduler.Global
use tang.Examples.Hello.{hello, from_goroutine, from_lambda, greet, greet_lem}
use tang.Examples.Deferred

abbrev world : World
world = record { g_scheduler = none; frame = λ _. suspended; user = λ _. promise }

abbrev memory : Store ℕ
memory = record { cell = λ _. 0; flag = λ _. true }

buffered_channel_example_lem_example :
    let vs = take 5 (values 10 1 0 ++ values 10 2 0) in
    let x =
      buffered_channel_example 4 (λ k. k + 10) 100 7 10 10 (world, ((channel 5, memory), [])) in
    (x.1.1
      ≡ map (sent 1) (values 10 1 0)
        ++ map (sent 2) (values 10 2 0)
        ++ map (received 1) (found 10 vs)
        ++ map (received 2) (found 10 (drop 10 vs)))
    × (x.1.0.0.buffer ≡ drop 10 (drop 10 vs))
buffered_channel_example_lem_example =
    buffered_channel_example_lem 4 (λ k. k + 10) 100 (λ k e. omega arith) 7 5 10 10 world memory

-- The shuffles turn the three cases round.
abbrev turned : List (Case ℕ) → List (Case ℕ)
turned [] = []
turned (k ∷ ks) = ks ++ k ∷ []

abbrev third : {A : Type 0} → ℕ → A → A → A → A
third j x y z = if j % 3 == 0 then x else if j % 3 == 1 then y else z

abbrev shuffle : ℕ → ℕ → List (Case ℕ) → List (Case ℕ)
shuffle j i ks = third j ks (turned ks) (turned (turned ks))

abbrev first : ℕ → Source
first j = third j one two three

shuffled :
    (j : ℕ)
    → (rest : List (Case ℕ)) × (shuffle j 0 (Selects.cases 100) ≡ case_of 100 (first j) ∷ rest)
shuffled j = (
  third j (case_of 100 two ∷ case_of 100 three ∷ []) (case_of 100 three ∷ case_of 100 one ∷ [])
      (case_of 100 one ∷ case_of 100 two ∷ []),
  ground arith,
)

fair : (i : Source) → 5 ≤ count i first 0 15
unfolding count
fair one = omega arith
fair two = omega arith
fair three = omega arith

abbrev senders_sent : List Line
senders_sent =
    (map (sent 1) (values 5 1 0) ++ map (sent 2) (values 5 2 0)) ++ map (sent 3) (values 5 3 0)

select_example-ends_example :
    let o =
      select_example 4 (λ k. k + 10) 100 0 16 shuffle 7 5 (world, ((λ _. channel 5), memory, [])) in
    (z : Net ℕ World) × (ls : List Line) × (o ≡ some (z, senders_sent ++ ls))
    × ((i : Source) → values_of (address i) ls ≡ map some (values 5 (address i) 0))
    × ((i : Source) → (z.chans (address i)).buffer ≡ [])
select_example-ends_example =
    select_example-ends 4 (λ k. k + 10) 100 5 5 (λ k e. omega arith) shuffle first shuffled 0 15 7
      world memory (omega arith) fair

-- The bytes of a name.
abbrev name : List ℕ
name = 84 ∷ 97 ∷ 110 ∷ 103 ∷ []

greet_lem_example :
    let y = greet 4 7 name 2 0 (world, []) in
    (y.1
      ≡ from_goroutine
        ∷ hello name
        ∷ from_lambda 0
        ∷ from_goroutine
        ∷ hello name
        ∷ from_lambda 1
        ∷ [])
    × (Global.pending y.0 ≡ [])
unfolding Global.pending
greet_lem_example = greet_lem 4 7 name 2 0 (world, []) (omega arith)

abbrev unlocked : Deferred.Program
unlocked = record {
  printed = [];
  file_open = false;
  file_lines = 3;
  locked = false;
  shared_data = 8 ∷ [];
}
