-- ===== src/Select/Ops.antt =====
-- `select`, `co_select` and `select_awaiter` of include/tang/select.h. `std::shuffle` is a parameter.
use tang.Prelude.{
  ℕ, zero, suc, ◌+◌, Bool, true, false, Option, none, some, List, [], ◌∷◌, map, if◌then◌else◌,
}
use tang.Channel.Runtime.{Runtime, schedule}
use tang.Select.Defs.{
  CaseType, default_case, Case, Net, type_of, try_ready, try_execute, set_handle,
}

abbrev pub is_default : CaseType → Bool
is_default CaseType.recv = false
is_default CaseType.send = false
is_default default_case = true

module _ {ℓ} {T W : Type ℓ} ⦃rt : Runtime W⦄ where
  -- The loop over the cases that executes the first ready one, whatever `try_execute` answers,
  -- when no other thread comes between `try_ready` and `try_execute`, which each take the mutex.
  unfoldable pub first_ready : List (Case T) → Net T W → Option (Net T W)
  first_ready [] n = none
  first_ready (k ∷ ks) n =
      let rest = first_ready ks n in if try_ready k n then some (try_execute k n).0 else rest

  -- The loop that looks for a default case.
  unfoldable pub first_default : List (Case T) → Net T W → Option (Net T W)
  first_default [] n = none
  first_default (k ∷ ks) n =
      let rest = first_default ks n in
      if is_default (type_of k) then some (try_execute k n).0 else rest

  -- The busy wait. `others i` is what other threads do before the round `i`; `none` means that the
  -- fuel ran out.
  unfoldable pub busy_wait :
      ℕ
      → (ℕ → List (Case T) → List (Case T))
      → (ℕ → Net T W → Net T W)
      → ℕ
      → List (Case T)
      → Net T W
      → Option (Net T W)
  busy_wait zero shuffle others i ks n = none
  busy_wait (suc fuel) shuffle others i ks n =
      let ks' = shuffle i ks in
      let m = others i n in
      elim (first_ready ks' m) [
        | none ↦ busy_wait fuel shuffle others (i + 1) ks' m
        | some r ↦ some r
      ]

  -- `select`. The shuffle `0` is that before the first try.
  unfoldable pub select :
      ℕ
      → (ℕ → List (Case T) → List (Case T))
      → (ℕ → Net T W → Net T W)
      → List (Case T)
      → Net T W
      → Option (Net T W)
  unfolding first_default
  select fuel shuffle others ks n =
      let ks' = shuffle 0 ks in
      elim (first_ready ks' n) [
        | some r ↦ some r
        | none ↦ elim (first_default ks' n) [
          | some r ↦ some r
          | none ↦ busy_wait fuel shuffle others 1 ks' n
        ]
      ]

-- `select_awaiter`: its cases, the handle that waits, and whether it has resumed that.
pub record Awaiter {ℓ} (T : Type ℓ) : Type ℓ where
  pub cases : List (Case T)
  pub handle : Option ℕ
  pub resumed : Bool

module _ {ℓ} {T W : Type ℓ} ⦃rt : Runtime W⦄ where
  unfoldable pub await_ready :
      (List (Case T) → List (Case T)) → Awaiter T → Net T W → Awaiter T × Net T W × Bool
  await_ready shuffle a n =
      let ks = shuffle a.cases in
      elim (first_ready ks n) [
        | some r ↦ (record a { cases = ks }, r, true)
        | none ↦ (record a { cases = ks }, n, false)
      ]

  unfoldable pub await_suspend :
      (List (Case T) → List (Case T)) → ℕ → Awaiter T → Net T W → Awaiter T × Net T W
  await_suspend shuffle h a n =
      let ks = shuffle (map (set_handle (some h)) a.cases) in
      elim (first_ready ks n) [
        | some r ↦ (record { cases = map (set_handle none) ks; handle = some h; resumed = true }, r)
        | none ↦ (record { cases = ks; handle = some h; resumed = a.resumed }, n)
      ]

module _ {ℓ} {T : Type ℓ} where
  unfoldable pub await_resume : Awaiter T → Awaiter T
  await_resume a = record a { cases = map (set_handle none) a.cases }

-- The handle for `schedule`; it is null before `await_suspend`.
unfoldable pub handle_of : Option ℕ → ℕ
handle_of none = 0
handle_of (some h) = h

module _ {ℓ} {T W : Type ℓ} ⦃rt : Runtime W⦄ where
  unfoldable pub wake_up : Case T → Awaiter T → Net T W → Net T W
  unfolding handle_of
  wake_up k a n =
      let m = (try_execute k n).0 in record m { world = schedule (handle_of a.handle) m.world }
