-- ===== src/Select/Blocking.antt =====
-- When `select` of include/tang/select.h returns, and when it waits for ever.
use mathlib.Core.Bool.{Bool-set}
use mathlib.Core.List.{Mem, Perm, mem-cons, mem-cons_self, mem-cons_of_mem, not-mem-nil}
use mathlib.Core.List.Perm
use mathlib.Core.Logic.Or
use tang.Prelude.{
  ℕ, zero, suc, ◌+◌, ◌≡◌, ◌≢◌, refl, inl, inr, true, false, Option, none, some, List, [], ◌∷◌,
  Option-cases, arith,
}
use tang.Channel.Runtime.{Runtime}
use tang.Select.Defs.{
  Action, recv_from, send_to, nothing, Case, Net, type_of, is_ready, try_ready, try_execute,
  execute, execute_callback,
}
use tang.Select.Ops.{first_ready, first_default, busy_wait, select, is_default}

abbrev pub NoDefault {ℓ} : {T : Type ℓ} → List (Case T) → Type ℓ
NoDefault {T} ks = (k : Case T) → Mem k ks → is_default (type_of k) ≡ false

module _ {ℓ} {T W : Type ℓ} ⦃rt : Runtime W⦄ where
  -- A default case is always ready.
  default_ready :
      (a : Action T) (f h : Option ℕ) (n : Net T W)
      → is_default (type_of (record { action = a; callback = f; handle = h })) ≡ true
      → is_ready a n ≡ true
  unfolding is_ready
  default_ready (recv_from c p) f h n e = cc
  default_ready (send_to c v) f h n e = cc
  default_ready nothing f h n e = refl

  first_ready-none :
      (ks : List (Case T)) (n : Net T W) (k : Case T)
      → first_ready ks n ≡ none
      → Mem k ks
      → try_ready k n ≡ false
  unfolding first_ready
  first_ready-none [] n k e m = absurd (not-mem-nil m)
  first_ready-none (j ∷ ks) n k e m =
      Or.elim (Bool-set _ _) (mem-cons.0 m) (λ same. rw same (ground arith))
        (λ more. first_ready-none ks n k (ground arith) more)

  pub first_ready_unready :
      (ks : List (Case T)) (n : Net T W)
      → ((k : Case T) → Mem k ks → try_ready k n ≡ false)
      → first_ready ks n ≡ none
  unfolding first_ready
  first_ready_unready [] n u = refl
  first_ready_unready (k ∷ ks) n u =
      rw (u k mem-cons_self) (first_ready_unready ks n (λ j m. u j (mem-cons_of_mem k m)))

  first_default-none :
      (ks : List (Case T)) (n : Net T W)
      → ((k : Case T) → Mem k ks → is_default (type_of k) ≡ false)
      → first_default ks n ≡ none
  unfolding first_default
  first_default-none [] n u = refl
  first_default-none (k ∷ ks) n u =
      rw (u k mem-cons_self) (first_default-none ks n (λ j m. u j (mem-cons_of_mem k m)))

  -- With a default case among its cases `select` returns, whatever the shuffle and the state of the
  -- channels are, before any busy waiting: it needs no fuel.
  pub select_default :
      (shuffle : ℕ → List (Case T) → List (Case T)) (others : ℕ → Net T W → Net T W)
      (ks : List (Case T)) (n : Net T W) (k : Case T)
      → Perm (shuffle 0 ks) ks
      → Mem k ks
      → is_default (type_of k) ≡ true
      → select 0 shuffle others ks n ≢ none
  unfolding select try_ready
  select_default shuffle others ks n k perm m d e =
      elim (Option-cases (first_ready (shuffle 0 ks) n)) [
        | inl nothing_ ↦
            let ready = default_ready k.action k.callback k.handle n d in
            let not_ready =
              first_ready-none (shuffle 0 ks) n k nothing_ ((Perm.mem_iff perm).1 m) in
            cc
        | inr (r, some_) ↦ ground arith
      ]

  -- A default case that comes first in the shuffled order is taken, however many cases behind it are
  -- ready.
  pub default_first :
      (fuel : ℕ) (shuffle : ℕ → List (Case T) → List (Case T)) (others : ℕ → Net T W → Net T W)
      (ks js : List (Case T)) (n : Net T W) (f h : Option ℕ)
      → shuffle 0 ks ≡ record { action = nothing; callback = f; handle = h } ∷ js
      → select fuel shuffle others ks n ≡ some (execute_callback f n)
  unfolding select first_ready try_ready is_ready try_execute execute
  default_first fuel shuffle others ks js n f h e = rw (e, select)

  -- Every channel is open, unbuffered and, as all unbuffered ones are, without buffered values.
  abbrev pub AllUnbuffered : Net T W → Type ℓ
  AllUnbuffered n =
      (c : ℕ)
      → ((n.chans c).capacity ≡ 0) × ((n.chans c).buffer ≡ []) × ((n.chans c).closed ≡ false)

  unbuffered_unready :
      (a : Action T) (f h : Option ℕ) (n : Net T W)
      → AllUnbuffered n
      → is_default (type_of (record { action = a; callback = f; handle = h })) ≡ false
      → is_ready a n ≡ false
  unfolding is_ready
  unbuffered_unready (recv_from c p) f h n u e = ground (arith, u c)
  unbuffered_unready (send_to c v) f h n u e = ground (arith, u c)
  unbuffered_unready nothing f h n u e = cc

  unready_all :
      (ks : List (Case T)) (n : Net T W) → AllUnbuffered n → NoDefault ks → first_ready ks n ≡ none
  unfolding try_ready
  unready_all ks n u d =
      first_ready_unready ks n (λ k m. unbuffered_unready k.action k.callback k.handle n u (d k m))

  busy_wait_starves :
      (fuel i : ℕ) (shuffle : ℕ → List (Case T) → List (Case T)) (others : ℕ → Net T W → Net T W)
      (ks : List (Case T)) (n : Net T W)
      → ((j : ℕ) (js : List (Case T)) → Perm (shuffle j js) js)
      → ((j : ℕ) (m : Net T W) → AllUnbuffered m → AllUnbuffered (others j m))
      → NoDefault ks
      → AllUnbuffered n
      → busy_wait fuel shuffle others i ks n ≡ none
  unfolding busy_wait
  busy_wait_starves zero i shuffle others ks n perm keep d u = refl
  busy_wait_starves (suc fuel) i shuffle others ks n perm keep d u =
      let d' = λ (k : Case T) (m : Mem k (shuffle i ks)). d k ((Perm.mem_iff (perm i ks)).0 m) in
      rw (unready_all (shuffle i ks) (others i n) (keep i n u) d', busy_wait)
        (busy_wait_starves fuel (i + 1) shuffle others (shuffle i ks) (others i n) perm keep d'
          (keep i n u))

  -- On open unbuffered channels a `select` with no default case never returns, however long it waits
  -- and whoever waits on the other side: it runs out of any fuel. The shuffles permute, and the other
  -- threads keep the channels open.
  pub select_starves :
      (fuel : ℕ) (shuffle : ℕ → List (Case T) → List (Case T)) (others : ℕ → Net T W → Net T W)
      (ks : List (Case T)) (n : Net T W)
      → ((j : ℕ) (js : List (Case T)) → Perm (shuffle j js) js)
      → ((j : ℕ) (m : Net T W) → AllUnbuffered m → AllUnbuffered (others j m))
      → NoDefault ks
      → AllUnbuffered n
      → select fuel shuffle others ks n ≡ none
  unfolding select
  select_starves fuel shuffle others ks n perm keep d u =
      let d' = λ (k : Case T) (m : Mem k (shuffle 0 ks)). d k ((Perm.mem_iff (perm 0 ks)).0 m) in
      rw (unready_all (shuffle 0 ks) n u d', select)
        (rw (first_default-none (shuffle 0 ks) n d', select)
          (busy_wait_starves fuel 1 shuffle others (shuffle 0 ks) n perm keep d' u))
