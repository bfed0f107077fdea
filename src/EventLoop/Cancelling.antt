-- ===== src/EventLoop/Cancelling.antt =====
-- Which timers fire in src/event_loop.cpp if their callbacks cancel timers.
use tang.Prelude.{
  is_in, ℕ, zero, suc, ◌-◌, ◌/◌, ◌<◌, ◌≡◌, subst, sym, ap, ap₂, ◌∙◌, false, List, [], ◌∷◌, ◌++◌,
  append_assoc, append-nil, leb, ltb, length, if◌then◌else◌, All, Bool-cases, inl, inr, arith,
}
use tang.EventLoop.Defs.{Timer, EventLoop, nanos_per_milli, milliseconds_max}
use tang.EventLoop.Timers.{waiting}
use tang.EventLoop.Callbacks.{erase_all, Swept, swept, call, sweep_with, handle_timers_with}
use tang.EventLoop.Erasing.{
  without, AreDistinct, append-without, waiting-without, without-append, without_none,
  erase_all-without, AreDistinct-without, AreDistinct-left, AreDistinct-right, AreDistinct-drop,
  AreDistinct-thin,
}

-- All that these callbacks cancel.
unfoldable pub cancelled : (ℕ → List ℕ) → List ℕ → List ℕ
cancelled cancels [] = []
cancelled cancels (cb ∷ cbs) = cancels cb ++ cancelled cancels cbs

-- The callbacks to call: of the timers that have run out, but for those that are `gone` or that a
-- callback called before has cancelled.
unfoldable pub firing : (ℕ → List ℕ) → ℕ → List ℕ → List Timer → List ℕ
firing cancels now gone [] = []
firing cancels now gone (t ∷ ts) =
    if is_in t.handle gone
    then firing cancels now gone ts
    else if leb t.expire_time now
    then t.callback ∷ firing cancels now (gone ++ cancels t.callback) ts
    else firing cancels now gone ts

module _ (cancels : ℕ → List ℕ) (now : ℕ) where
  -- No callback of these timers cancels its own timer.
  abbrev pub CancelOthers : List Timer → Type 0
  CancelOthers = All (λ t. is_in t.handle (cancels t.callback) ≡ false)

  abbrev sooner : ℕ → Timer → ℕ
  sooner next t =
      let timeout = (t.expire_time - now) / nanos_per_milli in
      if ltb timeout next then timeout else next

  erased :
      (gone hs : List ℕ) (ts : List Timer)
      → AreDistinct ts
      → erase_all hs (without gone ts) ≡ without (gone ++ hs) ts
  erased gone hs ts d =
      erase_all-without hs (without gone ts) (AreDistinct-without gone ts d)
      ∙ without-append gone hs ts

  left_over :
      (ks gone hs : List ℕ) (seen ts : List Timer)
      → without ks (without hs seen ++ waiting now (without (gone ++ hs) ts))
        ≡ without (hs ++ ks) (seen ++ waiting now (without gone ts))
  left_over ks gone hs seen ts =
      ap (λ us. without ks (without hs seen ++ us))
        (ap (waiting now) (sym (without-append gone hs ts))
          ∙ waiting-without now hs (without gone ts))
      ∙ ap (without ks) (sym (append-without hs seen (waiting now (without gone ts))))
      ∙ without-append hs ks (seen ++ waiting now (without gone ts))

  Fires : List ℕ → List Timer → List Timer → Swept → Type 0
  Fires gone seen ts o =
      let fired = firing cancels now gone ts in
      (next : ℕ) × (o
        ≡ swept (record {
          kept = without (cancelled cancels fired) (seen ++ waiting now (without gone ts));
          fired = fired;
          next_timeout = next;
        }))

  sweep_with-Fires :
      (ts : List Timer) (fuel next : ℕ) (gone : List ℕ) (seen : List Timer)
      → length ts < fuel
      → AreDistinct (seen ++ ts)
      → CancelOthers ts
      → Fires gone seen ts (sweep_with fuel cancels now next seen (without gone ts))
  unfolding Fires sweep_with firing without cancelled
  sweep_with-Fires [] (suc fuel) next gone seen b d o = (
    next,
    ap (λ us. swept (record { kept = us; fired = []; next_timeout = next }))
        (sym (without_none (seen ++ []) ∙ append-nil seen)),
  )
  sweep_with-Fires [] zero next gone seen b d o = absurd (omega arith)
  sweep_with-Fires (t ∷ ts) zero next gone seen b d o = absurd (omega arith)
  sweep_with-Fires (t ∷ ts) (suc fuel) next gone seen b d o =
      elim (Bool-cases (is_in t.handle gone)) [
        | inl e ↦ rw e (
            sweep_with-Fires ts (suc fuel) next gone seen (omega arith)
              (AreDistinct-drop seen ts t d) o.1)
        | inr e ↦ elim (Bool-cases (leb t.expire_time now)) [
          | inl f ↦
              let hs : List ℕ = cancels t.callback in
              let r =
                sweep_with-Fires ts fuel next (gone ++ hs) (without hs seen) (omega arith)
                  (AreDistinct-thin hs seen ts (AreDistinct-drop seen ts t d)) o.1 in
              rw (e, f, o.0)
                (
                  r.0,
                  ap (call t.callback) (
                        ap₂ (sweep_with fuel cancels now next)
                          (erase_all-without hs seen (AreDistinct-left seen (t ∷ ts) d))
                          (erased gone hs ts (AreDistinct-right seen (t ∷ ts) d).1)
                        ∙ r.1)
                      ∙ ap
                          (λ us. swept (record {
                            kept = us;
                            fired = t.callback ∷ firing cancels now (gone ++ hs) ts;
                            next_timeout = r.0;
                          }))
                          (left_over (cancelled cancels (firing cancels now (gone ++ hs) ts)) gone
                            hs seen ts),
                )
          | inr f ↦
              let r =
                sweep_with-Fires ts fuel (sooner next t) gone (seen ++ t ∷ []) (omega arith)
                  (subst AreDistinct (sym (append_assoc seen (t ∷ []) ts)) d) o.1 in
              rw (e, f)
                (
                  r.0,
                  r.1
                      ∙ ap
                          (λ us. swept (record {
                            kept = without (cancelled cancels (firing cancels now gone ts)) us;
                            fired = firing cancels now gone ts;
                            next_timeout = r.0;
                          }))
                          (append_assoc seen (t ∷ []) (waiting now (without gone ts))),
                )
        ]
      ]

  -- A sweep whose callbacks cancel timers, if the timers have handles of their own and no callback
  -- cancels its own timer: the callbacks called are those of the timers that have run out, in the order
  -- of the iteration, but for the timers that a callback called before has cancelled. Kept are the
  -- timers that have not run out and that none of these callbacks has cancelled.
  pub handle_timers_with-Fires :
      (l : EventLoop)
      → AreDistinct l.timers
      → CancelOthers l.timers
      → let fired = firing cancels now [] l.timers in
        (next : ℕ) × (handle_timers_with cancels now l
          ≡ swept (record {
            kept = without (cancelled cancels fired) (waiting now l.timers);
            fired = fired;
            next_timeout = next;
          }))
  unfolding handle_timers_with Fires
  handle_timers_with-Fires l d o =
      let r =
        sweep_with-Fires l.timers (suc (length l.timers)) milliseconds_max [] [] (omega arith) d
          o in
      (
        r.0,
        subst
            (λ us.
              sweep_with (suc (length l.timers)) cancels now milliseconds_max [] us
              ≡ swept (record {
                kept =
                    without (cancelled cancels (firing cancels now [] l.timers)) (waiting now us);
                fired = firing cancels now [] l.timers;
                next_timeout = r.0;
              }))
            (without_none l.timers) r.1,
      )
