-- ===== src/Examples/Loops.antt =====
-- The loops of the senders and of the receivers in examples/channel_example.cpp.
use tang.Prelude.{
  ℕ, zero, suc, ◌+◌, ◌-◌, ◌*◌, ◌≡◌, ◌≢◌, refl, sym, ap, ap₂, ◌∙◌, Bool, false, Option, none, some,
  List, [], ◌∷◌, ◌++◌, map, length, length-append, append-nil, append_assoc, take, drop, take_none,
  take_nil, take_some, take-append, drop_one, le_cases, arith, inl, inr, update_self,
}
use tang.Channel.Runtime.{Runtime}
use tang.Channel.Defs.{Channel, Store, State}
use tang.Channel.Ops.{send_operator, try_send, send_open, recv_operator, try_recv, recv_front}
use tang.Channel.Operators.{World, runtime, begun, send_task-effect, recv_task-effect}
use tang.Task.Defs.{Awaited, returned}
use tang.Examples.Channels.{sent, received, written, push, pull, sender, receiver}

-- What a sender sends, and what a receiver finds, once it finds no value `none`.
abbrev pub values : ℕ → ℕ → ℕ → List ℕ
values zero id i = []
values (suc n) id i = (id * 100 + i) ∷ values n id (i + 1)

abbrev pub found : ℕ → List ℕ → List (Option ℕ)
found zero vs = []
found (suc n) [] = none ∷ found n []
found (suc n) (v ∷ vs) = some v ∷ found n vs

-- What fits into the channel.
abbrev pub fitting : Channel ℕ → List ℕ → List ℕ
fitting c vs = take (c.capacity - length c.buffer) vs

abbrev pub filled : List ℕ → Channel ℕ → Channel ℕ
filled vs c = record c { buffer = c.buffer ++ fitting c vs }

pub filled-filled : (c : Channel ℕ) (us vs : List ℕ) → filled vs (filled us c) ≡ filled (us ++ vs) c
filled-filled c us vs =
    ap (λ ws. record c { buffer = ws })
      (append_assoc c.buffer (fitting c us) _
        ∙ ap (λ k. c.buffer ++ (fitting c us ++ take k vs))
            (omega (arith, length-append c.buffer (fitting c us)))
        ∙ ap (λ ws. c.buffer ++ ws) (take-append (c.capacity - length c.buffer) us vs))

filled_nil : (c : Channel ℕ) → filled [] c ≡ c
filled_nil c =
    ap (λ vs. record c { buffer = vs })
      (ap (λ vs. c.buffer ++ vs) (take_nil (c.capacity - length c.buffer)) ∙ append-nil c.buffer)

found_more :
    (m : ℕ) (x : Option ℕ) (vs : List ℕ)
    → found 1 vs ≡ x ∷ []
    → x ∷ found m (drop 1 vs) ≡ found (suc m) vs
found_more m x [] e = ground arith
found_more m x (v ∷ vs) e = ground arith

-- The channel is open, and nobody waits on it.
pub record IsFree (c : Channel ℕ) : Type 0 where
  pub is_open : c.closed ≡ false
  pub no_senders : c.send_waiters ≡ []
  pub no_receivers : c.recv_waiters ≡ []

pub IsFree-buffer :
    (c d : Channel ℕ) (bs : List ℕ) → d ≡ record c { buffer = bs } → IsFree c → IsFree d
IsFree-buffer c d bs e f =
    rw e (record { is_open = f.is_open; no_senders = f.no_senders; no_receivers = f.no_receivers })

module _ {W : Type 0} ⦃rt : Runtime W⦄ where
  send-filled :
      (v : ℕ) (s : State ℕ W) → IsFree s.chan → (send_operator v s).0.chan ≡ filled (v ∷ []) s.chan
  unfolding send_operator try_send send_open
  send-filled v s f = elim (le_cases s.capacity (length s.buffer)) [
    | inl full ↦ ground (
      arith,
      append-nil s.buffer,
      take_none (s.capacity - length s.buffer) (v ∷ []) (omega arith),
    )
    | inr room ↦
        let k : ℕ = s.capacity - length s.buffer - 1 in
        ground
          (arith, take_some (s.capacity - length s.buffer) k v [] (omega arith), take_nil {A = ℕ} k)
  ]

  recv-front :
      (p : ℕ) (vs : List ℕ) (s : State ℕ W)
      → IsFree s.chan
      → s.buffer ≡ vs
      → let r = recv_operator p s in
        (r.0.chan ≡ record s.chan { buffer = drop 1 vs })
        × (found 1 vs ≡ written (r.0.cell p) (returned r.1) ∷ [])
  unfolding recv_operator try_recv recv_front
  recv-front p [] s f e = (ground arith, ground arith)
  recv-front p (v ∷ vs) s f e = (ground arith, ground (arith, update_self s.cell p v))

module _ (hardware : ℕ) (frame : ℕ → ℕ) (p : ℕ) (live : (k : ℕ) → frame k ≢ 0) where
  push-filled :
      (k v : ℕ) (s : State ℕ World)
      → IsFree s.chan
      → (push hardware frame p k v s).chan ≡ filled (v ∷ []) s.chan
  unfolding push
  push-filled k v s f =
      (send_task-effect hardware (frame k) v s (live k)).0
      ∙ send-filled ⦃rt = runtime hardware⦄ v (begun (frame k) s) f

  pull-front :
      (k : ℕ) (s : State ℕ World)
      → IsFree s.chan
      → ((pull hardware frame p k s).0.chan ≡ record s.chan { buffer = drop 1 s.buffer })
        × (found 1 s.buffer ≡ (pull hardware frame p k s).1 ∷ [])
  unfolding pull
  pull-front k s f =
      let e = recv_task-effect hardware (frame k) p s (live k) in
      let r = recv-front ⦃rt = runtime hardware⦄ p s.buffer (begun (frame k) s) f refl in
      (
        e.1 ∙ r.0,
        r.1
            ∙ ap₂ (λ x (w : Awaited Bool). written x w ∷ [])
                (ap (λ (m : Store ℕ). m.cell p) (sym e.2)) (sym e.0),
      )

  pub sender-filled :
      (n id i : ℕ) (s : State ℕ World)
      → IsFree s.chan
      → let r = sender hardware frame p n id i s in
        (r.0.chan ≡ filled (values n id i) s.chan) × (r.1 ≡ map (sent id) (values n id i))
  unfolding sender
  sender-filled zero id i s f = (sym (filled_nil s.chan), refl)
  sender-filled (suc n) id i s f =
      let v : ℕ = id * 100 + i in
      let w = push hardware frame p i v s in
      let one = push-filled i v s f in
      let rest = sender-filled n id (i + 1) w (IsFree-buffer s.chan w.chan _ one f) in
      (
        rest.0 ∙ ap (filled (values n id (i + 1))) one ∙ filled-filled s.chan (v ∷ []) _,
        ap (λ ls. sent id v ∷ ls) rest.1,
      )

  pub receiver-found :
      (m id i : ℕ) (s : State ℕ World)
      → IsFree s.chan
      → let r = receiver hardware frame p m id i s in
        (r.0.chan ≡ record s.chan { buffer = drop m s.buffer })
        × (r.1 ≡ map (received id) (found m s.buffer))
  unfolding receiver
  receiver-found zero id i s f = (refl, refl)
  receiver-found (suc m) id i s f =
      let w = pull hardware frame p i s in
      let one = pull-front i s f in
      let rest = receiver-found m id (i + 1) w.0 (IsFree-buffer s.chan w.0.chan _ one.0 f) in
      (
        rest.0
            ∙ ap (λ (c : Channel ℕ). record c { buffer = drop m c.buffer }) one.0
            ∙ ap (λ vs. record (s.chan) { buffer = vs }) (drop_one m s.buffer),
        ap (λ ls. received id w.1 ∷ ls)
              (rest.1 ∙ ap (λ (c : Channel ℕ). map (received id) (found m c.buffer)) one.0)
            ∙ ap (map (received id)) (found_more m w.1 s.buffer one.1),
      )
