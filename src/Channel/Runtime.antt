-- ===== src/Channel/Runtime.antt =====
-- What the channels use of the runtime: `runtime::schedule`, forward-declared in channel.h.
use tang.Prelude.{
  ℕ, ◌≡◌, refl, sym, ap, ◌∙◌, Bool, true, false, List, [], ◌∷◌, ◌++◌, append-nil, append_assoc, All,
}

-- A runtime over the state `W`: the queued handles, which handles can be queued, and the laws of
-- `schedule`, which appends a live handle and ignores any other.
pub record Runtime {ℓ} (W : Type ℓ) : Type ℓ where
  pub enqueue : ℕ → W → W
  pub pending : W → List ℕ
  pub is_live : W → ℕ → Bool
  pub pending-enqueue :
      (h : ℕ) (w : W) → is_live w h ≡ true → pending (enqueue h w) ≡ pending w ++ h ∷ []
  pub enqueue_dead : (h : ℕ) (w : W) → is_live w h ≡ false → enqueue h w ≡ w
  pub is_live-enqueue : (h k : ℕ) (w : W) → is_live (enqueue h w) k ≡ is_live w k

module _ {ℓ} {W : Type ℓ} ⦃rt : Runtime W⦄ where
  abbrev pub schedule : ℕ → W → W
  schedule = rt.enqueue

  unfoldable pub schedule_all : List ℕ → W → W
  schedule_all [] w = w
  schedule_all (h ∷ hs) w = schedule_all hs (schedule h w)

  -- Every handle is one that the runtime can queue.
  abbrev pub AllLive : W → List ℕ → Type 0
  AllLive w = All λ h. rt.is_live w h ≡ true

  pub AllLive-enqueue : (h : ℕ) (w : W) (hs : List ℕ) → AllLive w hs → AllLive (schedule h w) hs
  AllLive-enqueue h w [] l = tt
  AllLive-enqueue h w (k ∷ hs) l = (rt.is_live-enqueue h k w ∙ l.0, AllLive-enqueue h w hs l.1)

  pub schedule_all-append :
      (hs ks : List ℕ) (w : W) → schedule_all (hs ++ ks) w ≡ schedule_all ks (schedule_all hs w)
  unfolding schedule_all
  schedule_all-append [] ks w = refl
  schedule_all-append (h ∷ hs) ks w = schedule_all-append hs ks (schedule h w)

  -- Live handles are queued once each, in order, behind those that were queued before.
  pub pending-schedule_all :
      (hs : List ℕ) (w : W) → AllLive w hs → rt.pending (schedule_all hs w) ≡ rt.pending w ++ hs
  unfolding schedule_all
  pending-schedule_all [] w l = sym (append-nil _)
  pending-schedule_all (h ∷ hs) w l =
      pending-schedule_all hs (schedule h w) (AllLive-enqueue h w hs l.1)
      ∙ ap (λ p. p ++ hs) (rt.pending-enqueue h w l.0)
      ∙ append_assoc (rt.pending w) (h ∷ []) hs
