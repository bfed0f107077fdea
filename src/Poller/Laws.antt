-- ===== src/Poller/Laws.antt =====
-- The poller's table against the kernel's, for src/event_poller_linux.cpp.
use tang.Prelude.{
  ℕ, ◌≡◌, Option, none, some, arith, ◌==◌, if◌then◌else◌, Bool-cases, Option-cases, inl, inr,
}
use tang.Poller.Events.{to_epoll_events}
use tang.Poller.Defs.{
  Epoll, Poller, put, invalid, register_event, modify_event, delete_event, modify_found,
  delete_found,
}

-- Two tables have entries for the same descriptors.
abbrev pub SameKeys : (ℕ → Option ℕ) → (ℕ → Option ℕ) → Type 0
SameKeys f g = (fd : ℕ) → (f fd ≡ none → g fd ≡ none) × (g fd ≡ none → f fd ≡ none)

SameKeys-put :
    (f g g' : ℕ → Option ℕ) (fd s t : ℕ)
    → SameKeys f g
    → ((j : ℕ) → g' j ≡ (if fd == j then some t else g j))
    → SameKeys (put f fd (some s)) g'
SameKeys-put f g g' fd s t k e j = ground (arith, k j, e j)

SameKeys-replaced :
    (f g g' : ℕ → Option ℕ) (fd s t : ℕ)
    → f fd ≡ some s
    → SameKeys f g
    → ((j : ℕ) → g' j ≡ (if fd == j then some t else g j))
    → SameKeys f g'
SameKeys-replaced f g g' fd s t h k e j = ground (arith, k j, e j)

SameKeys-removed :
    (f g g' : ℕ → Option ℕ) (fd : ℕ)
    → SameKeys f g
    → ((j : ℕ) → g' j ≡ (if fd == j then none else g j))
    → SameKeys (put f fd none) g'
SameKeys-removed f g g' fd k e j = ground (arith, k j, e j)

-- The kernel watches exactly the descriptors that the table has a source for.
abbrev pub InSync : {K : Type 0} → Epoll K → Poller K → Type 0
InSync os p = SameKeys p.fd_to_source (os.watched p.kernel)

module _ {K : Type 0} (os : Epoll K) (get_handle : ℕ → ℕ) where
  -- Registering keeps the table in step with the kernel, whether it succeeds or not.
  pub register_event-InSync :
      (source events : ℕ) (p : Poller K)
      → InSync os p
      → InSync os (register_event os get_handle source events p).0
  unfolding register_event
  register_event-InSync source events p s =
      let fd = get_handle source in
      let flags = to_epoll_events events in
      elim (Bool-cases (invalid os get_handle source p)) [
        | inl bad ↦ rw (bad, register_event) s
        | inr good ↦ elim (Bool-cases (os.ctl_add fd flags p.kernel).1) [
          | inl e ↦
              rw (good, register_event)
                (rw e (
                  SameKeys-put p.fd_to_source _ _ fd source flags s
                    (os.added fd flags p.kernel e).1))
          | inr e ↦ rw (good, register_event) (rw (e, os.not_added fd flags p.kernel e) s)
        ]
      ]

  pub modify_event-InSync :
      (source events : ℕ) (p : Poller K)
      → InSync os p
      → InSync os (modify_event os get_handle source events p).0
  unfolding modify_event
  modify_event-InSync source events p s =
      let fd = get_handle source in
      let flags = to_epoll_events events in
      elim (Bool-cases (invalid os get_handle source p)) [
        | inl bad ↦ rw (bad, modify_event) s
        | inr good ↦ elim (Option-cases (p.fd_to_source fd)) [
          | inl missing ↦ rw (good, modify_event) (rw (missing, modify_found) s)
          | inr (old, found) ↦ elim (Bool-cases (os.ctl_mod fd flags p.kernel).1) [
            | inl e ↦
                rw (good, modify_event)
                  (rw (found, modify_found)
                    (SameKeys-replaced p.fd_to_source _ _ fd old flags found s
                      (os.modified fd flags p.kernel e).1))
            | inr e ↦
                rw (good, modify_event)
                  (rw (found, modify_found) (rw (os.not_modified fd flags p.kernel e) s))
          ]
        ]
      ]

  pub delete_event-InSync :
      (source : ℕ) (p : Poller K) → InSync os p → InSync os (delete_event os get_handle source p).0
  unfolding delete_event
  delete_event-InSync source p s =
      let fd = get_handle source in
      elim (Bool-cases (invalid os get_handle source p)) [
        | inl bad ↦ rw (bad, delete_event) s
        | inr good ↦ elim (Option-cases (p.fd_to_source fd)) [
          | inl missing ↦ rw (good, delete_event) (rw (missing, delete_found) s)
          | inr (old, found) ↦ elim (Bool-cases (os.ctl_del fd p.kernel).1) [
            | inl e ↦
                rw (good, delete_event)
                  (rw (found, delete_found)
                    (rw e (SameKeys-removed p.fd_to_source _ _ fd s (os.deleted fd p.kernel e))))
            | inr e ↦
                rw (good, delete_event)
                  (rw (found, delete_found) (rw (e, os.not_deleted fd p.kernel e) s))
          ]
        ]
      ]
