-- ===== src/Defer.antt =====
-- include/tang/defer.h: `defer_guard`, and the scope that `defer … end_defer` puts it into.
use mathlib.Core.List.{reverse, reverse-cons}
use tang.Prelude.{
  ℕ, ◌≡◌, refl, sym, ap, ◌∙◌, Option, none, some, List, [], ◌∷◌, ◌++◌, map, append-nil,
  append_assoc,
}

-- `func_`: the function to call, or empty.
pub record DeferGuard : Type 0 where
  pub func : Option ℕ

unfoldable pub defer_guard : ℕ → DeferGuard
defer_guard f = record { func = some f }

-- `defer_guard(defer_guard&& other)`: the new guard and what is left of the other.
unfoldable pub move : DeferGuard → DeferGuard × DeferGuard
move other = (record { func = other.func }, record { func = none })

-- The destructor, over the functions called so far.
unfoldable pub destroy : DeferGuard → List ℕ → List ℕ
destroy g called = elim (g.func) [ none ↦ called | some f ↦ called ++ f ∷ [] ]

-- The end of a scope with these guards, in the order of their declaration: C++ destroys them in the
-- reverse order.
unfoldable pub end_scope : List DeferGuard → List ℕ → List ℕ
unfolding destroy
end_scope [] called = called
end_scope (g ∷ gs) called = destroy g (end_scope gs called)

-- However the scope is left, its deferred functions are called once each, the last one first.
pub end_scope-reverse :
    (fs called : List ℕ) → end_scope (map defer_guard fs) called ≡ called ++ reverse fs
unfolding end_scope defer_guard
end_scope-reverse [] called = sym (append-nil called)
end_scope-reverse (f ∷ fs) called =
    ap (λ cs. cs ++ f ∷ []) (end_scope-reverse fs called)
    ∙ append_assoc called (reverse fs) (f ∷ [])
    ∙ ap (λ cs. called ++ cs) (sym (reverse-cons f fs))

end_scope-append :
    (gs hs : List DeferGuard) (called : List ℕ)
    → end_scope (gs ++ hs) called ≡ end_scope gs (end_scope hs called)
unfolding end_scope
end_scope-append [] hs called = refl
end_scope-append (g ∷ gs) hs called = ap (destroy g) (end_scope-append gs hs called)

-- A guard that was moved within a scope calls its function once, at the place of the new guard: what
-- is left of the old guard, wherever it stands before that, calls nothing.
pub end_scope-move :
    (g : DeferGuard) (gs hs ks : List DeferGuard) (called : List ℕ)
    → end_scope (gs ++ ((move g).1 ∷ (hs ++ ((move g).0 ∷ ks)))) called
      ≡ end_scope (gs ++ (hs ++ (g ∷ ks))) called
unfolding move end_scope
end_scope-move g gs hs ks called =
    end_scope-append gs ((move g).1 ∷ (hs ++ ((move g).0 ∷ ks))) called
    ∙ sym (end_scope-append gs (hs ++ (g ∷ ks)) called)
