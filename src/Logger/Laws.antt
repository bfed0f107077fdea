-- ===== src/Logger/Laws.antt =====
-- What include/tang/logger.h prints, and where.
use tang.Prelude.{
  ℕ, suc, ◌≤◌, ◌<◌, ◌≡◌, refl, ap, ◌⊎◌, inl, inr, true, false, none, some, List, [], ◌∷◌, ◌++◌, leb,
  All, arith, Bool-cases, Option-cases,
}
use tang.Logger.{
  LogLevel, trace_level, debug_level, info_level, warn_level, error_level, rank, Logger, is_slash,
  find_last_of, substr, filename_of, format_message, Console, output_message, log, Loggers,
  set_level,
}

-- No byte of the text is a slash.
abbrev pub NoSlash : List ℕ → Type 0
NoSlash = All λ c. is_slash c ≡ false

find_last_of-none : (cs : List ℕ) → find_last_of cs ≡ none → NoSlash cs
unfolding find_last_of
find_last_of-none [] e = tt
find_last_of-none (c ∷ cs) e = elim (Option-cases (find_last_of cs)) [
  | inl f ↦ (ground arith, find_last_of-none cs f)
  | inr (i, f) ↦ absurd (ground arith)
]

-- The text `file` is `name` behind a slash and whatever stands before that.
abbrev pub IsBehind : List ℕ → List ℕ → Type 0
IsBehind file name =
    (dir : List ℕ) × (sep : ℕ) × (file ≡ dir ++ sep ∷ name) × (is_slash sep ≡ true) × NoSlash name

find_last_of-some :
    (cs : List ℕ) (i : ℕ) → find_last_of cs ≡ some i → IsBehind cs (substr (suc i) cs)
unfolding find_last_of substr
find_last_of-some [] i e = cc
find_last_of-some (c ∷ cs) i e = elim (Option-cases (find_last_of cs)) [
  | inl f ↦ let z : i ≡ 0 = ground arith in rw z ([], c, refl, ground arith, find_last_of-none cs f)
  | inr (j, f) ↦
      let z : i ≡ suc j = ground arith in
      let (dir, sep, e', s, n) = find_last_of-some cs j f in
      rw z (c ∷ dir, sep, ap (◌∷◌ c) e', s, n)
]

-- The file name that a message shows is what stands behind the last slash, `/` or `\`, of the path;
-- a path without one is shown whole.
pub filename_of_lem :
    (file : List ℕ) → (NoSlash file × (filename_of file ≡ file)) ⊎ IsBehind file (filename_of file)
unfolding filename_of
filename_of_lem file = elim (Option-cases (find_last_of file)) [
  | inl e ↦ inl (find_last_of-none file e, rw (e, filename_of))
  | inr (i, e) ↦ inr (rw (e, filename_of) (find_last_of-some file i e))
]

-- The logger of a component.
pub data Component : Type 0 where
  runtime channel task test example : Component

abbrev pub logger_of : Component → Loggers → Logger
logger_of runtime g = g.runtime
logger_of channel g = g.channel
logger_of task g = g.task
logger_of test g = g.test
logger_of example g = g.example

-- What a message of level `m` with the line `text` does to the console.
abbrev pub Prints : LogLevel → List ℕ → Console → Console → Type 0
Prints m text k after =
    ((m ≡ error_level) × (after ≡ record k { cerr = k.cerr ++ text ∷ [] }))
    ⊎ ((rank m < rank error_level) × (after ≡ record k { cout = k.cout ++ text ∷ [] }))

output_message-Prints :
    (m : LogLevel) (text : List ℕ) (k : Console) → Prints m text k (output_message m text k)
unfolding output_message
output_message-Prints trace_level text k = inr (omega arith, refl)
output_message-Prints debug_level text k = inr (omega arith, refl)
output_message-Prints info_level text k = inr (omega arith, refl)
output_message-Prints warn_level text k = inr (omega arith, refl)
output_message-Prints error_level text k = inl (refl, refl)

level-set_level :
    (c : Component) (v : LogLevel) (g : Loggers) → (logger_of c (set_level v g)).level ≡ v
unfolding set_level
level-set_level runtime v g = refl
level-set_level channel v g = refl
level-set_level task v g = refl
level-set_level test v g = refl
level-set_level example v g = refl

le_of_leb : (a b : ℕ) → leb a b ≡ true → a ≤ b
le_of_leb a b h = ground arith

lt_of_leb : (a b : ℕ) → leb a b ≡ false → b < a
lt_of_leb a b h = ground arith

-- After `logger::set_level(v)` a message of level `m` to any of the five loggers is printed as one
-- line if `m` is at least `v`, on `cerr` if it is an error and else on `cout`, and the other stream
-- stays as it was; a message below `v` prints nothing.
log-set_level :
    (c : Component) (v m : LogLevel) (g : Loggers) (k : Console) (timestamp : List ℕ)
    (decimal : ℕ → List ℕ) (message file : List ℕ) (line : ℕ)
    → let l = logger_of c (set_level v g) in
      let text = format_message timestamp decimal m message file line l in
      let after = log timestamp decimal m message file line l k in
      ((rank v ≤ rank m) × Prints m text k after) ⊎ ((rank m < rank v) × (after ≡ k))
unfolding log
log-set_level c v m g k timestamp decimal message file line =
    elim (Bool-cases (leb (rank v) (rank m))) [
      | inl e ↦ inl (
        le_of_leb (rank v) (rank m) e,
        rw (level-set_level c v g, e, log) (output_message-Prints m _ k),
      )
      | inr e ↦ inr (lt_of_leb (rank v) (rank m) e, rw (level-set_level c v g, e, log))
    ]
