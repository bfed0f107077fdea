-- ===== src/Examples/Deferred.antt =====
-- The functions of examples/defer_example.cpp.
use mathlib.Core.List.{reverse}
use tang.Prelude.{
  ℕ, ◌+◌, ◌≡◌, ap, Bool, true, false, Option, none, some, List, [], ◌∷◌, ◌++◌, length, map, foldl,
  ◌==◌, if◌then◌else◌,
}
use tang.Defer.{defer_guard, end_scope, end_scope-reverse}

-- The functions, and the lines that they print. `executed f` is the line of the deferred block `f`.
pub data Part : Type 0 where
  simple_defer multiple_defer file_defer mutex_defer exception_defer goroutine : Part

pub data Line : Type 0 where
  entering doing_work exiting : Part → Line
  executed : ℕ → Line
  failed_to_open operations_completed caught : Line
  data_modified : ℕ → Line

-- What the functions act on: what was printed, the file with its lines, and the two static variables.
pub record Program : Type 0 where
  pub printed : List Line
  pub file_open : Bool
  pub file_lines : ℕ
  pub locked : Bool
  pub shared_data : List ℕ

abbrev pub print : Line → Program → Program
print l s = record s { printed = s.printed ++ l ∷ [] }

-- The deferred blocks by number: 0 is that of `simple_defer`, 1 to 3 those of `multiple_defer`, and 4 to
-- 7 those of the file, of the mutex, of the exception, and of the coroutine.
unfoldable pub perform : Program → ℕ → Program
perform s f =
    if f == 4
    then if s.file_open then print (executed 4) (record s { file_open = false }) else s
    else if f == 5
    then print (executed 5) (record s { locked = false })
    else print (executed f) s

-- The end of a scope with these blocks, by a return or by an exception.
unfoldable pub leave : List ℕ → Program → Program
leave fs s = foldl perform s (end_scope (map defer_guard fs) [])

unfoldable pub run_simple : Program → Program
run_simple s = leave (0 ∷ []) (print (doing_work simple_defer) (print (entering simple_defer) s))

unfoldable pub run_multiple : Program → Program
run_multiple s =
    leave (1 ∷ 2 ∷ 3 ∷ []) (print (doing_work multiple_defer) (print (entering multiple_defer) s))

-- `opened` says whether the file could be opened.
unfoldable pub run_file : Bool → Program → Program
run_file opened s =
    let t = record (print (entering file_defer) s) { file_open = opened } in
    if opened
    then leave (4 ∷ []) (print operations_completed (record t { file_lines = t.file_lines + 2 }))
    else print failed_to_open t

-- `none` if the mutex is locked already, so that `lock` does not return.
unfoldable pub run_mutex : Program → Option Program
run_mutex s =
    let t = print (entering mutex_defer) s in
    let u = record t { locked = true; shared_data = t.shared_data ++ (42 ∷ 100 ∷ 200 ∷ []) } in
    if t.locked
    then none
    else some (leave (5 ∷ []) (print (data_modified (length u.shared_data)) u))

-- The exception leaves the `try` block, whose scope ends before the handler runs.
unfoldable pub run_exception : Program → Program
run_exception s = print (exiting exception_defer) (
    print caught
      (leave (6 ∷ []) (print (doing_work exception_defer) (print (entering exception_defer) s))))

unfoldable pub run_goroutine : Program → Program
run_goroutine s =
    leave (7 ∷ [])
      (print (exiting goroutine) (print (doing_work goroutine) (print (entering goroutine) s)))

-- The blocks of a scope run once each, the last one first.
leave-reverse : (fs : List ℕ) (s : Program) → leave fs s ≡ foldl perform s (reverse fs)
unfolding leave
leave-reverse fs s = ap (foldl perform s) (end_scope-reverse fs [])
