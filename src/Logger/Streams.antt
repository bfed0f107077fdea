-- ===== src/Logger/Streams.antt =====
-- `LogStream` of include/tang/logger.h, and the macro that describes a coroutine handle.
use tang.Prelude.{
  ℕ, ◌≡◌, sym, ap, ◌∙◌, Bool, List, [], ◌∷◌, ◌++◌, append-nil, append_assoc, ◌==◌, if◌then◌else◌,
}
use tang.Logger.{LogLevel, Logger, Console, codes, log}

-- A stream for one message, to a logger that it refers to; `ss` is the text so far.
pub record LogStream : Type 0 where
  pub level : LogLevel
  pub ss : List ℕ
  pub file : List ℕ
  pub line : ℕ

-- `trace_stream`, `debug_stream`, `info_stream`, `warn_stream` and `error_stream`, each with its level.
abbrev pub stream : LogLevel → List ℕ → ℕ → LogStream
stream m file line = record { level = m; ss = []; file = file; line = line }

-- `operator<<` of a value, as the text that it is printed as.
unfoldable pub put : List ℕ → LogStream → LogStream
put text s = record s { ss = s.ss ++ text }

unfoldable pub put_all : List (List ℕ) → LogStream → LogStream
put_all [] s = s
put_all (text ∷ texts) s = put_all texts (put text s)

-- The destructor, when the logger is `l`.
unfoldable pub finish : List ℕ → (ℕ → List ℕ) → LogStream → Logger → Console → Console
finish timestamp decimal s l k = log timestamp decimal s.level s.ss s.file s.line l k

-- The message of `LOG_TRACE_FUNC_HANDLE` in a function `name`, about the handle `h`.
unfoldable pub describe_handle : List ℕ → ℕ → (ℕ → Bool) → List ℕ
describe_handle name h done =
    name
    ++ codes " - handle: "
    ++ (if h == 0 then codes "null" else codes "valid")
    ++ codes ", done: "
    ++ (if h == 0 then codes "N/A" else if done h then codes "true" else codes "false")

abbrev pub joined : List (List ℕ) → List ℕ
joined [] = []
joined (text ∷ texts) = text ++ joined texts

put_all_lem :
    (texts : List (List ℕ)) (s : LogStream)
    → put_all texts s ≡ record s { ss = s.ss ++ joined texts }
unfolding put_all put
put_all_lem [] s = ap (λ t. record s { ss = t }) (sym (append-nil s.ss))
put_all_lem (text ∷ texts) s =
    put_all_lem texts (put text s)
    ∙ ap (λ t. record s { ss = t }) (append_assoc s.ss text (joined texts))

-- A message that is streamed in pieces, of any level and to any logger, is printed, or not, exactly as
-- if it had been passed to the method of that level in one piece.
finish-put_all :
    (m : LogLevel) (texts : List (List ℕ)) (l : Logger) (k : Console) (timestamp : List ℕ)
    (decimal : ℕ → List ℕ) (file : List ℕ) (line : ℕ)
    → finish timestamp decimal (put_all texts (stream m file line)) l k
      ≡ log timestamp decimal m (joined texts) file line l k
unfolding finish
finish-put_all m texts l k timestamp decimal file line =
    ap (λ s. finish timestamp decimal s l k) (put_all_lem texts (stream m file line))
