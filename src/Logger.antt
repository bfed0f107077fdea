-- ===== src/Logger.antt =====
-- include/tang/logger.h and src/logger.cpp. Texts are lists of bytes; the time stamp and the decimal
-- print of a line number come from the C++ library and are parameters.
pub mod Laws
pub mod Streams
use Prim.Native.Char.{code}
use Prim.Native.String.{String}
use tang.Prelude.{
  ℕ, zero, suc, ◌+◌, ◌≤◌, ◌<◌, ◌≡◌, refl, ap, ◌∙◌, ◌⊎◌, inl, inr, Bool, true, false, ◌||◌, Option,
  none, some, List, [], ◌∷◌, ◌++◌, map, leb, ltb, ◌==◌, if◌then◌else◌, All, arith, Bool-cases,
  Option-cases, append-nil,
}

-- `LogLevel`.
pub data LogLevel : Type 0 where
  trace_level debug_level info_level warn_level error_level : LogLevel

-- `static_cast<int>`.
abbrev pub rank : LogLevel → ℕ
rank trace_level = 0
rank debug_level = 1
rank info_level = 2
rank warn_level = 3
rank error_level = 4

abbrev pub codes : String → List ℕ
codes String.[] = []
codes (String.◌∷◌ c s) = code c ∷ codes s

unfoldable pub get_level_string : LogLevel → List ℕ
get_level_string trace_level = codes "TRACE"
get_level_string debug_level = codes "DEBUG"
get_level_string info_level = codes "INFO"
get_level_string warn_level = codes "WARN"
get_level_string error_level = codes "ERROR"

pub record Logger : Type 0 where
  pub module_name : List ℕ
  pub level : LogLevel

unfoldable pub should_log : LogLevel → Logger → Bool
should_log message_level l = leb (rank l.level) (rank message_level)

-- `/` and `\`.
abbrev pub is_slash : ℕ → Bool
is_slash c = c == 0x2f || c == 0x5c

-- `file.find_last_of("/\\")`; `none` is `npos`.
unfoldable pub find_last_of : List ℕ → Option ℕ
find_last_of [] = none
find_last_of (c ∷ cs) = elim (find_last_of cs) [
  | some i ↦ some (suc i)
  | none ↦ if is_slash c then some 0 else none
]

-- `file.substr(n)`.
unfoldable pub substr : ℕ → List ℕ → List ℕ
substr zero cs = cs
substr (suc n) [] = []
substr (suc n) (c ∷ cs) = substr n cs

-- The start of `format_message`.
unfoldable pub filename_of : List ℕ → List ℕ
unfolding find_last_of substr
filename_of file = elim (find_last_of file) [ none ↦ file | some i ↦ substr (suc i) file ]

abbrev bracket : List ℕ → List ℕ
bracket cs = codes "[" ++ cs ++ codes "]"

unfoldable pub format_message :
    List ℕ → (ℕ → List ℕ) → LogLevel → List ℕ → List ℕ → ℕ → Logger → List ℕ
unfolding filename_of get_level_string
format_message timestamp decimal message_level message file line l =
    bracket timestamp
    ++ bracket (get_level_string message_level)
    ++ bracket l.module_name
    ++ bracket (filename_of file ++ codes ":" ++ decimal line)
    ++ codes " "
    ++ message

-- The lines written so far to the two streams.
pub record Console : Type 0 where
  pub cout : List (List ℕ)
  pub cerr : List (List ℕ)

unfoldable pub output_message : LogLevel → List ℕ → Console → Console
output_message error_level text k = record k { cerr = k.cerr ++ text ∷ [] }
output_message m text k = record k { cout = k.cout ++ text ∷ [] }

-- `trace`, `debug`, `info`, `warn` and `error`, each with its level, and the end of a `LogStream`.
unfoldable pub log :
    List ℕ → (ℕ → List ℕ) → LogLevel → List ℕ → List ℕ → ℕ → Logger → Console → Console
unfolding should_log
log timestamp decimal message_level message file line l k =
    if should_log message_level l
    then output_message message_level
        (format_message timestamp decimal message_level message file line l) k
    else k

-- The five global loggers.
pub record Loggers : Type 0 where
  pub runtime : Logger
  pub channel : Logger
  pub task : Logger
  pub test : Logger
  pub example : Logger

abbrev named : String → LogLevel → Logger
named s l = record { module_name = codes s; level = l }

unfoldable pub loggers : Loggers
loggers = record {
  runtime = named "RUNTIME" trace_level;
  channel = named "CHANNEL" trace_level;
  task = named "TASK" trace_level;
  test = named "TEST" trace_level;
  example = named "EXAMPLE" trace_level;
}

abbrev pub with_level : LogLevel → Logger → Logger
with_level v l = record l { level = v }

unfoldable pub init : Loggers → Loggers
init g = record {
  runtime = with_level info_level g.runtime;
  channel = with_level info_level g.channel;
  task = with_level info_level g.task;
  test = with_level trace_level g.test;
  example = with_level trace_level g.example;
}

unfoldable pub set_level : LogLevel → Loggers → Loggers
set_level v g = record {
  runtime = with_level v g.runtime;
  channel = with_level v g.channel;
  task = with_level v g.task;
  test = with_level v g.test;
  example = with_level v g.example;
}
