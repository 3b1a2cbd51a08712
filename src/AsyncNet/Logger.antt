-- ===== src/AsyncNet/Logger.antt =====
-- 01_AsyncNet_Server/include/Logger.hpp. The two streams are the lists of the texts written to them.
-- `date` is the local date and time of a number of milliseconds as std::put_time prints it, and
-- `thread` the text of the thread's id; the mutex makes a call one step.
pub mod Streams
use Prim.Native.String.{String, ◌++◌ as ◌<>◌}
use object_oriented_programm.Prelude.{
  ℕ, ◌/◌, ◌%◌, Bool, true, false, List, [], ◌∷◌, ◌++◌, ltb, ◌==◌, if◌then◌else◌,
}

pub data LogLevel : Type 0 where
  debug info warn error : LogLevel

-- The value of an enumerator.
abbrev pub rank : LogLevel → ℕ
rank debug = 0
rank info = 1
rank warn = 2
rank error = 3

-- The instance that getInstance makes, with what it has written.
pub record Logger : Type 0 where
  pub current_level : LogLevel
  pub cout : List String
  pub cerr : List String

unfoldable pub get_instance : Logger
get_instance = record { current_level = info; cout = []; cerr = [] }

unfoldable pub set_log_level : LogLevel → Logger → Logger
set_log_level level logger = record logger { current_level = level }

unfoldable pub level_to_string : LogLevel → String
level_to_string debug = "DEBUG"
level_to_string info = "INFO "
level_to_string warn = "WARN "
level_to_string error = "ERROR"

abbrev pub digit : ℕ → String
digit d =
    if d == 0
    then "0"
    else if d == 1
    then "1"
    else if d == 2
    then "2"
    else if d == 3
    then "3"
    else if d == 4
    then "4"
    else if d == 5
    then "5"
    else if d == 6
    then "6"
    else if d == 7
    then "7"
    else if d == 8
    then "8"
    else "9"

-- setfill('0') and setw(3).
unfoldable pub three_digits : ℕ → String
three_digits ms = digit (ms / 100 % 10) <> digit (ms / 10 % 10) <> digit (ms % 10)

abbrev pub is_error : LogLevel → Bool
is_error debug = false
is_error info = false
is_error warn = false
is_error error = true

-- A message on its way to the logger.
pub record Entry : Type 0 where
  pub level : LogLevel
  pub now : ℕ
  pub thread : String
  pub message : String

module _ (date : ℕ → String) where
  -- The text of a message at the time `now`, in milliseconds.
  unfoldable pub line : LogLevel → ℕ → String → String → String
  unfolding level_to_string three_digits
  line level now thread message =
      "["
      <> date now
      <> "."
      <> three_digits (now % 1000)
      <> "] "
      <> "["
      <> level_to_string level
      <> "] "
      <> "[T-"
      <> thread
      <> "] "
      <> message
      <> "\n"

  unfoldable pub log : LogLevel → ℕ → String → String → Logger → Logger
  log level now thread message logger =
      if ltb (rank level) (rank logger.current_level)
      then logger
      else if is_error level
      then record logger { cerr = logger.cerr ++ line level now thread message ∷ [] }
      else record logger { cout = logger.cout ++ line level now thread message ∷ [] }

  -- The macros.
  unfoldable pub log_debug : ℕ → String → String → Logger → Logger
  log_debug = log debug

  unfoldable pub log_info : ℕ → String → String → Logger → Logger
  log_info = log info

  unfoldable pub log_warn : ℕ → String → String → Logger → Logger
  log_warn = log warn

  unfoldable pub log_error : ℕ → String → String → Logger → Logger
  log_error = log error

  -- Calls in the order in which they take the mutex.
  unfoldable pub log_all : List Entry → Logger → Logger
  log_all [] logger = logger
  log_all (e ∷ es) logger = log_all es (log e.level e.now e.thread e.message logger)
