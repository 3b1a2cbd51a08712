-- ===== src/AsyncNet/Logger/Streams.antt =====
-- What a run of calls of 01_AsyncNet_Server/include/Logger.hpp leaves on the two streams.
use Prim.Native.String.{String, ◌++◌ as ◌<>◌}
use object_oriented_programm.Prelude.{
  ℕ, ◌%◌, ◌≡◌, Bool, true, false, List, [], ◌∷◌, ◌++◌, if◌then◌else◌,
}
use object_oriented_programm.AsyncNet.Logger.{
  LogLevel, debug, info, warn, error, three_digits, Logger, log, Entry,
}

-- Which levels a logger shows, by its current one.
abbrev pub shown : LogLevel → LogLevel → Bool
shown debug level = true
shown info debug = false
shown info level = true
shown warn warn = true
shown warn error = true
shown warn level = false
shown error error = true
shown error level = false

abbrev pub to_cerr : LogLevel → LogLevel → Bool
to_cerr current error = shown current error
to_cerr current level = false

abbrev pub to_cout : LogLevel → LogLevel → Bool
to_cout current error = false
to_cout current level = shown current level

-- The names of the levels, five characters wide.
abbrev pub name : LogLevel → String
name debug = "DEBUG"
name info = "INFO "
name warn = "WARN "
name error = "ERROR"

module _ (date : ℕ → String) where
  -- The text of an entry: the date, the milliseconds, the level, the thread and the message.
  abbrev pub entry_text : Entry → String
  entry_text e =
      "["
      <> date e.now
      <> "."
      <> three_digits (e.now % 1000)
      <> "] "
      <> "["
      <> name e.level
      <> "] "
      <> "[T-"
      <> e.thread
      <> "] "
      <> e.message
      <> "\n"

  -- The texts of the entries that a test keeps.
  abbrev pub lines : (LogLevel → Bool) → List Entry → List String
  lines keeps [] = []
  lines keeps (e ∷ es) =
      let rest = lines keeps es in if keeps e.level then entry_text e ∷ rest else rest

  module _ (e : Entry) (logger : Logger) where
    abbrev text : String
    text = entry_text e

    abbrev logged : Logger
    logged = log date e.level e.now e.thread e.message logger

  -- What the entries make of the streams of a logger.
  abbrev Written : List Entry → Logger → Logger → Type 0
  Written es logger after =
      (after.cerr ≡ logger.cerr ++ lines (to_cerr logger.current_level) es)
      × (after.cout ≡ logger.cout ++ lines (to_cout logger.current_level) es)
      × (after.current_level ≡ logger.current_level)
