-- ===== src/AsyncNet/Main/Arguments.antt =====
-- What command lines of 01_AsyncNet_Server/src/main.cpp mean.
use Prim.Native.String.{String}
use object_oriented_programm.Prelude.{
  ℕ, ◌≡◌, refl, ◌%◌, ◌^◌, Bool, true, false, List, [], ◌∷◌, ◌++◌, if◌then◌else◌,
}
use object_oriented_programm.AsyncNet.Server.{Server}
use object_oriented_programm.AsyncNet.Main.{
  Options, help, parsed, any_argument, defaults, int_to_size, parse_loop, parse_args,
}

-- An option with its value, by its short or its long name.
pub data Setting : Type 0 where
  port_setting : Bool → String → Setting
  threads_setting : Bool → String → Setting

unfoldable pub words : List Setting → List String
words [] = []
words (port_setting long value ∷ settings) =
    (if long then "--port" else "-p") ∷ value ∷ words settings
words (threads_setting long value ∷ settings) =
    (if long then "--threads" else "-t") ∷ value ∷ words settings

module _ (atoi : String → ℕ) where
  -- The last setting of an option decides.
  unfoldable pub apply : List Setting → Options → Options
  apply [] o = o
  apply (port_setting long value ∷ settings) o =
      apply settings (record o { port = atoi value % 2 ^ 16 })
  apply (threads_setting long value ∷ settings) o =
      apply settings (record o { threads = int_to_size (atoi value) })

  parse_loop-words :
      (settings : List Setting) (rest : List String) (o : Options)
      → parse_loop atoi any_argument (words settings ++ rest) o
        ≡ parse_loop atoi any_argument rest (apply settings o)
  unfolding parse_loop words apply
  parse_loop-words [] rest o = refl
  parse_loop-words (port_setting true value ∷ settings) rest o = parse_loop-words settings rest _
  parse_loop-words (port_setting false value ∷ settings) rest o = parse_loop-words settings rest _
  parse_loop-words (threads_setting true value ∷ settings) rest o = parse_loop-words settings rest _
  parse_loop-words (threads_setting false value ∷ settings) rest o =
      parse_loop-words settings rest _

  -- A command line of port and thread settings, by their short or long names, gives the defaults
  -- changed by each setting in turn, so that the last of an option decides; and with -h or --help
  -- behind them, whatever follows, it asks for the help.
  pub parse_args-words :
      (concurrency : ℕ) (settings : List Setting) (rest : List String) (long : Bool)
      → (parse_args atoi concurrency (words settings ++ [])
          ≡ parsed (apply settings (defaults concurrency)))
        × (parse_args atoi concurrency (words settings ++ (if long then "--help" else "-h") ∷ rest)
            ≡ help)
  unfolding parse_args
  parse_args-words concurrency settings rest true = (
    parse_loop-words settings [] (defaults concurrency),
    parse_loop-words settings ("--help" ∷ rest) (defaults concurrency),
  )
  parse_args-words concurrency settings rest false = (
    parse_loop-words settings [] (defaults concurrency),
    parse_loop-words settings ("-h" ∷ rest) (defaults concurrency),
  )
