-- ===== src/AsyncNet/Main.antt =====
-- 01_AsyncNet_Server/src/main.cpp. `atoi` gives the 32 bits of the int that std::atoi returns, and
-- `concurrency` is std::thread::hardware_concurrency().
pub mod Arguments
use Prim.Native.String.{String, ◌++◌ as ◌<>◌}
use text.Mathlib.Text
use object_oriented_programm.Prelude.{
  ℕ, ◌+◌, ◌-◌, ◌%◌, ◌^◌, Bool, true, false, ◌||◌, Option, none, some, List, [], ◌∷◌, ltb, ◌==◌,
  if◌then◌else◌, Run, ok, threw, fault, out_of_fuel,
}
use object_oriented_programm.AsyncNet.Server.{Server, new_server, start}

unfoldable pub print_usage : String → String
print_usage prog_name =
    "Usage: " <> prog_name <> " [options]\n" <> "Options:\n"
    <> "  -p, --port <port>       Port number to listen on (default: 8080)\n"
    <> "  -t, --threads <count>   Number of worker threads (default: hardware concurrency)\n"
    <> "  -h, --help              Show this help message\n"

pub record Options : Type 0 where
  pub port : ℕ
  pub threads : ℕ

-- The end of the loop over the arguments: the options, or the help that was asked for.
pub data Parsed : Type 0 where
  help : Parsed
  parsed : Options → Parsed

-- What the next argument is for.
pub data Awaited : Type 0 where
  any_argument : Awaited
  port_value : Awaited
  threads_value : Awaited

unfoldable pub defaults : ℕ → Options
defaults concurrency = record { port = 8080; threads = if concurrency == 0 then 4 else concurrency }

-- An int as a size_t: a negative one is extended by its sign.
unfoldable pub int_to_size : ℕ → ℕ
int_to_size n = if ltb n (2 ^ 31) then n else n + (2 ^ 64 - 2 ^ 32)

module _ (atoi : String → ℕ) where
  unfoldable pub parse_loop : Awaited → List String → Options → Parsed
  unfolding int_to_size
  parse_loop awaited [] o = parsed o
  parse_loop port_value (value ∷ rest) o =
      parse_loop any_argument rest (record o { port = atoi value % 2 ^ 16 })
  parse_loop threads_value (value ∷ rest) o =
      parse_loop any_argument rest (record o { threads = int_to_size (atoi value) })
  parse_loop any_argument (arg ∷ rest) o =
      let with_port = parse_loop port_value rest o in
      let with_threads = parse_loop threads_value rest o in
      let ignored = parse_loop any_argument rest o in
      if Text.◌==◌ arg "-p" || Text.◌==◌ arg "--port"
      then with_port
      else if Text.◌==◌ arg "-t" || Text.◌==◌ arg "--threads"
      then with_threads
      else if Text.◌==◌ arg "-h" || Text.◌==◌ arg "--help"
      then help
      else ignored

  -- The arguments behind the program's name.
  unfoldable pub parse_args : ℕ → List String → Parsed
  unfolding parse_loop defaults
  parse_args concurrency argv = parse_loop any_argument argv (defaults concurrency)

-- How main ends: it returns a code, or stays in its last loop beside the server.
pub data Outcome : Type 0 where
  returns : ℕ → Outcome
  serves : Server → Outcome

-- The `try` of main around the start.
unfoldable pub guarded : Run Server (Unit {0}) → Outcome
guarded (ok tt server) = serves server
guarded (threw server) = returns 1
guarded fault = returns 1
guarded out_of_fuel = returns 1

unfoldable pub serve : (ℕ → Bool) → ℕ → Option Server → Outcome
unfolding guarded
serve starts max_size none = returns 1
serve starts max_size (some server) = guarded (start starts max_size server)

unfoldable pub end_main : (free starts : ℕ → Bool) → ℕ → Parsed → Outcome
unfolding serve
end_main free starts max_size help = returns 0
end_main free starts max_size (parsed o) = serve starts max_size (new_server free o.port o.threads)

-- `free`, `starts` and `max_size` are those of the server.
unfoldable pub main : (String → ℕ) → ℕ → (free starts : ℕ → Bool) → ℕ → List String → Outcome
unfolding end_main parse_args
main atoi concurrency free starts max_size argv =
    end_main free starts max_size (parse_args atoi concurrency argv)
