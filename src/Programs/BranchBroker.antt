-- ===== src/Programs/BranchBroker.antt =====
-- branch/main.c: the broker program. A signal ends its loop; `rounds` is how often `g_running` is read
-- as set before that. What is printed beside the number of clients at the exit is left out.
pub mod Ends
use arbor_mq.Base.{ℕ, zero, suc, ◌%◌, false, Option, none, some, ◌>>=◌, Bytes}
use arbor_mq.Broker.State.{Broker, Os}
use arbor_mq.Broker.Forward.{branch_client_count}
use arbor_mq.Broker.Poll.{branch_create, branch_poll, branch_destroy}

-- `argc > 1 ? (uint16_t)atoi(argv[1]) : 1883`, with the bits of the `int` that `atoi` gives.
abbrev pub port_of : (Bytes → ℕ) → Option Bytes → ℕ
port_of atoi none = 1883
port_of atoi (some arg) = atoi arg % 65536

-- `while (g_running) branch_poll(t, 1000);`, whose result the code drops.
unfoldable pub serve : ℕ → Broker → Option Broker
serve zero b = some b
serve (suc rounds) b = branch_poll b (some 1000) >>= (λ r. serve rounds r.0)

-- The exit code 1 without a broker, or 0 with the number of clients that is printed.
pub data Exit : Type 0 where
  no_broker : Exit
  served : ℕ → Broker → Exit

abbrev pub shut_down : Broker → Option Exit
shut_down b = branch_destroy b >>= (λ b'. some (served (branch_client_count b) b'))

abbrev pub run : ℕ → Option Broker → Option Exit
run rounds none = some no_broker
run rounds (some b) = serve rounds b >>= shut_down

unfoldable pub branch_main : (Bytes → ℕ) → Os → Option Bytes → ℕ → Option Exit
branch_main atoi os arg rounds = run rounds (branch_create false os (port_of atoi arg))
