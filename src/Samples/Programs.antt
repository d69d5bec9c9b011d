-- ===== src/Samples/Programs.antt =====
-- The command-line programs on small inputs, and UNSUBSCRIBE.
use arbor_mq.Base.{◌*◌, ◌<◌, true, false, some, [], ◌∷◌, Bytes, length, take, arith, Returns}
use arbor_mq.Broker.State.{Broker, ready, zero_client}
use arbor_mq.Leaf.State.{System, now_ms}
use arbor_mq.Leaf.Poll.{since, leaf_poll, reconnect}
use arbor_mq.Programs.LeafCli.{Libc, Cli, wait_ready}
use arbor_mq.Programs.LeafCli.Connecting.{waits, IsSettled, wait_ready_ends}
use arbor_mq.Samples.Brokers.{ping}
use arbor_mq.Samples.Clients.{waiting, fresh, online}

-- A C library that takes the whole rest of a line for each field.
abbrev libc : Libc
libc = record {
  tolower = λ c. c;
  scan_subscribe = λ s. some (take 255 s, 1);
  scan_publish = λ s. some (take 255 s, take 511 s, 0);
  scan_topic = λ s. some (take 255 s);
}

abbrev at_prompt : Cli
at_prompt = record { leaf = online; printed = [] }

abbrev leave_t : Bytes
leave_t = b'u' ∷ b't' ∷ []

-- A system whose clock goes on by eleven seconds with each call, and that finds no host.
abbrev slow : System
slow = record waiting { now_ms = λ log. length log * 11000; resolve = λ log. false }

slow-late : Returns (λ d. 10000 < since (now_ms d) 0) (waits 0 (fresh slow))
unfolding leaf_poll reconnect
slow-late = omega arith

wait_ready_ends_example : Returns IsSettled (wait_ready 1 0 (fresh slow))
wait_ready_ends_example = wait_ready_ends 0 1 0 (fresh slow) slow-late (omega arith)

abbrev topic_t : Bytes
topic_t = b't' ∷ []

abbrev listening_t : Broker
listening_t = record ping {
  clients = record zero_client { fd = some 4; state = ready; sub_indices = 0 ∷ [] } ∷ [];
  subs = record { topic_filter = topic_t; client_idx = 0; qos = 1; used = true } ∷ [];
}
