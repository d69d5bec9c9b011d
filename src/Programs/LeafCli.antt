-- ===== src/Programs/LeafCli.antt =====
-- leaf/main.c: the interactive client. What the terminal gives is an argument: `Stdin` is what each
-- round finds on the standard input, and `Libc` what the C library reads out of a text. The callbacks
-- only print; the library's log lists their calls. What `main` prints itself is in `printed`.
mod Sizes
pub mod Commands
pub mod Connecting
use arbor_mq.Base.{
  ℕ, zero, suc, ◌+◌, ◌-◌, ◌%◌, ◌^◌, Bool, true, false, ◌||◌, Option, none, some, List, [], ◌∷◌, ltb,
  ◌==◌, if◌then◌else◌, ◌>>=◌, Bytes, length, take, drop, get_or,
}
use arbor_mq.Broker.Send.{Status, success, failure}
use arbor_mq.Leaf.State.{Leaf, Config, empty_config, clock_read, call, now_ms}
use arbor_mq.Leaf.Client.{
  leaf_create, leaf_connect, leaf_destroy, leaf_subscribe, leaf_publish, leaf_is_ready,
  set_on_connect, set_on_disconnect, set_on_message,
}
use arbor_mq.Leaf.Poll.{leaf_poll, since}

-- The standard input when a round looks: nothing there, at its end, or a line that `fgets` reads.
pub data Stdin : Type 0 where
  not_there at_end : Stdin
  entered : Bytes → Stdin

-- `tolower`, and the three formats of `sscanf`: the topic and the QoS, the topic, the payload and the
-- QoS, and the topic, where the call assigns what the code asks for. An `int` is its bits, and is 0
-- where the text has none.
pub record Libc : Type 0 where
  pub tolower : ℕ → ℕ
  pub scan_subscribe : Bytes → Option (Bytes × ℕ)
  pub scan_publish : Bytes → Option (Bytes × Bytes × ℕ)
  pub scan_topic : Bytes → Option Bytes

-- What `main` prints.
pub data Printed : Type 0 where
  create_failed connecting_to connect_failed connection_timeout help bye : Printed
  subscribed published : Bytes → ℕ → Printed
  unsubscribed : Bytes → Printed
  subscribe_failed publish_failed : Printed

pub record Cli : Type 0 where
  pub leaf : Leaf
  pub printed : List Printed

abbrev pub print : Cli → Printed → Cli
print p m = record p { printed = m ∷ p.printed }

abbrev pub is_newline : ℕ → Bool
is_newline c = c == 10 || c == 13

-- `while (len > 0 && …) s[--len] = '\0';`
unfoldable pub trim_loop : ℕ → Bytes → Bytes
trim_loop zero s = s
trim_loop (suc len) s =
    let rest = trim_loop len (take len s) in if is_newline (get_or s len 0) then rest else s

unfoldable pub trim_newline : Bytes → Bytes
unfolding trim_loop
trim_newline s = trim_loop (length s) s

-- Whether a command succeeded decides what is printed.
abbrev pub report : Cli → Printed → Printed → Option (Leaf × Status) → Option Cli
report p won lost none = none
report p won lost (some (c, success)) = some (print (record p { leaf = c }) won)
report p won lost (some (c, failure)) = some (print (record p { leaf = c }) lost)

abbrev pub subscribe_to : Cli → Option (Bytes × ℕ) → Option Cli
subscribe_to p none = some p
subscribe_to p (some (topic, qos)) =
    report p (subscribed topic qos) subscribe_failed (leaf_subscribe p.leaf topic (qos % 4))

abbrev pub publish_to : Cli → Option (Bytes × Bytes × ℕ) → Option Cli
publish_to p none = some p
publish_to p (some (topic, payload, qos)) =
    report p (published topic qos) publish_failed (leaf_publish p.leaf topic payload (qos % 4) 0)

-- The topic is printed; the library is not called.
abbrev pub unsubscribe_from : Cli → Option Bytes → Cli
unsubscribe_from p none = p
unsubscribe_from p (some topic) = print p (unsubscribed topic)

abbrev pub continue : Option Cli → Option (Cli × Bool)
continue none = none
continue (some p) = some (p, true)

-- One line of the user: the state behind it, and whether the loop goes on.
unfoldable pub command : Libc → Cli → Bytes → Option (Cli × Bool)
command libc p line =
    let cmd = libc.tolower (get_or line 0 0) in
    let rest = drop 1 line in
    if cmd == b'q'
    then some (p, false)
    else if cmd == b'h'
    then some (print p help, true)
    else if cmd == b's'
    then continue (subscribe_to p (libc.scan_subscribe rest))
    else if cmd == b'p'
    then continue (publish_to p (libc.scan_publish rest))
    else if cmd == b'u'
    then some (unsubscribe_from p (libc.scan_topic rest), true)
    else some (p, true)

abbrev pub line_read : Libc → Cli → Bytes → Option (Cli × Bool)
line_read libc p [] = some (p, true)
line_read libc p (x ∷ xs) = command libc p (x ∷ xs)

-- What a round does behind its poll.
abbrev pub read_stdin : Libc → Cli → Stdin → Option (Cli × Bool)
read_stdin libc p not_there = some (p, true)
read_stdin libc p at_end = some (p, false)
read_stdin libc p (entered text) = line_read libc p (trim_newline text)

-- `leaf_poll(c, 100)`, whose result the code drops.
abbrev pub poll_100 : Leaf → Option Leaf
poll_100 c = leaf_poll c (some 100) >>= (λ r. some r.0)

abbrev pub go_on : (Cli → Option (Cli × Bool)) → Cli × Bool → Option (Cli × Bool)
go_on next (p, true) = next p
go_on next (p, false) = some (p, false)

-- The `while` loop, on what its rounds find on the standard input: the state, and whether the loop is
-- still running behind them.
unfoldable pub command_loop : Libc → List Stdin → Cli → Option (Cli × Bool)
command_loop libc [] p = some (p, true)
command_loop libc (input ∷ inputs) p = do
  c ← poll_100 p.leaf
  r ← read_stdin libc (record p { leaf = c }) input
  go_on (command_loop libc inputs) r

-- How the wait for the handshake ends. The client is destroyed on a timeout.
pub data Waited : Type 0 where
  is_ready gave_up still_waiting : Leaf → Waited

-- The clock after a poll.
abbrev pub waited_on : (Leaf → Option Waited) → ℕ → Leaf → Option Waited
waited_on next start c =
    let c' = call c clock_read in
    if ltb 10000 (since (now_ms c) start) then some (gave_up (leaf_destroy c')) else next c'

unfoldable pub wait_ready : ℕ → ℕ → Leaf → Option Waited
wait_ready zero start c = some (still_waiting c)
wait_ready (suc rounds) start c =
    if leaf_is_ready c
    then some (is_ready c)
    else poll_100 c >>= waited_on (wait_ready rounds start) start

-- `cfg`: a clean session with a keepalive of 30 seconds; the address and the port are the system's.
abbrev pub cli_config : Bytes → Config
cli_config client_id = record empty_config {
  client_id = client_id;
  keepalive_sec = 30;
  clean_session = true;
}

-- How `main` ends: its exit code and its state; or it has not ended within the rounds given.
pub data Exit : Type 0 where
  exited : ℕ → Cli → Exit
  unfinished : Cli → Exit

abbrev pub finish : Cli × Bool → Exit
finish (p, true) = unfinished p
finish (p, false) = exited 0 (print (record p { leaf = leaf_destroy p.leaf }) bye)

abbrev pub handshaken : Libc → List Stdin → List Printed → Waited → Option Exit
handshaken libc inputs printed (still_waiting c) =
    some (unfinished (record { leaf = c; printed = printed }))
handshaken libc inputs printed (gave_up c) =
    some (exited 1 (record { leaf = c; printed = connection_timeout ∷ printed }))
handshaken libc inputs printed (is_ready c) =
    command_loop libc inputs (record { leaf = c; printed = help ∷ printed })
    >>= (λ r. some (finish r))

-- The callbacks are all set.
abbrev pub with_callbacks : Leaf → Leaf
with_callbacks c = set_on_message (set_on_disconnect (set_on_connect c true) true) true

abbrev pub connected : Libc → List Stdin → ℕ → Leaf × Status → Option Exit
connected libc inputs rounds (c, failure) =
    some (exited 1 (record { leaf = c; printed = connect_failed ∷ connecting_to ∷ [] }))
connected libc inputs rounds (c, success) =
    wait_ready rounds (now_ms c) (call c clock_read) >>= handshaken libc inputs (connecting_to ∷ [])

abbrev pub start_client : Libc → List Stdin → ℕ → Option Leaf → Leaf → Option Exit
start_client libc inputs rounds none c =
    some (exited 1 (record { leaf = c; printed = create_failed ∷ [] }))
start_client libc inputs rounds (some c) _ =
    connected libc inputs rounds (leaf_connect (with_callbacks c))

-- `argc > 3 ? argv[3] : "leaf_cli"`
abbrev pub client_id_of : Option Bytes → Bytes
client_id_of none = b'l' ∷ b'e' ∷ b'a' ∷ b'f' ∷ b'_' ∷ b'c' ∷ b'l' ∷ b'i' ∷ []
client_id_of (some s) = s

-- `main` with the client id of the command line, on the memory of the library `c`; `rounds` are those
-- of the wait for the handshake.
unfoldable pub leaf_main : Libc → List Stdin → ℕ → Option Bytes → Leaf → Option Exit
leaf_main libc inputs rounds client_id c =
    start_client libc inputs rounds (leaf_create false c (cli_config (client_id_of client_id))) c
