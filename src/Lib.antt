-- ===== src/Lib.antt =====
-- ArborMQ: an MQTT 3.1.1 broker in C, whose code is the headers under branch/branch, and a client
-- library, whose code is the headers under leaf/leaf. This library models the two as functions on an
-- explicit state, and proves what holds of them.
--
-- Parts of the program, and the files that model them:
-- - Topic: branch/branch/branch_match.h. `match_topic` is `branch__match_topic`. Topic/Levels says
--   what a filter means, level by level; Topic/Scan and Topic/Match relate the two.
-- - Wire: the readers, the writers and the remaining-length codec of branch/branch/branch_codec.h.
--   Wire/Remaining has the theorems about the codec, Wire/Short its sizes, Wire/Agree its bound, and
--   Wire/Fields those about the fields.
-- - Packet: the packet encoders (`branch__enc_*`) of branch_codec.h.
-- - Broker/State: the structs of branch/branch/branch_types.h and the constants of branch/branch.h.
-- - Broker/Tables: `branch__alloc_pid`, the searches in the tables (`branch__find_*`) and the loops
--   over the QoS 2 slots; Broker/Search and Broker/Pids have their theorems.
-- - Broker/Send: `branch__queue_and_flush` and `branch__client_send`.
-- - Broker/Forward: `branch__forward`, `branch__send_retained`, `branch__close_client` and
--   `branch_publish`; Broker/Retained has the theorems about the retained messages, and
--   Broker/Forward/Reach says which clients a message reaches, Broker/Forward/Queued what it adds to
--   their output.
-- - Broker/Connect, Broker/Publish, Broker/Subscribe, Broker/Dispatch: the packet handlers, which are
--   the cases of the `switch` in `branch__dispatch`; Broker/Exactly has the theorem about the slots of
--   incoming QoS 2 messages, Broker/Publish/Slots has the steps of all slots,
--   Broker/Publish/Inside what is read of a PUBLISH packet, and
--   Broker/Dispatch/Overflow the packets that its message is sent on in.
-- - Broker/Receive: `branch__client_recv` and `branch__check_keepalive`, with theorems in
--   Broker/Receive/Progress, Bounds and Disconnect.
-- - Broker/Safe: what keeps the broker inside its buffers, through all packet handlers (Safe/Connect,
--   Dispatch, Dispatch/Subscriptions), the loops over the input and over the clients (Safe/Process,
--   Receive, Sockets, Descriptors, Poll), and in every broker that the calls bring about
--   (Safe/Reachable); Broker/Room has the sizes of the packets. Broker/Subscribe/Removed says what UNSUBSCRIBE leaves,
--   by the rounds in Broker/Subscribe/Rounds.
-- - Broker/Keeps and Broker/Input: what no operation changes; Broker/Dispatch/Connect,
--   Subscriptions, Handlers and Closing apply it to all of the packet handlers.
-- - Broker/Poll: `branch_create`, `branch_destroy`, `branch_poll` and `branch_get_clients`, with theorems
--   in Broker/Poll/Accept, Closing and Destroy.
-- - Leaf and Leaf/Connect: the packet encoders of the client library, leaf/leaf/leaf_codec.h;
--   Leaf/Publish, Leaf/Subscribe, Leaf/Unsubscribe and Leaf/Connect/ReadBack say what the broker does
--   with them, Leaf/Connect/Flags and Fields are about the flags and the texts of CONNECT.
-- - Leaf/Codec: the readers, the writers and the remaining-length codec of leaf_codec.h, which are those
--   of the broker; the packets of the client are built on the latter.
-- - Leaf/State: the structs of leaf/leaf.h and leaf/leaf/leaf_types.h. Leaf/Pending: the slots of the
--   packets that wait for an answer, and `leaf__retry_pending`; Leaf/Pending/Retries says how its
--   retries end.
-- - Leaf/Dispatch: `leaf__dispatch`. Leaf/Dispatch/Handled says what it changes at most, and
--   Leaf/Dispatch/Once is about messages that come twice, Leaf/Dispatch/Delivered about
--   those that the broker sends.
-- - Leaf/Network: connecting, sending, receiving and closing of leaf/leaf/leaf_client.h;
--   Leaf/Network/Receive has the theorems about `leaf__recv_and_dispatch`. Leaf/Client: the commands.
-- - Leaf/Poll: `leaf_poll`, with theorems in Leaf/Poll/Alive, Stall and Handshake.
-- - Programs/BranchBroker: `main` of branch/main.c, with a theorem in Programs/BranchBroker/Ends.
-- - Programs/LeafCli: `main` of leaf/main.c; Programs/LeafCli/Commands is about the lines that the
--   user enters, Programs/LeafCli/Sizes about the packets for them, Programs/LeafCli/Connecting about
--   the wait for the handshake. `atoi`, `tolower` and `sscanf` are arguments.
-- - Base: shared helpers. Samples: runs on small inputs, and the theorems at concrete inputs.
--
-- The client and the broker meet in the packets: the encoders of the one and the readers of the other
-- work on the same bytes.
--
-- How the state corresponds: a `branch_t` is the record `Broker`, an array of structs is a list that
-- keeps its length, and a C string is the list of its bytes before the NUL. A function that changes the
-- broker takes and returns it. `none` stands for undefined behaviour, which is an access past the end of
-- an array, or of an `fd_set`, whose size `FD_SETSIZE` is a field of the record of the system; the result
-- 0 or -1 is `success` or `failure`. The system calls and the two callbacks are functions in the record
-- `Os`, whose answers may depend on all calls made before; the list of those is the field `log`.
-- A `leaf_t` is the record `Leaf`, with the system calls in the record `System`; a descriptor of -1 is
-- `none`, and the static variable of `leaf_poll` is a field.
--
-- Loops: over an array they are recursion on the list, or on the number of entries left. The loops over
-- the bytes of a packet are recursion on a number of rounds: 32 for the filters of a SUBSCRIBE, which is
-- the test in the source; the bytes left for an UNSUBSCRIBE, of which each round takes two at least; the
-- bytes received for the packets in the receive buffer of the broker or of the client, of which each
-- takes two at least.
-- The two programs run for a number of rounds: the broker program until a signal ends it, the client
-- program for what it finds on the standard input, round by round; its wait for the handshake takes
-- a bound, and a larger one than the rounds of ten seconds is enough.
-- The remaining length takes at most five bytes to write and four rounds to read.
--
-- Not modelled: the text of the log messages, which are data here; the fields of a QoS 2 slot that no
-- code reads or writes; the setting of socket options; callbacks that
-- call the broker or the client library back, and those of the programs, which only print; the tests.
pub mod Base
pub mod Topic
pub mod Wire
pub mod Packet
pub mod Broker
pub mod Leaf
pub mod Programs
mod Samples
