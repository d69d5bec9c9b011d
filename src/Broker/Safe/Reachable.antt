-- ===== src/Broker/Safe/Reachable.antt =====
-- branch_broker.h, lines 244 to 389: every broker that the calls of branch.h bring about.
use arbor_mq.Base.{
  ℕ, zero, suc, ◌≡◌, refl, sym, ◌∙◌, subst, Bool, true, false, Option, none, some, List, [], ◌∷◌,
  ◌==◌, Bytes, length, Returns, Returns-at, Returns-both, Returns-weaken, Returns-bind, if_keeps,
  inl, inr, if◌then◌else◌, get_or, replicate, ◌+◌,
}
use arbor_mq.Broker.State.{
  Broker, Client, Os, client_at, record_effect, clock_read, now_ms, max_clients, max_retained, emit,
  zero_client, shutting_down, listening, socket_opened, bind_tried, listen_tried,
}
use arbor_mq.Broker.Tables.{is_open}
use arbor_mq.Broker.Send.{Status}
use arbor_mq.Broker.Forward.{branch_publish, unused_retained}
use arbor_mq.Broker.Receive.Bounds.{ReceivesAtMost}
use arbor_mq.Broker.Poll.{
  fresh_broker, started, open_listener, branch_create, close_clients, branch_destroy, branch_poll,
  get_clients, branch_get_clients, close_listener,
}
use arbor_mq.Broker.Poll.Accept.{get_open}
use arbor_mq.Broker.Poll.Destroy.{ClosesAll, branch_destroy-ClosesAll}
use arbor_mq.Broker.Room.{Forwardable}
use arbor_mq.Broker.Safe.{
  Safe, ClientFits, RetainedFits, zero_client-ClientFits, emit-Safe, close_client-Safe,
  forward-Safe,
}
use arbor_mq.Broker.Safe.Process.{SafeUnless}
use arbor_mq.Broker.Safe.Poll.{PollFaults, branch_poll-Safe}

get_or-replicate : {A : Type 0} (n j : ℕ) (a : A) → get_or (replicate n a) j a ≡ a
get_or-replicate zero j a = refl
get_or-replicate (suc n) zero a = refl
get_or-replicate (suc n) (suc j) a = get_or-replicate n j a

fresh_broker-Safe : (os : Os) → ReceivesAtMost os → Safe (fresh_broker os)
unfolding fresh_broker
fresh_broker-Safe os h = (
  λ j. subst ClientFits (sym (get_or-replicate max_clients j zero_client)) zero_client-ClientFits,
  λ j.
      subst RetainedFits (sym (get_or-replicate max_retained j unused_retained)) (λ u. absurd (cc)),
  h,
)

started-Safe : (b : Broker) (port : ℕ) → Safe b → Safe (started b port)
unfolding started
started-Safe b port s =
    emit-Safe (record (record_effect b clock_read) { start_ms = now_ms b }) (listening port) s

open_listener-Safe : (b : Broker) (port : ℕ) (o : Option ℕ) → Safe b → Safe (open_listener b port o)
open_listener-Safe b port none s = s
open_listener-Safe b port (some fd) s =
    at (b.os.bind_ok b.log fd) (b.os.listen_ok (bind_tried fd ∷ b.log) fd)
      (started-Safe (record_effect bound (listen_tried fd)) port s)
  where
    bound : Broker
    bound = record_effect (record b { listen_fd = some fd }) (bind_tried fd)

    at :
        (t u : Bool)
        → Safe (started (record_effect bound (listen_tried fd)) port)
        → Safe (
            if t
            then if u
              then started (record_effect bound (listen_tried fd)) port
              else close_listener (record_effect bound (listen_tried fd)) fd
            else close_listener bound fd)
    at true true k = k
    at true false k = s
    at false u k = s

branch_create-Safe :
    (os : Os) (port : ℕ) → ReceivesAtMost os → Returns Safe (branch_create false os port)
unfolding branch_create
branch_create-Safe os port h =
    let b = fresh_broker os in
    open_listener-Safe (record_effect b socket_opened) (if port == 0 then 1883 else port)
      (os.socket b.log) (fresh_broker-Safe os h)

get_clients-Safe :
    (max : ℕ) (cs : List Client) (b : Broker) → Safe b → Safe (get_clients max cs b).1
unfolding get_clients
get_clients-Safe max [] b s = s
get_clients-Safe zero (c ∷ cs) b s = s
get_clients-Safe (suc max) (c ∷ cs) b s =
    at (is_open c.fd) (get_clients-Safe max cs (record_effect b clock_read) s)
      (get_clients-Safe (suc max) cs b s)
  where
    at :
        (t : Bool)
        → Safe (get_clients max cs (record_effect b clock_read)).1
        → Safe (get_clients (suc max) cs b).1
        → Safe (get_open max c cs b t).1
    at true k l = k
    at false k l = l

branch_get_clients-Safe : (b : Broker) (max : ℕ) → Safe b → Safe (branch_get_clients b max).1
unfolding branch_get_clients
branch_get_clients-Safe b max s = get_clients-Safe max b.clients b s

branch_publish-Safe :
    (b : Broker) (topic payload : Bytes) (qos retain : ℕ)
    → Safe b
    → Forwardable (length topic) (length payload) qos
    → Returns Safe (branch_publish b topic payload qos retain)
unfolding branch_publish
branch_publish-Safe b topic payload qos retain s h =
    forward-Safe b none topic payload qos retain s h

-- A broker that calls of `branch_create`, `branch_poll`, `branch_publish` and `branch_get_clients` bring
-- about, where each published message fits a packet.
pub data Reachable : Broker → Type 0 where
  created :
      {b : Broker} (os : Os) (port : ℕ)
      → ReceivesAtMost os
      → branch_create false os port ≡ some b
      → Reachable b
  polled :
      {b b' : Broker} (timeout : Option ℕ) (s : Status)
      → Reachable b
      → branch_poll b timeout ≡ some (b', s)
      → Reachable b'
  published :
      {b b' : Broker} (topic payload : Bytes) (qos retain : ℕ)
      → Reachable b
      → Forwardable (length topic) (length payload) qos
      → branch_publish b topic payload qos retain ≡ some b'
      → Reachable b'
  listed :
      {b b' : Broker} (max : ℕ) → Reachable b → b' ≡ (branch_get_clients b max).1 → Reachable b'

returned-Safe :
    (D : Type 0) (r : Option (Broker × Status)) (x : Broker × Status)
    → r ≡ some x
    → SafeUnless D r
    → Safe x.0
returned-Safe D r x e (inl h) = Returns-at (λ x. Safe x.0) r x e h
returned-Safe D r x e (inr (d, n)) = absurd (clash (sym n ∙ e))
  where
    clash : ◌≡◌ {A = Option (Broker × Status)} none (some x) → ⊥
    clash q = cc

-- In every broker that the calls of branch.h bring about, from `branch_create` on, whatever the
-- clients send, each will and each retained message fits a packet, and the input of each client
-- fits its buffer; where `recv` gives at most what it is asked for, and published messages fit a
-- packet.
pub reachable-Safe : (b : Broker) → Reachable b → Safe b
reachable-Safe b (created os port h e) =
    Returns-at Safe (branch_create false os port) b e (branch_create-Safe os port h)
reachable-Safe b (polled {b = a} timeout s r e) =
    returned-Safe (PollFaults a timeout a.listen_fd) (branch_poll a timeout) (b, s) e
      (branch_poll-Safe a timeout (reachable-Safe a r))
reachable-Safe b (published {b = a} topic payload qos retain r h e) =
    Returns-at Safe (branch_publish a topic payload qos retain) b e
      (branch_publish-Safe a topic payload qos retain (reachable-Safe a r) h)
reachable-Safe b (listed {b = a} max r e) =
    subst Safe (sym e) (branch_get_clients-Safe a max (reachable-Safe a r))

close_clients-Safe : (rounds i : ℕ) (b : Broker) → Safe b → Returns Safe (close_clients rounds i b)
unfolding close_clients
close_clients-Safe zero i b s = s
close_clients-Safe (suc rounds) i b s =
    Returns-bind Safe Safe _ _
      (if_keeps (Returns Safe) (is_open (client_at b i).fd) (close_client-Safe b i s) s)
      (λ b' s'. close_clients-Safe rounds (i + 1) b' s')

branch_destroy-Returns : (b : Broker) → Safe b → Returns (λ b'. Unit {0}) (branch_destroy b)
unfolding branch_destroy
branch_destroy-Returns b s =
    Returns-bind Safe (λ b'. Unit {0}) (close_clients max_clients 0 (emit b shutting_down)) _
      (close_clients-Safe max_clients 0 (emit b shutting_down) (emit-Safe b shutting_down s))
      (λ b' s'. tt)

-- `branch_destroy` does not fault on a broker that the calls of branch.h have brought about, with a
-- `recv` that gives at most what it is asked for and published messages that fit a packet. It
-- closes the descriptor of every client of the table and of the listener, and leaves none of them.
pub reachable_destroy : (b : Broker) → Reachable b → Returns (ClosesAll b) (branch_destroy b)
reachable_destroy b r =
    Returns-weaken (λ b'. Unit {0} × ClosesAll b b') (ClosesAll b) (branch_destroy b) (λ b' x. x.1)
      (Returns-both (λ b'. Unit {0}) (ClosesAll b) (branch_destroy b)
        (branch_destroy-Returns b (reachable-Safe b r)) (branch_destroy-ClosesAll b))
