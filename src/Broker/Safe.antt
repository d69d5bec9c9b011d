-- ===== src/Broker/Safe.antt =====
-- branch_broker.h, lines 89 to 161: what keeps the broker inside its buffers, through forwarding,
-- retained messages, wills and closing.
pub mod Connect
pub mod Dispatch
pub mod Process
pub mod Receive
pub mod Descriptors
pub mod Sockets
pub mod Poll
pub mod Reachable
use arbor_mq.Base.{
  ℕ, zero, suc, ◌+◌, ◌-◌, ◌≤◌, ◌≡◌, refl, sym, subst, ◌∙◌, Bool, true, false, not, ◌&&◌, Option,
  none, some, List, [], ◌∷◌, ltb, ◌==◌, if◌then◌else◌, ◌>>=◌, Bytes, length, length-take, take,
  get_or, set, get_or-set_rel, arith, Returns, Returns-bind, Ensures, Ensures-weaken, if_keeps,
}
use arbor_mq.Topic.{match_topic}
use arbor_mq.Packet.{enc_publish}
use arbor_mq.Broker.State.{
  Broker, Client, ClientState, Event, Retained, Os, will_triggered, buf_size, max_topic, client_at,
  put_client, zero_client, emit, emit_if,
}
use arbor_mq.Broker.Tables.{find_retained, find_free_retained}
use arbor_mq.Broker.Send.{queue_and_flush}
use arbor_mq.Broker.Forward.{
  send_packet, forward_subs, forward, branch_publish, retain_message, store_retained, store_at,
  clear_at, or_else, retained_at, unused_retained, send_retained_from, send_retained, close_fd_at,
  close_fd, trigger_will, is_will_triggered, close_client, release_subs,
}
use arbor_mq.Broker.Publish.Inside.{pid_size}
use arbor_mq.Broker.Keeps.{
  Kept, Through, Through-same, Through-queue_and_flush, Through-forward_subs,
}
use arbor_mq.Broker.Input.{Through-send_retained}
use arbor_mq.Broker.Room.{
  Forwardable, Done, enc_publish-fits, send_packet-Returns, forward_subs-Returns, Returns-Ensures,
}
use arbor_mq.Broker.Receive.Bounds.{ReceivesAtMost}

-- The will can be sent on, and the input fits the receive buffer.
abbrev pub ClientFits : Client → Type 0
ClientFits c = (length c.will_topic ≤ 255) × (length c.will_payload ≤ 512) × (c.recv_len ≤ buf_size)

-- The retained message can be sent on.
abbrev pub RetainedFits : Retained → Type 0
RetainedFits r = r.used ≡ true → Forwardable (length r.topic) (length r.payload) r.qos

abbrev pub AllFit : List Retained → Type 0
AllFit rs = (j : ℕ) → RetainedFits (retained_at rs j)

-- All wills and retained messages can be sent on, all input fits, and `recv` gives no more than it is
-- asked for.
abbrev pub Safe : Broker → Type 0
Safe b = ((j : ℕ) → ClientFits (client_at b j)) × AllFit b.retained × ReceivesAtMost b.os

-- A step that takes fitting clients to fitting ones.
abbrev pub StillFits : Client → Client → Type 0
StillFits c c' = ClientFits c → ClientFits c'

pub StillFits-Kept : Kept StillFits
StillFits-Kept = record {
  same = λ c h. h;
  chain = λ c d e p q h. q (p h);
  output = λ c bytes off s h. h;
  tracked = λ c qi q h e k. k;
}

pub zero_client-ClientFits : ClientFits zero_client
zero_client-ClientFits = (omega arith, omega arith, omega arith)

pub Through-Safe : (b b' : Broker) → Through StillFits b b' → Safe b → Safe b'
Through-Safe b b' t s =
    (λ j. t.each j (s.0 j), subst AllFit (sym t.retained) s.1, subst ReceivesAtMost (sym t.os) s.2)

pub put_client-Safe :
    (b : Broker) (i : ℕ) (c : Client) → Safe b → ClientFits c → Safe (put_client b i c)
put_client-Safe b i c s h = (
  λ j. get_or-set_rel StillFits b.clients i j c zero_client (λ d k. k) (λ _. h) (s.0 j),
  s.1,
  s.2,
)

pub emit-Safe : (b : Broker) (e : Event) → Safe b → Safe (emit b e)
emit-Safe b e s = on b.os.on_event
  where
    on : (t : Bool) → Safe (emit_if t b e)
    on true = s
    on false = s

pub Safe-if : (t : Bool) (b c : Broker) → Safe b → Safe c → Safe (if t then b else c)
Safe-if true b c s t = s
Safe-if false b c s t = t

pub queue_and_flush-Safe :
    (b : Broker) (i : ℕ) (bytes : Bytes) → Safe b → Safe (queue_and_flush b i bytes)
queue_and_flush-Safe b i bytes s =
    Through-Safe b (queue_and_flush b i bytes) (Through-queue_and_flush StillFits-Kept b i bytes) s

AllFit-set :
    (rs : List Retained) (i : ℕ) (r : Retained) → AllFit rs → RetainedFits r → AllFit (set rs i r)
AllFit-set rs i r h k j =
    get_or-set_rel (λ (x y : Retained). RetainedFits x → RetainedFits y) rs i j r unused_retained
      (λ x p. p) (λ _. k) (h j)

store_retained-RetainedFits :
    (r : Retained) (topic payload : Bytes) (qos : ℕ)
    → Forwardable (length topic) (length payload) qos
    → RetainedFits (store_retained r topic payload qos)
unfolding store_retained
store_retained-RetainedFits r topic payload qos h _ =
    let n : ℕ = if ltb (length payload) buf_size then length payload else buf_size - 1 in
    omega (arith, h, length-take {A = ℕ} (max_topic - 1) topic, length-take {A = ℕ} n payload)

store_at-AllFit :
    (rs : List Retained) (o : Option ℕ) (topic payload : Bytes) (qos : ℕ)
    → AllFit rs
    → Forwardable (length topic) (length payload) qos
    → AllFit (store_at rs o topic payload qos)
store_at-AllFit rs none topic payload qos h k = h
store_at-AllFit rs (some i) topic payload qos h k =
    AllFit-set rs i (store_retained (retained_at rs i) topic payload qos) h
      (store_retained-RetainedFits (retained_at rs i) topic payload qos k)

clear_at-AllFit : (rs : List Retained) (o : Option ℕ) → AllFit rs → AllFit (clear_at rs o)
clear_at-AllFit rs none h = h
clear_at-AllFit rs (some i) h =
    AllFit-set rs i (record (retained_at rs i) { used = false }) h (λ u. absurd (cc))

retain_message-AllFit :
    (rs : List Retained) (topic payload : Bytes) (qos retain : ℕ)
    → AllFit rs
    → Forwardable (length topic) (length payload) qos
    → AllFit (retain_message rs topic payload qos retain)
unfolding retain_message
retain_message-AllFit rs topic payload qos retain h k = if_keeps AllFit (retain == 0) h (
    if_keeps AllFit (length payload == 0) (clear_at-AllFit rs (find_retained rs topic) h) (
      store_at-AllFit rs (or_else (find_retained rs topic) (find_free_retained rs)) topic payload
        qos h k))

-- A message that fits is forwarded without a fault.
pub forward-Safe :
    (b : Broker) (from : Option ℕ) (topic payload : Bytes) (qos retain : ℕ)
    → Safe b
    → Forwardable (length topic) (length payload) qos
    → Returns Safe (forward b from topic payload qos retain)
unfolding forward
forward-Safe b from topic payload qos retain s h =
    Returns-bind (Through StillFits b) Safe _ _
      (Returns-Ensures Done (Through StillFits b)
        (forward_subs b.subs b from topic payload qos retain)
        (forward_subs-Returns b.subs b from topic payload qos retain h)
        (Through-forward_subs StillFits-Kept b.subs b b from topic payload qos retain
          (Through-same StillFits-Kept b)))
      (λ b' t.
        let s' = Through-Safe b b' t s in
        (s'.0, retain_message-AllFit b'.retained topic payload qos retain s'.1 h, s'.2))

will-Forwardable :
    (c : Client)
    → ClientFits c
    → Forwardable (length c.will_topic) (length c.will_payload) c.will_qos
will-Forwardable c h = ground (arith, h.0, h.1)

pub trigger_will-Safe : (b : Broker) (i : ℕ) → Safe b → Returns Safe (trigger_will b i)
unfolding trigger_will branch_publish
trigger_will-Safe b i s =
    let c = client_at b i in
    if_keeps (Returns Safe) (c.has_will && not (is_will_triggered c.state))
      (Returns-bind Safe Safe _ _
        (forward-Safe b none c.will_topic c.will_payload c.will_qos c.will_retain s
          (will-Forwardable c (s.0 i)))
        (λ b' s'.
          put_client-Safe b' i (record (client_at b' i) { state = will_triggered }) s' (s'.0 i)))
      s

close_fd_at-Safe : (b : Broker) (i : ℕ) (fd : Option ℕ) → Safe b → Safe (close_fd_at b i fd)
close_fd_at-Safe b i none s = s
close_fd_at-Safe b i (some fd) s =
    put_client-Safe b i (record (client_at b i) { fd = none }) s (s.0 i)

-- Closing a client publishes its will without a fault.
pub close_client-Safe : (b : Broker) (i : ℕ) → Safe b → Returns Safe (close_client b i)
unfolding close_client close_fd
close_client-Safe b i s =
    let d = close_fd b i in
    Returns-bind Safe Safe (trigger_will d i) _
      (trigger_will-Safe d i (close_fd_at-Safe b i (client_at b i).fd s))
      (λ b' s'. put_client-Safe b' i zero_client s' zero_client-ClientFits)

send_retained_from-Returns :
    (rs : List Retained) (b : Broker) (i : ℕ) (topic_filter : Bytes)
    → AllFit rs
    → Returns Done (send_retained_from rs b i topic_filter)
unfolding send_retained_from
send_retained_from-Returns [] b i topic_filter h = tt
send_retained_from-Returns (r ∷ rs) b i topic_filter h =
    Returns-bind Done Done _ (λ b'. send_retained_from rs b' i topic_filter)
      (each (r.used && match_topic topic_filter r.topic) (λ u. h 0 (ground arith)))
      (λ b' _. send_retained_from-Returns rs b' i topic_filter (λ j. h (suc j)))
  where
    pkt : Bytes
    pkt = enc_publish r.topic r.payload r.qos 1 0

    each :
        (t : Bool)
        → (t ≡ true → Forwardable (length r.topic) (length r.payload) r.qos)
        → Returns Done (if t then send_packet b i pkt else some b)
    each true k =
        send_packet-Returns b i pkt (enc_publish-fits r.topic r.payload r.qos 1 0 (k refl))
    each false k = tt

-- The retained messages are sent to a new subscriber without a fault.
pub send_retained-Safe :
    (b : Broker) (i : ℕ) (topic_filter : Bytes)
    → Safe b
    → Returns Safe (send_retained b i topic_filter)
unfolding send_retained
send_retained-Safe b i topic_filter s =
    Returns-Ensures Done Safe (send_retained b i topic_filter)
      (unfold send_retained in send_retained_from-Returns b.retained b i topic_filter s.1)
      (Ensures-weaken (Through StillFits b) Safe _ (λ b' t. Through-Safe b b' t s)
        (Through-send_retained StillFits-Kept b i topic_filter))
