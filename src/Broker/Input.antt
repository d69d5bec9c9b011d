-- ===== src/Broker/Input.antt =====
-- The receive buffer of a client under the handlers of its packets.
use arbor_mq.Base.{
  Grows-refl, Grows-cons, ℕ, ◌≡◌, ◌≢◌, refl, ◌∙◌, Bool, true, false, Option, none, some, List, [],
  ◌∷◌, Bytes, length, get_or-set_ne, get_or-set_self, length-set, ◌<◌, arith, Ensures, Ensures-bind,
  Ensures-if, not, ◌&&◌,
}
use arbor_mq.Topic.{match_topic}
use arbor_mq.Broker.State.{
  Broker, Client, Event, Retained, closed, emit, emit_if, client_at, put_client, zero_client,
}
use arbor_mq.Broker.Send.{queue_and_flush}
use arbor_mq.Broker.Forward.{
  forward, branch_publish, close_fd_at, close_fd, trigger_will, close_client, send_retained_from,
  send_retained, is_will_triggered,
}
use arbor_mq.Broker.Keeps.{
  Kept, Through, Through-same, Through-put_client, Through-queue_and_flush, Through-send_packet,
  Through-bind, Through-forward_subs,
}

-- The received bytes are the same.
abbrev pub SameInput : Client → Client → Type 0
SameInput c c' = (c'.recv_buf ≡ c.recv_buf) × (c'.recv_len ≡ c.recv_len)

pub SameInput-Kept : Kept SameInput
SameInput-Kept = record {
  same = λ c. (refl, refl);
  chain = λ c d e p q. (q.0 ∙ p.0, q.1 ∙ p.1);
  output = λ c bytes off s. (refl, refl);
  tracked = λ c qi q h e. (refl, refl);
}

abbrev pub KeepsInput : ℕ → Broker → Broker → Type 0
KeepsInput ci b b' = SameInput (client_at b ci) (client_at b' ci)

pub KeepsInput-trans :
    (ci : ℕ) (a b c : Broker) → KeepsInput ci a b → KeepsInput ci b c → KeepsInput ci a c
KeepsInput-trans ci a b c p q = (q.0 ∙ p.0, q.1 ∙ p.1)

pub KeepsInput-forward :
    (ci : ℕ) (b : Broker) (from : Option ℕ) (topic payload : Bytes) (qos retain : ℕ)
    → Ensures (KeepsInput ci b) (forward b from topic payload qos retain)
unfolding forward
KeepsInput-forward ci b from topic payload qos retain =
    Ensures-bind (Through SameInput b) (KeepsInput ci b) _ _
      (Through-forward_subs SameInput-Kept b.subs b b from topic payload qos retain
        (Through-same SameInput-Kept b))
      (λ b' t. t.each ci)

-- Client `ci` is the same.
abbrev Untouched : ℕ → Broker → Broker → Type 0
Untouched ci b b' = client_at b' ci ≡ client_at b ci

Untouched-put_client :
    (b : Broker) (i ci : ℕ) (c : Client) → i ≢ ci → Untouched ci b (put_client b i c)
Untouched-put_client b i ci c h = get_or-set_ne b.clients i ci c zero_client h

Untouched→KeepsInput : (ci : ℕ) (b b' : Broker) → Untouched ci b b' → KeepsInput ci b b'
Untouched→KeepsInput ci b b' e = rw e (refl, refl)

KeepsInput-elsewhere :
    (b b' : Broker) (i ci : ℕ) (c : Client)
    → i ≢ ci
    → KeepsInput ci b b'
    → KeepsInput ci b (put_client b' i c)
KeepsInput-elsewhere b b' i ci c h k =
    KeepsInput-trans ci b b' (put_client b' i c) k
      (Untouched→KeepsInput ci b' (put_client b' i c) (Untouched-put_client b' i ci c h))

KeepsInput-close_fd_at :
    (b : Broker) (i ci : ℕ) (fd : Option ℕ) → KeepsInput ci b (close_fd_at b i fd)
KeepsInput-close_fd_at b i ci none = (refl, refl)
KeepsInput-close_fd_at b i ci (some fd) =
    (Through-put_client SameInput-Kept b i (record (client_at b i) { fd = none })
        (closed (some fd) ∷ b.log) (refl, refl)
        (Grows-cons (closed (some fd)) b.log b.log (Grows-refl b.log))).each
      ci

KeepsInput-trigger_will :
    (b : Broker) (i ci : ℕ) → i ≢ ci → Ensures (KeepsInput ci b) (trigger_will b i)
unfolding trigger_will branch_publish
KeepsInput-trigger_will b i ci h =
    let c = client_at b i in
    Ensures-if (c.has_will && not (is_will_triggered c.state)) (KeepsInput ci b) _ (some b)
      (Ensures-bind (KeepsInput ci b) (KeepsInput ci b) _ _
        (KeepsInput-forward ci b none c.will_topic c.will_payload c.will_qos c.will_retain)
        (λ b' k. KeepsInput-elsewhere b b' i ci _ h k))
      (refl, refl)

-- Closing another client.
pub KeepsInput-close_client :
    (b : Broker) (i ci : ℕ) → i ≢ ci → Ensures (KeepsInput ci b) (close_client b i)
unfolding close_client close_fd
KeepsInput-close_client b i ci h =
    let d = close_fd b i in
    Ensures-bind (KeepsInput ci d) (KeepsInput ci b) (trigger_will d i) _
      (KeepsInput-trigger_will d i ci h)
      (λ b' k.
        KeepsInput-elsewhere b b' i ci zero_client h
          (KeepsInput-trans ci b d b' (KeepsInput-close_fd_at b i ci (client_at b i).fd) k))

-- Sending the retained messages to any client.
pub Through-send_retained_from :
    {R : Client → Client → Type 0} (k : Kept R) (rs : List Retained) (a b : Broker) (i : ℕ)
    (topic_filter : Bytes)
    → Through R a b
    → Ensures (Through R a) (send_retained_from rs b i topic_filter)
unfolding send_retained_from
Through-send_retained_from k [] a b i topic_filter p = p
Through-send_retained_from {R} k (r ∷ rs) a b i topic_filter p =
    Through-bind k a b _ _ p
      (Ensures-if (r.used && match_topic topic_filter r.topic) (Through R b) _ (some b)
        (Through-send_packet k b i _) (Through-same k b))
      (λ c q. Through-send_retained_from k rs a c i topic_filter q)

pub Through-send_retained :
    {R : Client → Client → Type 0} (k : Kept R) (b : Broker) (i : ℕ) (topic_filter : Bytes)
    → Ensures (Through R b) (send_retained b i topic_filter)
unfolding send_retained
Through-send_retained k b i topic_filter =
    Through-send_retained_from k b.retained b b i topic_filter (Through-same k b)

pub KeepsInput-queue_and_flush :
    (ci : ℕ) (b : Broker) (i : ℕ) (bytes : Bytes) → KeepsInput ci b (queue_and_flush b i bytes)
KeepsInput-queue_and_flush ci b i bytes = (Through-queue_and_flush SameInput-Kept b i bytes).each ci

pub KeepsInput-put_client :
    (ci : ℕ) (b : Broker) (i : ℕ) (c : Client)
    → SameInput (client_at b i) c
    → KeepsInput ci b (put_client b i c)
KeepsInput-put_client ci b i c h =
    (Through-put_client SameInput-Kept b i c b.log h (Grows-refl b.log)).each ci

pub KeepsInput-emit : (ci : ℕ) (b : Broker) (e : Event) → KeepsInput ci b (emit b e)
KeepsInput-emit ci b e = on_event b.os.on_event
  where
    on_event : (on : Bool) → KeepsInput ci b (emit_if on b e)
    on_event true = (refl, refl)
    on_event false = (refl, refl)

abbrev AnyClient : Client → Client → Type 0
AnyClient c c' = Unit {0}

AnyClient-Kept : Kept AnyClient
AnyClient-Kept = record {
  same = λ c. tt;
  chain = λ c d e p q. tt;
  output = λ c bytes off s. tt;
  tracked = λ c qi q h e. tt;
}

abbrev pub SameSize : Broker → Broker → Type 0
SameSize b b' = length b'.clients ≡ length b.clients

SameSize-forward :
    (b : Broker) (from : Option ℕ) (topic payload : Bytes) (qos retain : ℕ)
    → Ensures (SameSize b) (forward b from topic payload qos retain)
unfolding forward
SameSize-forward b from topic payload qos retain =
    Ensures-bind (Through AnyClient b) (SameSize b) _ _
      (Through-forward_subs AnyClient-Kept b.subs b b from topic payload qos retain
        (Through-same AnyClient-Kept b))
      (λ b' t. t.size)

SameSize-trigger_will : (b : Broker) (i : ℕ) → Ensures (SameSize b) (trigger_will b i)
unfolding trigger_will branch_publish
SameSize-trigger_will b i =
    let c = client_at b i in
    Ensures-if (c.has_will && not (is_will_triggered c.state)) (SameSize b) _ (some b)
      (Ensures-bind (SameSize b) (SameSize b) _ _
        (SameSize-forward b none c.will_topic c.will_payload c.will_qos c.will_retain)
        (λ b' e. length-set b'.clients i _ ∙ e))
      refl

pub SameSize-close_fd_at : (b : Broker) (i : ℕ) (fd : Option ℕ) → SameSize b (close_fd_at b i fd)
SameSize-close_fd_at b i none = refl
SameSize-close_fd_at b i (some fd) = length-set b.clients i _

-- A closed client has the contents of a fresh slot.
pub close_client-zero :
    (b : Broker) (ci : ℕ)
    → ci < length b.clients
    → Ensures (λ b'. client_at b' ci ≡ zero_client) (close_client b ci)
unfolding close_client close_fd
close_client-zero b ci h =
    let d = close_fd b ci in
    Ensures-bind (SameSize d) (λ b'. client_at b' ci ≡ zero_client) (trigger_will d ci) _
      (SameSize-trigger_will d ci)
      (λ b' e.
        get_or-set_self b'.clients ci zero_client zero_client
          (omega (arith, e, SameSize-close_fd_at b ci (client_at b ci).fd)))
