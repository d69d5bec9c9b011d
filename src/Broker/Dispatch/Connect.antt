-- ===== src/Broker/Dispatch/Connect.antt =====
-- The CONNECT handler leaves the receive buffer of its client alone, whomever it evicts.
use arbor_mq.Base.{
  ℕ, ◌≡◌, ◌≢◌, refl, ◌∙◌, Bool, true, false, Option, none, some, if◌then◌else◌, Bytes, arith, ◌&&◌,
  Ensures, Ensures-bind, Ensures-weaken, Ensures-if, ◌==◌,
}
use native.Mathlib.Decide.{ℕ_discrete}
use arbor_mq.Packet.{enc_connack}
use arbor_mq.Wire.{read_u8, read_u16, read_str, read_str_copy}
use arbor_mq.Broker.State.{
  Broker, Client, client_at, put_client, emit, now_ms, record_effect, clock_read, connack_sent,
  connected, refused, max_client_id,
}
use arbor_mq.Broker.Tables.{find_client_by_id}
use arbor_mq.Broker.Send.{Status, queue_and_flush}
use arbor_mq.Broker.Connect.{
  Reads, bind_read, Request, read_will, read_username, read_password, read_connect, return_code,
  evict_at, evict, send_connack, accept_client, finish_connect, answer_connect, log_tests,
  connect_read, handle_connect,
}
use arbor_mq.Broker.Input.{
  SameInput, KeepsInput, KeepsInput-trans, KeepsInput-close_client, KeepsInput-queue_and_flush,
  KeepsInput-put_client, KeepsInput-emit,
}

abbrev KeepsRead : {A : Type 0} → Reads A → Type 0
KeepsRead m = (c : Client) → SameInput c (m c).0

KeepsRead-will : (p : Bytes) (off len cf : ℕ) → KeepsRead (read_will p off len cf)
unfolding read_will
KeepsRead-will p off len cf c = ground arith

KeepsRead-username : (p : Bytes) (off len cf : ℕ) → KeepsRead (read_username p off len cf)
unfolding read_username
KeepsRead-username p off len cf c = ground arith

KeepsRead-password : (p : Bytes) (off len cf : ℕ) → KeepsRead (read_password p off len cf)
unfolding read_password
KeepsRead-password p off len cf c = ground arith

-- The reading breaks off, or goes on.
KeepsRead-on :
    {A C : Type 0} (c : Client) (m : Client × Option A) (f : A → Reads C)
    → SameInput c m.0
    → ((a : A) → KeepsRead (f a))
    → SameInput c (bind_read m f).0
KeepsRead-on c (d, none) f h k = h
KeepsRead-on c (d, some a) f h k = ((k a d).0 ∙ h.0, (k a d).1 ∙ h.1)

KeepsRead-connect : (p : Bytes) (off len : ℕ) → KeepsRead (read_connect p off len)
unfolding read_connect
KeepsRead-connect p off len c =
    KeepsRead-on c (c, read_str p off len) _ (refl, refl)
      λ r d.
        KeepsRead-on d (d, read_u8 p r.1 len) _ (refl, refl)
          λ s e.
            KeepsRead-on e (e, read_u8 p s.1 len) _ (refl, refl)
              λ x g.
                KeepsRead-on g (g, read_u16 p x.1 len) _ (refl, refl)
                  λ y h.
                    KeepsRead-on h (h, read_str_copy p y.1 len max_client_id) _ (refl, refl)
                      λ z i.
                        let named = record i { client_id = z.0 } in
                        KeepsRead-on i (read_will p z.1 len x.0 named) _
                          (KeepsRead-will p z.1 len x.0 named)
                          λ o6 j.
                            KeepsRead-on j (read_username p o6 len x.0 j) _
                              (KeepsRead-username p o6 len x.0 j)
                              λ o7 k.
                                KeepsRead-on k (read_password p o7 len x.0 k) _
                                  (KeepsRead-password p o7 len x.0 k) λ password l. (refl, refl)

same_index : (i j : ℕ) → i ≡ j → (i == j) ≡ true
same_index i j e = ground arith

pub other_index : (i j : ℕ) → i ≢ j → (i == j) ≡ false
other_index i j n = ground arith

abbrev pub HandlerKeeps : ℕ → Broker → Option (Broker × Status) → Type 0
HandlerKeeps ci b = Ensures (λ r. KeepsInput ci b r.0)

KeepsInput-evict_at :
    (b : Broker) (ci : ℕ) (old : Option ℕ) → Ensures (KeepsInput ci b) (evict_at b ci old)
KeepsInput-evict_at b ci none = (refl, refl)
KeepsInput-evict_at b ci (some old) = elim (ℕ_discrete old ci) [
  | yes e ↦ rw (same_index old ci e) (refl, refl)
  | no n ↦ rw (other_index old ci n) (KeepsInput-close_client b old ci n)
]

KeepsInput-evict :
    (b : Broker) (ci rc : ℕ) (clean : Bool) → Ensures (KeepsInput ci b) (evict b ci rc clean)
unfolding evict
KeepsInput-evict b ci rc clean =
    Ensures-if (rc == 0 && clean) (KeepsInput ci b) _ (some b)
      (KeepsInput-evict_at b ci (find_client_by_id b (client_at b ci).client_id)) (refl, refl)

KeepsInput-send_connack :
    (b : Broker) (ci rc : ℕ) (r : Request) → KeepsInput ci b (send_connack b ci rc r)
unfolding send_connack
KeepsInput-send_connack b ci rc r =
    let c = client_at b ci in
    let c' = record c { keepalive_sec = r.keepalive; clean_session = r.clean_session } in
    KeepsInput-trans ci b (put_client b ci c')
      (queue_and_flush (put_client b ci c') ci (enc_connack 0 rc))
      (KeepsInput-put_client ci b ci c' (refl, refl))
      (KeepsInput-queue_and_flush ci (put_client b ci c') ci (enc_connack 0 rc))

KeepsInput-accept_client : (b : Broker) (ci : ℕ) → KeepsInput ci b (accept_client b ci)
unfolding accept_client
KeepsInput-accept_client b ci =
    let c = record (client_at b ci) { state = connack_sent; connected_at_ms = now_ms b } in
    let b' = put_client (record_effect b clock_read) ci c in
    KeepsInput-trans ci b b' (emit b' (connected c.client_id))
      (KeepsInput-put_client ci (record_effect b clock_read) ci c (refl, refl))
      (KeepsInput-emit ci b' (connected c.client_id))

pub KeepsInput-if :
    (t : Bool) (ci : ℕ) (b c d : Broker)
    → KeepsInput ci b c
    → KeepsInput ci b d
    → KeepsInput ci b (if t then c else d)
KeepsInput-if true ci b c d p q = p
KeepsInput-if false ci b c d p q = q

KeepsInput-finish_connect :
    (b : Broker) (ci rc : ℕ) (r : Request) → KeepsInput ci b (finish_connect b ci rc r)
unfolding finish_connect
KeepsInput-finish_connect b ci rc r =
    let b' = send_connack b ci rc r in
    let refusal = refused (client_at b' ci).client_id rc in
    let sent = KeepsInput-send_connack b ci rc r in
    KeepsInput-if (rc == 0) ci b (accept_client b' ci) (emit b' refusal)
      (KeepsInput-trans ci b b' (accept_client b' ci) sent (KeepsInput-accept_client b' ci))
      (KeepsInput-trans ci b b' (emit b' refusal) sent (KeepsInput-emit ci b' refusal))

KeepsInput-answer_connect :
    (b : Broker) (ci : ℕ) (r : Request) → HandlerKeeps ci b (answer_connect b ci r)
unfolding answer_connect
KeepsInput-answer_connect b ci r =
    let rc = return_code b (client_at b ci) r in
    let tested : Broker = record b { log = log_tests b (client_at b ci) r } in
    Ensures-bind (KeepsInput ci b) (λ s. KeepsInput ci b s.0) (evict tested ci rc r.clean_session) _
      (KeepsInput-evict tested ci rc r.clean_session)
      (λ b' k.
        KeepsInput-trans ci b b' (finish_connect b' ci rc r) k
          (KeepsInput-finish_connect b' ci rc r))

KeepsInput-connect_read :
    (b : Broker) (ci : ℕ) (x : Client × Option Request)
    → SameInput (client_at b ci) x.0
    → HandlerKeeps ci b (connect_read b ci x)
KeepsInput-connect_read b ci (c, none) h = KeepsInput-put_client ci b ci c h
KeepsInput-connect_read b ci (c, some r) h =
    Ensures-weaken (λ s. KeepsInput ci (put_client b ci c) s.0) (λ s. KeepsInput ci b s.0) _
      (λ s k. KeepsInput-trans ci b (put_client b ci c) s.0 (KeepsInput-put_client ci b ci c h) k)
      (KeepsInput-answer_connect (put_client b ci c) ci r)

pub KeepsInput-handle_connect :
    (b : Broker) (ci off len : ℕ) → HandlerKeeps ci b (handle_connect b ci off len)
unfolding handle_connect
KeepsInput-handle_connect b ci off len =
    let c = client_at b ci in
    KeepsInput-connect_read b ci _ (KeepsRead-connect c.recv_buf off len c)
