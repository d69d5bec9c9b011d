-- ===== src/Broker/Safe/Connect.antt =====
-- branch_codec.h, lines 143 to 235: the CONNECT handler stores only a will that can be sent on, and
-- closes without a fault whomever it evicts.
use arbor_mq.Base.{
  ℕ, ◌≤◌, ◌≡◌, refl, Bool, Option, none, some, ltb, if◌then◌else◌, Bytes, length, length-take, take,
  arith, ◌&&◌, Returns, Returns-bind, if_keeps, ◌==◌,
}
use arbor_mq.Packet.{enc_connack}
use arbor_mq.Wire.{read_u8, read_u16, read_str, read_str_copy}
use arbor_mq.Broker.State.{
  Broker, Client, client_at, put_client, now_ms, record_effect, clock_read, connack_sent, connected,
  refused, max_client_id, max_topic, max_will_payload,
}
use arbor_mq.Broker.Tables.{find_client_by_id}
use arbor_mq.Broker.Connect.{
  Reads, bind_read, bit, Request, read_will, read_username, read_password, read_connect,
  return_code, log_tests, evict_at, evict, send_connack, accept_client, finish_connect,
  answer_connect, connect_read, handle_connect,
}
use arbor_mq.Broker.Room.{length-read_str_copy}
use arbor_mq.Broker.Safe.{
  ClientFits, Safe, put_client-Safe, emit-Safe, queue_and_flush-Safe, close_client-Safe,
}

-- The reading stores into the client, and it still fits.
abbrev FitsRead : {A : Type 0} → Reads A → Type 0
FitsRead m = (c : Client) → ClientFits c → ClientFits (m c).0

FitsRead-on :
    {A C : Type 0} (m : Client × Option A) (f : A → Reads C)
    → ClientFits m.0
    → ((a : A) → m.1 ≡ some a → FitsRead (f a))
    → ClientFits (bind_read m f).0
FitsRead-on (d, none) f h k = h
FitsRead-on (d, some a) f h k = k a refl d h

will_payload_bound :
    (payload : Bytes)
    → length (
        take
          (if ltb (length payload) max_will_payload then length payload else max_will_payload)
          payload)
      ≤ 512
will_payload_bound payload =
    let n : ℕ =
      if ltb (length payload) max_will_payload then length payload else max_will_payload in
    let small : n ≤ 512 = ground arith in omega (arith, small, length-take {A = ℕ} n payload)

FitsRead-will : (p : Bytes) (off len cf : ℕ) → FitsRead (read_will p off len cf)
unfolding read_will
FitsRead-will p off len cf c h =
    if_keeps (λ (m : Reads ℕ). ClientFits (m c).0) (bit cf 2)
      (FitsRead-on (c, read_str_copy p off len max_topic) _ h
        λ t e d (i, j, k).
          let bound = length-read_str_copy p off len max_topic t.0 t.1 e in
          FitsRead-on (record d { will_topic = t.0 }, read_str p t.1 len) _ (bound, j, k)
            λ x e' d' (i', j', k'). (i', will_payload_bound x.0, k'))
      h

FitsRead-username : (p : Bytes) (off len cf : ℕ) → FitsRead (read_username p off len cf)
unfolding read_username
FitsRead-username p off len cf c h =
    if_keeps (λ (m : Reads ℕ). ClientFits (m c).0) (bit cf 7)
      (FitsRead-on (c, read_str_copy p off len 64) _ h λ t e d k. k) h

FitsRead-password : (p : Bytes) (off len cf : ℕ) → FitsRead (read_password p off len cf)
unfolding read_password
FitsRead-password p off len cf c h =
    if_keeps (λ (m : Reads Bytes). ClientFits (m c).0) (bit cf 6)
      (FitsRead-on (c, read_str_copy p off len 64) _ h λ t e d k. k) h

FitsRead-connect : (p : Bytes) (off len : ℕ) → FitsRead (read_connect p off len)
unfolding read_connect
FitsRead-connect p off len c h0 =
    FitsRead-on (c, read_str p off len) _ h0
      λ r _ d h1.
        FitsRead-on (d, read_u8 p r.1 len) _ h1
          λ s _ e h2.
            FitsRead-on (e, read_u8 p s.1 len) _ h2
              λ x _ g h3.
                FitsRead-on (g, read_u16 p x.1 len) _ h3
                  λ y _ h h4.
                    FitsRead-on (h, read_str_copy p y.1 len max_client_id) _ h4
                      λ z _ i h5.
                        let named = record i { client_id = z.0 } in
                        FitsRead-on (read_will p z.1 len x.0 named) _
                          (FitsRead-will p z.1 len x.0 named h5)
                          λ o6 _ j h6.
                            FitsRead-on (read_username p o6 len x.0 j) _
                              (FitsRead-username p o6 len x.0 j h6)
                              λ o7 _ k h7.
                                FitsRead-on (read_password p o7 len x.0 k) _
                                  (FitsRead-password p o7 len x.0 k h7) λ password _ l h8. h8

evict_at-Safe : (b : Broker) (ci : ℕ) (old : Option ℕ) → Safe b → Returns Safe (evict_at b ci old)
evict_at-Safe b ci none s = s
evict_at-Safe b ci (some old) s = if_keeps (Returns Safe) (old == ci) s (close_client-Safe b old s)

evict-Safe : (b : Broker) (ci rc : ℕ) (clean : Bool) → Safe b → Returns Safe (evict b ci rc clean)
unfolding evict
evict-Safe b ci rc clean s =
    if_keeps (Returns Safe) (rc == 0 && clean)
      (evict_at-Safe b ci (find_client_by_id b (client_at b ci).client_id) s) s

send_connack-Safe : (b : Broker) (ci rc : ℕ) (r : Request) → Safe b → Safe (send_connack b ci rc r)
unfolding send_connack
send_connack-Safe b ci rc r s =
    let c = record (client_at b ci) {
      keepalive_sec = r.keepalive;
      clean_session = r.clean_session;
    } in
    queue_and_flush-Safe (put_client b ci c) ci (enc_connack 0 rc)
      (put_client-Safe b ci c s (s.0 ci))

accept_client-Safe : (b : Broker) (ci : ℕ) → Safe b → Safe (accept_client b ci)
unfolding accept_client
accept_client-Safe b ci s =
    let c = record (client_at b ci) { state = connack_sent; connected_at_ms = now_ms b } in
    let b' = record_effect b clock_read in
    emit-Safe (put_client b' ci c) (connected c.client_id) (put_client-Safe b' ci c s (s.0 ci))

finish_connect-Safe :
    (b : Broker) (ci rc : ℕ) (r : Request) → Safe b → Safe (finish_connect b ci rc r)
unfolding finish_connect
finish_connect-Safe b ci rc r s =
    let b' = send_connack b ci rc r in
    let s' = send_connack-Safe b ci rc r s in
    if_keeps Safe (rc == 0) (accept_client-Safe b' ci s')
      (emit-Safe b' (refused (client_at b' ci).client_id rc) s')

answer_connect-Safe :
    (b : Broker) (ci : ℕ) (r : Request) → Safe b → Returns (λ x. Safe x.0) (answer_connect b ci r)
unfolding answer_connect
answer_connect-Safe b ci r s =
    let rc = return_code b (client_at b ci) r in
    let tested : Broker = record b { log = log_tests b (client_at b ci) r } in
    Returns-bind Safe (λ x. Safe x.0) (evict tested ci rc r.clean_session) _
      (evict-Safe tested ci rc r.clean_session s) (λ b' s'. finish_connect-Safe b' ci rc r s')

connect_read-Safe :
    (b : Broker) (ci : ℕ) (x : Client × Option Request)
    → Safe b
    → ClientFits x.0
    → Returns (λ x. Safe x.0) (connect_read b ci x)
connect_read-Safe b ci (c, none) s h = put_client-Safe b ci c s h
connect_read-Safe b ci (c, some r) s h =
    answer_connect-Safe (put_client b ci c) ci r (put_client-Safe b ci c s h)

pub handle_connect-Safe :
    (b : Broker) (ci off len : ℕ) → Safe b → Returns (λ x. Safe x.0) (handle_connect b ci off len)
unfolding handle_connect
handle_connect-Safe b ci off len s =
    let c = client_at b ci in
    connect_read-Safe b ci (read_connect c.recv_buf off len c) s
      (FitsRead-connect c.recv_buf off len c (s.0 ci))
