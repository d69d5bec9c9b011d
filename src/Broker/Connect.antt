-- ===== src/Broker/Connect.antt =====
-- branch_codec.h, lines 143 to 235: the CONNECT handler. Each field is stored into the client as soon
-- as it has been read, so a packet that breaks off leaves the fields before the break.
use arbor_mq.Base.{
  ℕ, ◌+◌, ◌*◌, ◌/◌, ◌%◌, ◌^◌, Bool, true, false, not, ◌&&◌, ◌||◌, Option, none, some, List, [], ◌∷◌,
  ◌==◌, ltb, if◌then◌else◌, list_eq, Bytes, shr, take, length,
}
use arbor_mq.Wire.{read_u8, read_u16, read_str, read_str_copy}
use arbor_mq.Packet.{enc_connack}
use arbor_mq.Broker.State.{
  Broker, Client, connack_sent, connected, refused, emit, clock_read, now_ms, record_effect,
  max_client_id, max_topic, max_will_payload, client_at, put_client, Effect, auth_asked,
}
use arbor_mq.Broker.Tables.{find_client_by_id}
use arbor_mq.Broker.Send.{Status, success, failure, queue_and_flush}
use arbor_mq.Broker.Forward.{close_client}
use arbor_mq.Base

-- Reading that stores into the client, and may break off.
abbrev pub Reads : Type 0 → Type 0
Reads A = Client → Client × Option A

abbrev pub bind_read : {A C : Type 0} → Client × Option A → (A → Reads C) → Client × Option C
bind_read (c, none) f = (c, none)
bind_read (c, some a) f = f a c

infixl 5 ◌>>=◌ ◌>>◌
abbrev pub ◌>>=◌ : {A C : Type 0} → Reads A → (A → Reads C) → Reads C
◌>>=◌ m f c = bind_read (m c) f

abbrev pub ◌>>◌ : {C : Type 0} → Reads (Unit {0}) → Reads C → Reads C
m >> k = m >>= λ _. k

abbrev pub lift : {A : Type 0} → Option A → Reads A
lift r c = (c, r)

abbrev pub pure : {A : Type 0} → A → Reads A
pure a c = (c, some a)

abbrev pub store : (Client → Client) → Reads (Unit {0})
store f c = (f c, some tt)

-- `(cf >> k) & 1`, as a test
abbrev pub bit : ℕ → ℕ → Bool
bit cf k = shr cf k % 2 == 1

-- What the rest of the handler uses of the packet.
pub record Request : Type 0 where
  pub proto_ok : Bool
  pub level : ℕ
  pub clean_session : Bool
  pub keepalive : ℕ
  pub password : Bytes

-- The Will fields, if the flag asks for them: the offset behind them.
unfoldable pub read_will : Bytes → ℕ → ℕ → ℕ → Reads ℕ
read_will p off len cf =
    if bit cf 2
    then (do
      (topic, o1) ← lift (read_str_copy p off len max_topic)
      store (λ c. record c { will_topic = topic })
      (payload, o2) ← lift (read_str p o1 len)
      store (λ c. record c {
        will_payload =
            take
              (if ltb (length payload) max_will_payload then length payload else max_will_payload)
              payload;
        will_qos = shr cf 3 % 4;
        will_retain = shr cf 5 % 2;
        has_will = true;
      })
      pure o2)
    else pure off

unfoldable pub read_username : Bytes → ℕ → ℕ → ℕ → Reads ℕ
read_username p off len cf =
    if bit cf 7
    then (do
      (name, o1) ← lift (read_str_copy p off len 64)
      store (λ c. record c { username = name })
      pure o1)
    else pure off

unfoldable pub read_password : Bytes → ℕ → ℕ → ℕ → Reads Bytes
read_password p off len cf =
    if bit cf 6
    then (do (password, _) ← lift (read_str_copy p off len 64); pure password)
    else pure []

unfoldable pub read_connect : Bytes → ℕ → ℕ → Reads Request
read_connect p off len = do
  (proto, o1) ← lift (read_str p off len)
  (level, o2) ← lift (read_u8 p o1 len)
  (cf, o3) ← lift (read_u8 p o2 len)
  (keepalive, o4) ← lift (read_u16 p o3 len)
  (client_id, o5) ← lift (read_str_copy p o4 len max_client_id)
  store (λ c. record c { client_id = client_id })
  o6 ← read_will p o5 len cf
  o7 ← read_username p o6 len cf
  password ← read_password p o7 len cf
  pure (record {
    proto_ok = list_eq proto (b'M' ∷ b'Q' ∷ b'T' ∷ b'T' ∷ []);
    level = level;
    clean_session = bit cf 1;
    keepalive = keepalive;
    password = password;
  })

abbrev pub is_empty : Bytes → Bool
is_empty [] = true
is_empty (c ∷ s) = false

-- No callback accepts everyone.
abbrev pub authorised :
    Option (List Effect → Bytes → Bytes → Bytes → Bool) → List Effect → Client → Bytes → Bool
authorised none log c password = true
authorised (some auth_cb) log c password = auth_cb log c.username password c.client_id

abbrev pub log_auth :
    Option (List Effect → Bytes → Bytes → Bytes → Bool) → List Effect → Client → Bytes → List Effect
log_auth none log c password = log
log_auth (some auth_cb) log c password = auth_asked c.username password c.client_id ∷ log

-- `rc`: 1 for the protocol, 2 for the client id, 4 for the login.
unfoldable pub return_code : Broker → Client → Request → ℕ
return_code b c r =
    if not r.proto_ok
    then 1
    else if not (r.level == 4)
    then 1
    else if is_empty c.client_id && not r.clean_session
    then 2
    else if not (authorised b.os.auth_cb b.log c r.password)
    then 4
    else 0

-- The log once the tests are done: the last of them calls the callback.
unfoldable pub log_tests : Broker → Client → Request → List Effect
log_tests b c r =
    if r.proto_ok && r.level == 4 && not (is_empty c.client_id && not r.clean_session)
    then log_auth b.os.auth_cb b.log c r.password
    else b.log

abbrev pub evict_at : Broker → ℕ → Option ℕ → Option Broker
evict_at b ci none = some b
evict_at b ci (some old) = if old == ci then some b else close_client b old

-- A clean session takes the place of the first open client that has the same id.
unfoldable pub evict : Broker → ℕ → ℕ → Bool → Option Broker
evict b ci rc clean_session =
    if rc == 0 && clean_session
    then evict_at b ci (find_client_by_id b (client_at b ci).client_id)
    else some b

-- `c->keepalive_sec = ka; c->clean_session = clean_session;` and the CONNACK.
unfoldable pub send_connack : Broker → ℕ → ℕ → Request → Broker
send_connack b ci rc r =
    let c = record (client_at b ci) {
      keepalive_sec = r.keepalive;
      clean_session = r.clean_session;
    } in
    queue_and_flush (put_client b ci c) ci (enc_connack 0 rc)

unfoldable pub accept_client : Broker → ℕ → Broker
accept_client b ci =
    let c = record (client_at b ci) { state = connack_sent; connected_at_ms = now_ms b } in
    emit (put_client (record_effect b clock_read) ci c) (connected c.client_id)

unfoldable pub finish_connect : Broker → ℕ → ℕ → Request → Broker
finish_connect b ci rc r =
    let b' = send_connack b ci rc r in
    if rc == 0 then accept_client b' ci else emit b' (refused (client_at b' ci).client_id rc)

-- What stands behind the reading.
unfoldable pub answer_connect : Broker → ℕ → Request → Option (Broker × Status)
answer_connect b ci r =
    let rc = return_code b (client_at b ci) r in
    let tested = record b { log = log_tests b (client_at b ci) r } in
    Base.◌>>=◌ (evict tested ci rc r.clean_session)
      (λ b'. some (finish_connect b' ci rc r, success))

abbrev pub connect_read : Broker → ℕ → Client × Option Request → Option (Broker × Status)
connect_read b ci (c, none) = some (put_client b ci c, failure)
connect_read b ci (c, some r) = answer_connect (put_client b ci c) ci r

unfoldable pub handle_connect : Broker → ℕ → ℕ → ℕ → Option (Broker × Status)
handle_connect b ci off len =
    let c = client_at b ci in connect_read b ci (read_connect c.recv_buf off len c)
