-- ===== src/Broker/Poll/Accept.antt =====
-- New connections, and the list of the clients.
use arbor_mq.Base.{
  ◌++◌, ◌-◌, ◌/◌, ◌%◌, ◌^◌, get_or, take, replicate, ℕ, suc, ◌+◌, ◌≡◌, ◌≢◌, refl, sym, ap, ◌∙◌,
  Bool, true, false, not, Option, none, some, List, [], ◌∷◌, if◌then◌else◌, get_or-set_ne, arith,
}
use arbor_mq.Broker.State.{
  Broker, Client, zero_client, client_at, record_effect, accept_tried, clock_read,
}
use arbor_mq.Broker.Tables.{find_free_client, is_open}
use arbor_mq.Broker.Search.{find_index_sound}
use arbor_mq.Broker.Poll.{ClientInfo, take_slot, accepted, accept_connection, get_clients, info_of}

find_free_client-closed :
    (b : Broker) (ci : ℕ) → find_free_client b ≡ some ci → is_open (client_at b ci).fd ≡ false
unfolding find_free_client
find_free_client-closed b ci e =
    let h = (find_index_sound (λ (c : Client). not (is_open c.fd)) b.clients ci zero_client e).0 in
    ground arith

take_slot-keeps :
    (b : Broker) (newfd j : ℕ) (r : Option ℕ)
    → find_free_client b ≡ r
    → is_open (client_at b j).fd ≡ true
    → client_at (take_slot b newfd r) j ≡ client_at b j
take_slot-keeps b newfd j none e h = refl
take_slot-keeps b newfd j (some ci) e h = get_or-set_ne b.clients ci j _ zero_client other
  where
    other : ci ≢ j
    other q =
        clash
          (sym h ∙ ap (λ i. is_open (client_at b i).fd) (sym q) ∙ find_free_client-closed b ci e)
      where
        clash : true ≡ false → ⊥
        clash p = cc

accepted-keeps :
    (b : Broker) (r : Option ℕ) (j : ℕ)
    → is_open (client_at b j).fd ≡ true
    → client_at (accepted b r) j ≡ client_at b j
accepted-keeps b none j h = refl
accepted-keeps b (some newfd) j h = take_slot-keeps b newfd j (find_free_client b) refl h

-- A new connection changes no client that is open.
pub accept_connection-keeps :
    (b : Broker) (listen_fd j : ℕ)
    → is_open (client_at b j).fd ≡ true
    → client_at (accept_connection b listen_fd) j ≡ client_at b j
unfolding accept_connection
accept_connection-keeps b listen_fd j h =
    accepted-keeps (record_effect b (accept_tried listen_fd)) (b.os.accept b.log listen_fd) j h

-- The two branches of the loop, by the test.
abbrev pub get_open : ℕ → Client → List Client → Broker → Bool → List ClientInfo × Broker
get_open max c cs b t = elim t [
  | true ↦ let r = get_clients max cs (record_effect b clock_read) in (info_of b c ∷ r.0, r.1)
  | false ↦ get_clients (suc max) cs b
]

-- The clients of the table that have a connection, in order.
unfoldable pub open_clients : List Client → List Client
open_clients [] = []
open_clients (c ∷ cs) = let rest = open_clients cs in if is_open c.fd then c ∷ rest else rest

abbrev pub no_info : ClientInfo
no_info = record { client_id = []; connected_sec = 0 }

-- The entry at `k` shows the client at `k` of the list: at most 127 bytes of its id, and the whole
-- seconds since it was accepted, by a clock that has been read for each entry before.
abbrev pub Shows : Broker → List Client → ℕ → ClientInfo → Type 0
Shows b cs k info =
    let c = get_or cs k zero_client in
    let now = b.os.now_ms (replicate k clock_read ++ b.log) in
    (info.client_id ≡ take 127 c.client_id)
    × (info.connected_sec ≡ (now + 2 ^ 64 - c.connected_at_ms) % 2 ^ 64 / 1000 % 2 ^ 32)
