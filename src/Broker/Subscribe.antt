-- ===== src/Broker/Subscribe.antt =====
-- branch_codec.h, lines 341 to 410: the handlers of SUBSCRIBE and UNSUBSCRIBE.
pub mod Removed
pub mod Rounds
use arbor_mq.Base.{
  ℕ, zero, suc, ◌+◌, ◌-◌, ◌%◌, Bool, true, false, ◌&&◌, Option, none, some, List, [], ◌∷◌, ◌++◌,
  ltb, if◌then◌else◌, ◌>>=◌, list_eq, Bytes, length, take, set, get_or,
}
use arbor_mq.Wire.{copy_str, read_u8, read_u16, read_str, write_u8, write_u16, fhdr}
use arbor_mq.Packet.{enc_unsuback, t_pkt_suback}
use arbor_mq.Broker.State.{
  Broker, Sub, unused_sub, max_topic, max_pending, client_at, put_client, put_sub,
}
use arbor_mq.Broker.Tables.{find_free_sub}
use arbor_mq.Broker.Send.{Status, success, failure, queue_and_flush}
use arbor_mq.Broker.Forward.{send_retained, release_sub}

-- One topic filter of the packet with its QoS byte, and the offset behind them.
unfoldable pub read_filter : Bytes → ℕ → ℕ → Option (Bytes × ℕ × ℕ)
read_filter p off len = do
  (topic_filter, o1) ← read_str p off len
  (rqos, o2) ← read_u8 p o1 len
  some (topic_filter, rqos, o2)

-- `c->sub_indices[c->sub_count++] = si`, while there is room.
unfoldable pub track_sub : Broker → ℕ → ℕ → Broker
track_sub b ci si =
    let c = client_at b ci in
    if ltb (length c.sub_indices) max_pending
    then put_client b ci (record c { sub_indices = c.sub_indices ++ si % 256 ∷ [] })
    else b

unfoldable pub fill_sub : Broker → ℕ → ℕ → Bytes → ℕ → Broker
fill_sub b ci si topic_filter rqos =
    track_sub
      (put_sub b si (record {
        topic_filter = copy_str max_topic topic_filter;
        client_idx = ci % 256;
        qos = rqos % 4;
        used = true;
      }))
      ci si

abbrev pub add_sub_at : Broker → ℕ → Option ℕ → Bytes → ℕ → ℕ → Option (Broker × ℕ)
add_sub_at b ci none topic_filter rqos rc_count = some (b, 0x80)
add_sub_at b ci (some si) topic_filter rqos rc_count =
    if ltb rc_count max_pending
    then send_retained (fill_sub b ci si topic_filter rqos) ci (copy_str max_topic topic_filter)
      >>= (λ b'. some (b', rqos % 4))
    else some (b, 0x80)

-- One subscription, and its return code; `rc_count` are there already.
unfoldable pub add_sub : Broker → ℕ → Bytes → ℕ → ℕ → Option (Broker × ℕ)
add_sub b ci topic_filter rqos rc_count =
    add_sub_at b ci (find_free_sub b) topic_filter rqos rc_count

-- One round of the loop; `next` is the loop from there on.
abbrev pub subscribe_next :
    (Broker → ℕ → Bytes → Option (Broker × Bytes))
    → Broker
    → ℕ
    → Bytes
    → Option (Bytes × ℕ × ℕ)
    → Option (Broker × Bytes)
subscribe_next next b ci rcs none = some (b, rcs)
subscribe_next next b ci rcs (some (topic_filter, rqos, o)) =
    add_sub b ci topic_filter rqos (length rcs) >>= (λ r. next r.0 o (rcs ++ r.1 ∷ []))

-- The `while` loop, with `rounds = 32 - rc_count`; the return codes of the packet.
unfoldable pub subscribe_loop : ℕ → Broker → ℕ → Bytes → ℕ → ℕ → Bytes → Option (Broker × Bytes)
subscribe_loop zero b ci p off len rcs = some (b, rcs)
subscribe_loop (suc rounds) b ci p off len rcs =
    if ltb off len
    then subscribe_next (λ b' o rcs'. subscribe_loop rounds b' ci p o len rcs') b ci rcs
        (read_filter p off len)
    else some (b, rcs)

abbrev pub write_all : Bytes → Bytes → Bytes
write_all out [] = out
write_all out (v ∷ vs) = write_all (write_u8 out v) vs

unfoldable pub suback : ℕ → Bytes → Bytes
suback pid rcs = write_all (write_u16 (fhdr t_pkt_suback 0 (2 + length rcs)) pid) rcs

abbrev pub subscribe_read : Broker → ℕ → ℕ → Option (ℕ × ℕ) → Option (Broker × Status)
subscribe_read b ci len none = some (b, failure)
subscribe_read b ci len (some (pid, off)) =
    subscribe_loop 32 b ci (client_at b ci).recv_buf off len []
    >>= (λ r. some (queue_and_flush r.0 ci (suback pid r.1), success))

unfoldable pub handle_subscribe : Broker → ℕ → ℕ → ℕ → Option (Broker × Status)
handle_subscribe b ci off len = subscribe_read b ci len (read_u16 (client_at b ci).recv_buf off len)

abbrev pub remove_last : List ℕ → List ℕ
remove_last xs = take (length xs - 1) xs

-- `c->sub_indices[i] = c->sub_indices[--c->sub_count]`
abbrev pub swap_remove : List ℕ → ℕ → List ℕ
swap_remove xs i = remove_last (set xs i (get_or xs (length xs - 1) 0))

abbrev pub is_for : Bytes → Sub → Bool
is_for topic_filter s = s.used && list_eq s.topic_filter topic_filter

-- The `for` loop over the client's subscriptions; `i--` after a removal makes the next round look at
-- the same place again. Each round lowers `sub_count - i`.
unfoldable pub remove_subs : ℕ → ℕ → Bytes → List ℕ → List Sub → List ℕ × List Sub
remove_subs zero i topic_filter indices subs = (indices, subs)
remove_subs (suc rounds) i topic_filter indices subs =
    let si = get_or indices i 0 in
    elim (ltb i (length indices)) [
      | false ↦ (indices, subs)
      | true ↦ elim (is_for topic_filter (get_or subs si unused_sub)) [
        | true ↦ remove_subs rounds i topic_filter (swap_remove indices i) (release_sub subs si)
        | false ↦ remove_subs rounds (i + 1) topic_filter indices subs
      ]
    ]

unfoldable pub unsubscribe : Broker → ℕ → Bytes → Broker
unsubscribe b ci topic_filter =
    let c = client_at b ci in
    let (indices, subs) =
      remove_subs (length c.sub_indices) 0 (copy_str max_topic topic_filter) c.sub_indices b.subs in
    put_client (record b { subs = subs }) ci (record c { sub_indices = indices })

abbrev pub unsubscribe_next : (Broker → ℕ → Broker) → Broker → ℕ → Option (Bytes × ℕ) → Broker
unsubscribe_next next b ci none = b
unsubscribe_next next b ci (some (topic_filter, o)) = next (unsubscribe b ci topic_filter) o

-- The `while` loop; a filter takes two bytes at least.
unfoldable pub unsubscribe_loop : ℕ → Broker → ℕ → Bytes → ℕ → ℕ → Broker
unsubscribe_loop zero b ci p off len = b
unsubscribe_loop (suc rounds) b ci p off len =
    if ltb off len
    then unsubscribe_next (λ b' o. unsubscribe_loop rounds b' ci p o len) b ci (read_str p off len)
    else b

abbrev pub unsubscribe_read : Broker → ℕ → ℕ → Option (ℕ × ℕ) → Broker × Status
unsubscribe_read b ci len none = (b, failure)
unsubscribe_read b ci len (some (pid, off)) =
    let b' = unsubscribe_loop (len - off) b ci (client_at b ci).recv_buf off len in
    (queue_and_flush b' ci (enc_unsuback pid), success)

unfoldable pub handle_unsubscribe : Broker → ℕ → ℕ → ℕ → Broker × Status
handle_unsubscribe b ci off len =
    unsubscribe_read b ci len (read_u16 (client_at b ci).recv_buf off len)
