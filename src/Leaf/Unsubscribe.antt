-- ===== src/Leaf/Unsubscribe.antt =====
-- leaf_codec.h, lines 151 to 161, and branch_codec.h, lines 387 to 410: the broker unsubscribes its client
-- as the client library asks.
use arbor_mq.Base.{
  ℕ, zero, suc, ◌+◌, ◌-◌, ◌%◌, ◌≤◌, ◌<◌, ◌≡◌, refl, ap, ◌∙◌, true, false, [], ◌∷◌, ◌++◌,
  append_assoc, ltb, Bytes, length, length-append, drop, drop-append_self, drop_past, shl, bit_or,
  arith,
}
use arbor_mq.Wire.{read_u16, write_u8, write_u16, encode_remaining}
use arbor_mq.Wire.Fields.{u16, read_u16-drop, read_str-drop, write_str-append}
use arbor_mq.Packet.{t_pkt_unsubscribe, enc_unsuback}
use arbor_mq.Broker.State.{Broker, client_at}
use arbor_mq.Broker.Send.{success, queue_and_flush}
use arbor_mq.Broker.Subscribe.{unsubscribe, unsubscribe_loop, unsubscribe_read, handle_unsubscribe}
use arbor_mq.Leaf.{encode_unsubscribe}

abbrev unsubscribe_head : Bytes → Bytes
unsubscribe_head topic =
    bit_or (shl t_pkt_unsubscribe 4) 2 % 256 ∷ encode_remaining (2 + 2 + length topic % 65536)

encode_unsubscribe-parts :
    (topic rest : Bytes) (pid : ℕ)
    → length topic < 65536
    → encode_unsubscribe topic pid ++ rest
      ≡ unsubscribe_head topic ++ (u16 pid ++ (u16 (length topic) ++ (topic ++ rest)))
unfolding encode_unsubscribe write_u8 write_u16
encode_unsubscribe-parts topic rest pid h =
    rw (write_str-append (unsubscribe_head topic ++ u16 pid) topic h) (simp append_assoc)

length-encode_unsubscribe :
    (topic : Bytes) (pid : ℕ)
    → length topic < 65536
    → length (encode_unsubscribe topic pid) ≡ length (unsubscribe_head topic) + 4 + length topic
length-encode_unsubscribe topic pid h =
    let parts = ap length (encode_unsubscribe-parts topic [] pid h) in
    omega (
      arith,
      parts,
      length-append (encode_unsubscribe topic pid) [],
      length-append (unsubscribe_head topic) (u16 pid ++ (u16 (length topic) ++ (topic ++ []))),
      length-append topic [],
    )

unsubscribe_loop-end :
    (rounds : ℕ) (b : Broker) (ci : ℕ) (buf : Bytes) (off len : ℕ)
    → len ≤ off
    → unsubscribe_loop rounds b ci buf off len ≡ b
unfolding unsubscribe_loop
unsubscribe_loop-end zero b ci buf off len h = refl
unsubscribe_loop-end (suc rounds) b ci buf off len h =
    let over : ltb off len ≡ false = ground arith in rw over refl

unsubscribe_loop-one :
    (rounds : ℕ) (b : Broker) (ci : ℕ) (buf topic rest : Bytes) (off len : ℕ)
    → drop off buf ≡ u16 (length topic) ++ (topic ++ rest)
    → length topic < 65536
    → len ≡ off + 2 + length topic
    → 0 < rounds
    → unsubscribe_loop rounds b ci buf off len ≡ unsubscribe b ci topic
unfolding unsubscribe_loop
unsubscribe_loop-one zero b ci buf topic rest off len e h l r = absurd (omega (arith, r))
unsubscribe_loop-one (suc rounds) b ci buf topic rest off len e h l r =
    let inside : ltb off len ≡ true = ground (arith, l) in
    rw (inside, read_str-drop buf topic rest off len e h (omega (arith, l)))
      (unsubscribe_loop-end rounds (unsubscribe b ci topic) ci buf (off + 2 + length topic) len
        (omega (arith, l)))

-- An UNSUBSCRIBE packet that the client library encodes makes the broker unsubscribe the client from just
-- that topic filter, and answer with an UNSUBACK packet that has the packet id. This holds for
-- a filter of at most 65535 bytes, a 16-bit packet id, and whatever the receive buffer has behind the
-- packet.
pub handle_unsubscribe-encode_unsubscribe :
    (b : Broker) (ci : ℕ) (topic rest : Bytes) (pid : ℕ)
    → length topic < 65536
    → pid < 65536
    → (client_at b ci).recv_buf ≡ encode_unsubscribe topic pid ++ rest
    → handle_unsubscribe b ci
        (1 + length (encode_remaining (2 + 2 + length topic % 65536)))
        (length (encode_unsubscribe topic pid))
      ≡ (queue_and_flush (unsubscribe b ci topic) ci (enc_unsuback pid), success)
unfolding handle_unsubscribe
handle_unsubscribe-encode_unsubscribe b ci topic rest pid h i e =
    let head = unsubscribe_head topic in
    let filter_on : Bytes = u16 (length topic) ++ (topic ++ rest) in
    let buf = (client_at b ci).recv_buf in
    let n = length (encode_unsubscribe topic pid) in
    let size = length-encode_unsubscribe topic pid h in
    let at_pid =
      ap (drop (length head)) (e ∙ encode_unsubscribe-parts topic rest pid h)
      ∙ drop-append_self head (u16 pid ++ filter_on) in
    let at_filter = drop_past buf (length head) (u16 pid) filter_on at_pid in
    ap (λ o. unsubscribe_read b ci n (read_u16 buf o n))
      (start (length (encode_remaining (2 + 2 + length topic % 65536))))
    ∙ ap (unsubscribe_read b ci n)
        (read_u16-drop buf filter_on (length head) n pid at_pid i (omega (arith, size)))
    ∙ ap (λ b'. (queue_and_flush b' ci (enc_unsuback pid), success))
        (unsubscribe_loop-one (n - (length head + 2)) b ci buf topic rest (length head + 2) n
          at_filter h (omega (arith, size)) (omega (arith, size)))
  where
    start : (n : ℕ) → 1 + n ≡ suc n
    start n = omega arith
