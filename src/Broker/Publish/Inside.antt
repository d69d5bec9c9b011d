-- ===== src/Broker/Publish/Inside.antt =====
-- branch_codec.h, lines 21 to 31 and 238 to 270: what is read of a PUBLISH packet lies in the packet.
use arbor_mq.Base.{
  ℕ, ◌+◌, ◌-◌, ◌%◌, ◌≤◌, ◌≡◌, refl, ap, Bool, true, false, Option, none, some, ltb, leb,
  if◌then◌else◌, ◌>>=◌, Bytes, length, length-take, drop, arith, bit_or, shl, shr,
}
use arbor_mq.Wire.{byte_at, slice, read_u16, read_str}
use arbor_mq.Broker.Publish.{Message, read_pid, read_publish}

abbrev pub pid_size : ℕ → ℕ
pid_size qos = if ltb 0 qos then 2 else 0

abbrev word_at : Bytes → ℕ → ℕ
word_at p off = bit_or (shl (byte_at p off) 8) (byte_at p (off + 1))

abbrev text_at : Bytes → ℕ → ℕ × ℕ → Option (Bytes × ℕ)
text_at p len (n, start) = if ltb len (start + n) then none else some (slice p start n, start + n)

text_at_inside :
    (p s : Bytes) (len n start o : ℕ)
    → text_at p len (n, start) ≡ some (s, o)
    → (start + length s ≤ o) × (o ≤ len)
text_at_inside p s len n start o e = at (ltb len (start + n)) refl e
  where
    at :
        (u : Bool)
        → ltb len (start + n) ≡ u
        → ◌≡◌ {A = Option (Bytes × ℕ)}
            (if u then none else some (slice p start n, start + n))
            (some (s, o))
        → (start + length s ≤ o) × (o ≤ len)
    at true h q = cc
    at false h q =
        let same : slice p start n ≡ s = cc in
        let end : start + n ≡ o = cc in ground (arith, ap length same, length-take n (drop start p))

-- What is read lies in the packet.
read_str_inside :
    (p s : Bytes) (off len o : ℕ)
    → read_str p off len ≡ some (s, o)
    → (off + 2 + length s ≤ o) × (o ≤ len)
unfolding read_str read_u16
read_str_inside p s off len o e = at (leb len (off + 1)) e
  where
    at :
        (t : Bool)
        → ((if t then none else some (word_at p off, off + 2)) >>= text_at p len) ≡ some (s, o)
        → (off + 2 + length s ≤ o) × (o ≤ len)
    at true q = cc
    at false q = text_at_inside p s len (word_at p off) (off + 2) o q

read_pid_inside :
    (p : Bytes) (qos off len pid o : ℕ)
    → off ≤ len
    → read_pid p qos off len ≡ some (pid, o)
    → (off + pid_size qos ≤ o) × (o ≤ len)
unfolding read_u16
read_pid_inside p qos off len pid o h e = at (ltb 0 qos) e
  where
    at :
        (t : Bool)
        → ◌≡◌ {A = Option (ℕ × ℕ)}
            (if t
              then (if leb len (off + 1) then none else some (word_at p off, off + 2))
              else some (0, off))
            (some (pid, o))
        → (off + (if t then 2 else 0) ≤ o) × (o ≤ len)
    at true q = ground arith
    at false q = ground arith

abbrev message_end : Bytes → ℕ → ℕ → Bytes → ℕ × ℕ → Option Message
message_end p flags len topic (pid, o) = some (record {
  qos = shr flags 1 % 4;
  retain = flags % 2;
  topic = topic;
  pid = pid;
  payload = slice p o (len - o);
})

abbrev message_at : Bytes → ℕ → ℕ → Bytes × ℕ → Option Message
message_at p flags len (topic, o) =
    read_pid p (shr flags 1 % 4) o len >>= message_end p flags len topic

pub read_publish_inside :
    (p : Bytes) (flags off len : ℕ) (m : Message)
    → read_publish p flags off len ≡ some m
    → off + 2 + length m.topic + pid_size m.qos + length m.payload ≤ len
unfolding read_publish
read_publish_inside p flags off len m e = at (read_str p off len) refl e
  where
    behind_pid :
        (topic : Bytes) (o1 : ℕ) (x : Option (ℕ × ℕ))
        → (off + 2 + length topic ≤ o1) × (o1 ≤ len)
        → read_pid p (shr flags 1 % 4) o1 len ≡ x
        → (x >>= message_end p flags len topic) ≡ some m
        → off + 2 + length m.topic + pid_size m.qos + length m.payload ≤ len
    behind_pid topic o1 none h q e = cc
    behind_pid topic o1 (some (pid, o2)) h q e =
        let inside = read_pid_inside p (shr flags 1 % 4) o1 len pid o2 h.1 q in
        let same : record {
          qos = shr flags 1 % 4;
          retain = flags % 2;
          topic = topic;
          pid = pid;
          payload = slice p o2 (len - o2);
        }
            ≡ m =
          cc in
        omega (
          arith,
          h,
          inside,
          ap (λ (x : Message). length x.topic) same,
          ap (λ (x : Message). pid_size x.qos) same,
          ap (λ (x : Message). length x.payload) same,
          length-take (len - o2) (drop o2 p),
        )

    at :
        (x : Option (Bytes × ℕ))
        → read_str p off len ≡ x
        → (x >>= message_at p flags len) ≡ some m
        → off + 2 + length m.topic + pid_size m.qos + length m.payload ≤ len
    at none q e = cc
    at (some (topic, o1)) q e =
        behind_pid topic o1 (read_pid p (shr flags 1 % 4) o1 len)
          (read_str_inside p topic off len o1 q) refl e
