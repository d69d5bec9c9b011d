-- ===== src/Leaf/Poll/Alive.antt =====
-- leaf_client.h, lines 85 to 94 and 311 to 329: the keepalive test behind the reading.
use arbor_mq.Base.{
  leb, ℕ, ◌+◌, ◌*◌, ◌^◌, ◌≤◌, ◌<◌, ◌≡◌, refl, sym, ap, ◌∙◌, Bool, true, false, ◌&&◌, Option, some,
  List, [], ◌∷◌, ltb, Returns, if_keeps, arith, if◌then◌else◌, Bool-cases, inl, inr, subst,
}
use arbor_mq.Broker.State.{selected}
use arbor_mq.Broker.Send.{Status, success, failure}
use arbor_mq.Broker.Poll.{is_set}
use arbor_mq.Leaf.State.{
  Leaf, Config, Phase, disconnected, call_if, disconnected_event, call, now_ms, clock_read,
  select_tried,
}
use arbor_mq.Leaf.Connect.{keepalive_of}
use arbor_mq.Leaf.Network.{same_phase, fire_disconnect, leaf_reset}
use arbor_mq.Leaf.Poll.{
  since, is_waiting, is_silent, ping_if_idle, keep_alive, on_readable, after_read, watched, poll_fd,
  reconnect, leaf_poll,
}

same_phase→eq : (p : Phase) → same_phase p disconnected ≡ true → p ≡ disconnected
same_phase→eq p h = ground arith

fire_disconnect-disconnected : (c : Leaf) → (fire_disconnect c).state ≡ disconnected
unfolding fire_disconnect leaf_reset
fire_disconnect-disconnected c = elim (Bool-cases (same_phase c.state disconnected)) [
  | inl h ↦ ap (λ t. (after t).state) h ∙ same_phase→eq c.state h
  | inr h ↦ ap (λ t. (after t).state) h ∙ kept c.on_disconnect (leaf_reset c)
]
  where
    after : Bool → Leaf
    after t = if t then c else call_if c.on_disconnect (leaf_reset c) disconnected_event

    kept : (t : Bool) (d : Leaf) → (call_if t d disconnected_event).state ≡ d.state
    kept true d = refl
    kept false d = refl

ping_if_idle-kept :
    (c : Leaf) (now : ℕ)
    → ((ping_if_idle c now).last_recv_ms ≡ c.last_recv_ms) × ((ping_if_idle c now).cfg ≡ c.cfg)
unfolding ping_if_idle
ping_if_idle-kept c now =
    let ka = keepalive_of c.cfg in
    if_keeps (λ (d : Leaf). (d.last_recv_ms ≡ c.last_recv_ms) × (d.cfg ≡ c.cfg))
      (ltb 0 ka && ltb (ka * 1000) (since now c.last_send_ms)) (refl, refl) (refl, refl)

-- The difference of the two times wraps.
silent_of_late :
    (c : Leaf) (now : ℕ)
    → now < c.last_recv_ms
    → c.last_recv_ms ≤ now + 2 ^ 63
    → c.cfg.keepalive_sec < 65536
    → is_silent c now ≡ true
unfolding is_silent
silent_of_late c now lo hi k = ground arith

keep_alive_of_late :
    (c : Leaf) (now : ℕ)
    → is_waiting c ≡ true
    → now < c.last_recv_ms
    → c.last_recv_ms ≤ now + 2 ^ 63
    → c.cfg.keepalive_sec < 65536
    → keep_alive c now ≡ (fire_disconnect (ping_if_idle c now), failure)
unfolding keep_alive
keep_alive_of_late c now w lo hi k =
    let pinged = ping_if_idle c now in
    let (last, cfg) = ping_if_idle-kept c now in
    let silent =
      silent_of_late pinged now (omega (arith, last)) (omega (arith, last))
        (omega (arith, ap (λ (x : Config). x.keepalive_sec) cfg)) in
    ap
      (λ t.
        if t
        then (if is_silent pinged now then (fire_disconnect pinged, failure) else (pinged, success))
        else (c, success))
      w
    ∙ ap (λ t. if t then (fire_disconnect pinged, failure) else (pinged, success)) silent

-- The client is disconnected, and the call reports a failure.
abbrev pub Drops : Leaf × Status → Type 0
Drops r = (r.1 ≡ failure) × (r.0.state ≡ disconnected)

read_late-Drops :
    (c : Leaf) (now : ℕ)
    → is_waiting c ≡ true
    → now < c.last_recv_ms
    → c.last_recv_ms ≤ now + 2 ^ 63
    → c.cfg.keepalive_sec < 65536
    → Returns Drops (after_read now (c, success))
read_late-Drops c now w lo hi k =
    rw (keep_alive_of_late c now w lo hi k)
      (refl, fire_disconnect-disconnected (ping_if_idle c now))

-- The client when `leaf_poll` has asked `select`.
abbrev pub asked : Leaf → ℕ → Option ℕ → Leaf
asked c fd timeout =
    call (record (call c clock_read) { last_poll_ms = now_ms c })
      (select_tried (fd ∷ []) (watched c fd) timeout)

poll_fd-Drops :
    (c c' : Leaf) (fd now : ℕ) (timeout : Option ℕ) (rfds : List ℕ)
    → leb c.system.fd_setsize fd ≡ false
    → c.system.select c.log (fd ∷ []) (watched c fd) timeout ≡ selected rfds []
    → is_set fd rfds ≡ true
    → on_readable (call c (select_tried (fd ∷ []) (watched c fd) timeout)) ≡ some (c', success)
    → Returns Drops (after_read now (c', success))
    → Returns Drops (poll_fd c now timeout (some fd))
unfolding is_set
poll_fd-Drops c c' fd now timeout rfds i s r k d = rw i (rw s (rw r (rw k d)))

-- Where data arrives once `leaf_poll` has read the clock, so that the client receives it at a later
-- time, the call drops the connection it has just heard from: it fails and leaves the client
-- disconnected. This is so for a client with a connection, below `FD_SETSIZE`, whose `select`
-- reports data to read and no room to write, that has taken the data without an error and waits for
-- the broker, with a keepalive interval of 16 bits and the two times less than 2^63 apart.
pub leaf_poll-read_late :
    (c c' : Leaf) (fd : ℕ) (timeout : Option ℕ) (rfds : List ℕ)
    → same_phase c.state disconnected ≡ false
    → c.fd ≡ some fd
    → fd < c.system.fd_setsize
    → c.system.select (clock_read ∷ c.log) (fd ∷ []) (watched c fd) timeout ≡ selected rfds []
    → is_set fd rfds ≡ true
    → on_readable (asked c fd timeout) ≡ some (c', success)
    → is_waiting c' ≡ true
    → now_ms c < c'.last_recv_ms
    → c'.last_recv_ms ≤ now_ms c + 2 ^ 63
    → c'.cfg.keepalive_sec < 65536
    → Returns Drops (leaf_poll c timeout)
unfolding leaf_poll reconnect
leaf_poll-read_late c c' fd timeout rfds live f i s r k w lo hi ka = rw (live) (
    subst
      (λ t.
        Returns Drops
          (poll_fd (record (call c clock_read) { last_poll_ms = now_ms c }) (now_ms c) timeout t))
      (sym f)
      (poll_fd-Drops (record (call c clock_read) { last_poll_ms = now_ms c }) c' fd (now_ms c)
        timeout rfds (ground (arith, i)) s r k (read_late-Drops c' (now_ms c) w lo hi ka)))
