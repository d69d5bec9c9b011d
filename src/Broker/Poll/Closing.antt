-- ===== src/Broker/Poll/Closing.antt =====
-- branch_broker.h, lines 15 to 31: closing a client, and the descriptors of the others.
use arbor_mq.Base.{
  ℕ, zero, suc, ◌≡◌, ◌≢◌, refl, sym, ap, ◌∙◌, subst, not, ◌&&◌, Option, none, some, List, [], ◌∷◌,
  set, get_or, get_or-set_rel, get_or-set_ne, Ensures, Ensures-if, Ensures-bind, Bytes, Grows,
  Grows-refl, Grows-cons, Grows-trans, Enters, Enters-early, Enters-late, Enters-now,
}
use arbor_mq.Broker.State.{
  Broker, Client, Effect, closed, zero_client, client_at, put_client, will_triggered,
}
use arbor_mq.Broker.Keeps.{Kept, Through, Through-same, Through-forward_subs}
use arbor_mq.Broker.Forward.{
  forward, branch_publish, close_client, close_fd, close_fd_at, trigger_will, is_will_triggered,
}

-- The descriptor is the same.
abbrev SameFd : Client → Client → Type 0
SameFd c c' = c'.fd ≡ c.fd

SameFd-Kept : Kept SameFd
SameFd-Kept = record {
  same = λ c. refl;
  chain = λ c d e p q. q ∙ p;
  output = λ c bytes off s. refl;
  tracked = λ c qi q h e. refl;
}

-- The descriptors of all clients and of the listener are the same, and the log grows.
abbrev KeepsFds : Broker → Broker → Type 0
KeepsFds b b' =
    ((j : ℕ) → (client_at b' j).fd ≡ (client_at b j).fd)
    × (b'.listen_fd ≡ b.listen_fd)
    × Grows b.log b'.log

KeepsFds-forward :
    (b : Broker) (from : Option ℕ) (topic payload : Bytes) (qos retain : ℕ)
    → Ensures (KeepsFds b) (forward b from topic payload qos retain)
unfolding forward
KeepsFds-forward b from topic payload qos retain =
    Ensures-bind (Through SameFd b) (KeepsFds b) _ _
      (Through-forward_subs SameFd-Kept b.subs b b from topic payload qos retain
        (Through-same SameFd-Kept b))
      (λ b' t. (t.each, t.listen_fd, t.grows))

KeepsFds-trigger_will : (b : Broker) (i : ℕ) → Ensures (KeepsFds b) (trigger_will b i)
unfolding trigger_will branch_publish
KeepsFds-trigger_will b i =
    let c = client_at b i in
    Ensures-if (c.has_will && not (is_will_triggered c.state)) (KeepsFds b) _ (some b)
      (Ensures-bind (KeepsFds b) (KeepsFds b) _ _
        (KeepsFds-forward b none c.will_topic c.will_payload c.will_qos c.will_retain)
        (λ b' (each, listen, grows). (λ j. marked b' j ∙ each j, listen, grows)))
      (λ j. refl, refl, Grows-refl b.log)
  where
    marked :
        (b' : Broker) (j : ℕ)
        → (client_at (put_client b' i (record (client_at b' i) { state = will_triggered })) j).fd
          ≡ (client_at b' j).fd
    marked b' j =
        get_or-set_rel SameFd b'.clients i j (record (client_at b' i) { state = will_triggered })
          zero_client (λ c. refl) refl

get_or-set_default :
    (cs : List Client) (i : ℕ) → get_or (set cs i zero_client) i zero_client ≡ zero_client
get_or-set_default [] i = refl
get_or-set_default (c ∷ cs) zero = refl
get_or-set_default (c ∷ cs) (suc i) = get_or-set_default cs i

-- The descriptor, if there is one, has been closed since the log was `log`.
abbrev pub IsClosed : Option ℕ → List Effect → List Effect → Type 0
IsClosed none log log' = Unit {0}
IsClosed (some fd) log log' = Enters (closed (some fd)) log log'

pub IsClosed-late :
    (o : Option ℕ) (log mid end : List Effect)
    → IsClosed o log mid
    → Grows mid end
    → IsClosed o log end
IsClosed-late none log mid end c g = tt
IsClosed-late (some fd) log mid end c g = Enters-late (closed (some fd)) log mid end c g

pub IsClosed-early :
    (o : Option ℕ) (log mid end : List Effect)
    → Grows log mid
    → IsClosed o mid end
    → IsClosed o log end
IsClosed-early none log mid end g c = tt
IsClosed-early (some fd) log mid end g c = Enters-early (closed (some fd)) log mid end g c

-- Client `i` is closed: its descriptor has been closed and is gone, and the others are the same.
abbrev pub Closes : ℕ → Broker → Broker → Type 0
Closes i b b' =
    Grows b.log b'.log
    × ((client_at b' i).fd ≡ none)
    × IsClosed (client_at b i).fd b.log b'.log
    × ((j : ℕ) → i ≢ j → (client_at b' j).fd ≡ (client_at b j).fd)
    × (b'.listen_fd ≡ b.listen_fd)

-- The descriptor on its own.
abbrev ClosesFd : ℕ → Broker → Broker → Type 0
ClosesFd i b b' =
    Grows b.log b'.log
    × IsClosed (client_at b i).fd b.log b'.log
    × ((j : ℕ) → i ≢ j → (client_at b' j).fd ≡ (client_at b j).fd)
    × (b'.listen_fd ≡ b.listen_fd)

close_fd_at-ClosesFd :
    (b : Broker) (i : ℕ) (o : Option ℕ) → (client_at b i).fd ≡ o → ClosesFd i b (close_fd_at b i o)
close_fd_at-ClosesFd b i none e =
    (Grows-refl b.log, subst (λ o. IsClosed o b.log b.log) (sym e) tt, λ j n. refl, refl)
close_fd_at-ClosesFd b i (some fd) e = (
  Grows-cons (closed (some fd)) b.log b.log (Grows-refl b.log),
  subst (λ o. IsClosed o b.log (closed (some fd) ∷ b.log)) (sym e)
      (Enters-now (closed (some fd)) b.log),
  λ j n.
      ap (λ (c : Client). c.fd)
        (get_or-set_ne b.clients i j (record (client_at b i) { fd = none }) zero_client n),
  refl,
)

pub close_client-Closes : (b : Broker) (i : ℕ) → Ensures (Closes i b) (close_client b i)
unfolding close_client close_fd
close_client-Closes b i =
    let d = close_fd b i in
    let (grown, shut, others, listen) = close_fd_at-ClosesFd b i (client_at b i).fd refl in
    Ensures-bind (KeepsFds d) (Closes i b) (trigger_will d i) _ (KeepsFds-trigger_will d i)
      (λ b' (each, listening, grows). (
        Grows-trans b.log d.log b'.log grown grows,
        ap (λ (c : Client). c.fd) (get_or-set_default b'.clients i),
        IsClosed-late (client_at b i).fd b.log d.log b'.log shut grows,
        λ j n.
            ap (λ (c : Client). c.fd) (get_or-set_ne b'.clients i j zero_client zero_client n)
            ∙ each j
            ∙ others j n,
        listening ∙ listen,
      ))
