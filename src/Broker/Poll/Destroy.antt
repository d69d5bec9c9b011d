-- ===== src/Broker/Poll/Destroy.antt =====
-- branch_broker.h, lines 283 to 290: closing all connections.
use arbor_mq.Base.{
  ℕ, zero, suc, ◌+◌, ◌≤◌, ◌<◌, ◌≡◌, refl, sym, ◌∙◌, subst, false, Option, none, some, ◌∷◌,
  if◌then◌else◌, arith, Bool, true, Bool-cases, inl, inr, Ensures, Ensures-bind, Grows, Grows-refl,
  Grows-cons, Grows-trans, Enters-early, Enters-now,
}
use native.Mathlib.Decide.{ℕ_discrete}
use arbor_mq.Broker.State.{
  Broker, Event, event, closed, client_at, emit, emit_if, shutting_down, max_clients,
}
use arbor_mq.Broker.Tables.{is_open}
use arbor_mq.Broker.Forward.{close_client}
use arbor_mq.Broker.Poll.{close_clients, close_listen_fd, branch_destroy}
use arbor_mq.Broker.Poll.Closing.{
  Closes, IsClosed, IsClosed-late, IsClosed-early, close_client-Closes,
}

-- The clients below `n` are closed since `b`, and the others are as they were.
record ClosedBelow (n : ℕ) (b b' : Broker) : Type 0 where
  grows : Grows b.log b'.log
  gone : (j : ℕ) → j < n → (client_at b' j).fd ≡ none
  shut : (j : ℕ) → j < n → IsClosed (client_at b j).fd b.log b'.log
  rest : (j : ℕ) → n ≤ j → (client_at b' j).fd ≡ (client_at b j).fd
  listen : b'.listen_fd ≡ b.listen_fd

not_open : (o : Option ℕ) → is_open o ≡ false → o ≡ none
not_open none h = refl
not_open (some fd) h = cc

-- A client that is not open has nothing to close.
Closes-nothing : (b : Broker) (i : ℕ) → (client_at b i).fd ≡ none → Closes i b b
Closes-nothing b i e =
    (Grows-refl b.log, e, subst (λ o. IsClosed o b.log b.log) (sym e) tt, λ j n. refl, refl)

Closes-if :
    (b : Broker) (i : ℕ)
    → Ensures (Closes i b) (if is_open (client_at b i).fd then close_client b i else some b)
Closes-if b i = elim (Bool-cases (is_open (client_at b i).fd)) [
  | inl h ↦ rw (h) (close_client-Closes b i)
  | inr h ↦ rw (h) (Closes-nothing b i (not_open (client_at b i).fd h))
]

ClosedBelow-step :
    (n : ℕ) (a b c : Broker) → ClosedBelow n a b → Closes n b c → ClosedBelow (n + 1) a c
ClosedBelow-step n a b c s (grown, gone, shut, others, listen) = record {
  grows = Grows-trans a.log b.log c.log s.grows grown;
  gone = λ j k. elim (ℕ_discrete n j) [
    | yes q ↦ subst (λ x. (client_at c x).fd ≡ none) q gone
    | no q ↦ others j q ∙ s.gone j (omega (arith, k, q))
  ];
  shut = λ j k. elim (ℕ_discrete n j) [
    | yes q ↦
        subst (λ x. IsClosed (client_at a x).fd a.log c.log) q
          (IsClosed-early (client_at a n).fd a.log b.log c.log s.grows
            (subst (λ o. IsClosed o b.log c.log) (s.rest n (omega arith)) shut))
    | no q ↦
        IsClosed-late (client_at a j).fd a.log b.log c.log (s.shut j (omega (arith, k, q))) grown
  ];
  rest = λ j k. others j (λ q. absurd (omega (arith, q, k))) ∙ s.rest j (omega (arith, k));
  listen = listen ∙ s.listen;
}

ClosedBelow-close_clients :
    (rounds i : ℕ) (a b : Broker)
    → ClosedBelow i a b
    → Ensures (ClosedBelow (i + rounds) a) (close_clients rounds i b)
unfolding close_clients
ClosedBelow-close_clients zero i a b s = subst (λ n. ClosedBelow n a b) (omega arith) s
ClosedBelow-close_clients (suc rounds) i a b s =
    Ensures-bind (Closes i b) (ClosedBelow (i + suc rounds) a) _ _ (Closes-if b i) (λ c t.
      subst (λ n. Ensures (ClosedBelow n a) (close_clients rounds (i + 1) c)) (omega arith)
        (ClosedBelow-close_clients rounds (i + 1) a c (ClosedBelow-step i a b c s t)))

-- All sockets of the broker `b` are closed: each descriptor of a client and of the listener has been
-- closed in the calls since, and is gone.
abbrev pub ClosesAll : Broker → Broker → Type 0
ClosesAll b b' =
    ((j : ℕ)
      → j < max_clients
      → ((client_at b' j).fd ≡ none) × IsClosed (client_at b j).fd b.log b'.log)
    × (b'.listen_fd ≡ none)
    × IsClosed b.listen_fd b.log b'.log

-- The listener is closed last.
ClosesAll-listener :
    (b c : Broker) (o : Option ℕ)
    → c.listen_fd ≡ o
    → ClosedBelow max_clients b c
    → ClosesAll b (close_listen_fd c o)
ClosesAll-listener b c none e s =
    (λ j k. (s.gone j k, s.shut j k), e, subst (λ o. IsClosed o b.log c.log) (sym e ∙ s.listen) tt)
ClosesAll-listener b c (some fd) e s =
    let last = Grows-cons (closed (some fd)) c.log c.log (Grows-refl c.log) in
    (
      λ j k. (
        s.gone j k,
        IsClosed-late (client_at b j).fd b.log c.log (closed (some fd) ∷ c.log) (s.shut j k) last,
      ),
      refl,
      subst (λ o. IsClosed o b.log (closed (some fd) ∷ c.log)) (sym e ∙ s.listen)
          (Enters-early (closed (some fd)) b.log c.log (closed (some fd) ∷ c.log) s.grows
            (Enters-now (closed (some fd)) c.log)),
    )

emit-ClosedBelow : (b : Broker) (e : Event) → ClosedBelow 0 b (emit b e)
emit-ClosedBelow b e = on_event b.os.on_event
  where
    on_event : (on : Bool) → ClosedBelow 0 b (emit_if on b e)
    on_event true = record {
      grows = Grows-cons (event e) b.log b.log (Grows-refl b.log);
      gone = λ j k. absurd (omega arith);
      shut = λ j k. absurd (omega arith);
      rest = λ j k. refl;
      listen = refl;
    }
    on_event false = record {
      grows = Grows-refl b.log;
      gone = λ j k. absurd (omega arith);
      shut = λ j k. absurd (omega arith);
      rest = λ j k. refl;
      listen = refl;
    }

-- Where it does not fault, `branch_destroy` closes all sockets of the broker.
pub branch_destroy-ClosesAll : (b : Broker) → Ensures (ClosesAll b) (branch_destroy b)
unfolding branch_destroy
branch_destroy-ClosesAll b =
    let a = emit b shutting_down in
    Ensures-bind (ClosedBelow max_clients b) (ClosesAll b) (close_clients max_clients 0 a) _
      (ClosedBelow-close_clients max_clients 0 b a (emit-ClosedBelow b shutting_down))
      (λ c s. ClosesAll-listener b c c.listen_fd refl s)
