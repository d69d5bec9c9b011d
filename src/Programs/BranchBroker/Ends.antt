-- ===== src/Programs/BranchBroker/Ends.antt =====
-- branch/main.c, lines 24 to 49: how the broker program ends.
use arbor_mq.Base.{ℕ, suc, ◌≡◌, Option, none, some}
use arbor_mq.Broker.State.{Broker}
use arbor_mq.Broker.Send.{Status}
use arbor_mq.Broker.Forward.{branch_client_count}
use arbor_mq.Broker.Poll.{branch_poll}
use arbor_mq.Broker.Poll.Destroy.{ClosesAll}
use arbor_mq.Broker.Safe.Poll.{PollFaults}
use arbor_mq.Broker.Safe.Reachable.{Reachable}
use arbor_mq.Programs.BranchBroker.{serve, Exit, no_broker, served}

-- One of the polls has a reason to fault.
pub data ServeMeets : ℕ → Broker → Type 0 where
  at_once :
      {rounds : ℕ} {b : Broker} → PollFaults b (some 1000) b.listen_fd → ServeMeets (suc rounds) b
  after_poll :
      {rounds : ℕ} {b : Broker} (b' : Broker) (s : Status)
      → branch_poll b (some 1000) ≡ some (b', s)
      → ServeMeets rounds b'
      → ServeMeets (suc rounds) b

-- There was no broker, or it has served all rounds, and then all its sockets have been closed. The
-- number of clients is the one before.
abbrev pub EndsClosed : ℕ → Option Broker → Exit → Type 0
EndsClosed rounds o no_broker = o ≡ none
EndsClosed rounds none (served n b') = ⊥
EndsClosed rounds (some b0) (served n b') =
    (b : Broker) × (serve rounds b0 ≡ some b) × (n ≡ branch_client_count b) × ClosesAll b b'

-- One of the polls of the program, from the broker that it creates, has a reason to fault.
abbrev pub MeetsWhileServing : ℕ → Option Broker → Type 0
MeetsWhileServing rounds none = ⊥
MeetsWhileServing rounds (some b) = ServeMeets rounds b
