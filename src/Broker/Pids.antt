-- ===== src/Broker/Pids.antt =====
-- branch_broker.h, lines 9 to 13: the packet ids that the broker gives out.
use arbor_mq.Base.{ℕ, zero, suc, ◌+◌, ◌%◌, ◌≤◌, ◌<◌, ◌≡◌, ◌≢◌, arith}
use arbor_mq.Broker.State.{Broker}
use arbor_mq.Broker.Tables.{alloc_pid}

-- The broker after `n` packet ids.
unfoldable pub after_pids : ℕ → Broker → Broker
after_pids zero b = b
after_pids (suc n) b = (alloc_pid (after_pids n b)).1

-- The packet id that follows those.
abbrev pub pid_at : ℕ → Broker → ℕ
pid_at n b = (alloc_pid (after_pids n b)).0

alloc_pid-closed :
    (b : Broker)
    → b.next_pid < 65536
    → ((alloc_pid b).0 ≡ b.next_pid % 65535 + 1)
      × ((alloc_pid b).1.next_pid ≡ b.next_pid % 65535 + 1)
unfolding alloc_pid
alloc_pid-closed b h = ground arith

next_pid-range : (n : ℕ) (b : Broker) → b.next_pid < 65536 → (after_pids n b).next_pid < 65536
unfolding after_pids
next_pid-range zero b h = h
next_pid-range (suc n) b h =
    omega (arith, (alloc_pid-closed (after_pids n b) (next_pid-range n b h)).1)

next_pid_closed :
    (n : ℕ) (b : Broker)
    → b.next_pid < 65536
    → (after_pids n b).next_pid % 65535 ≡ (b.next_pid + n) % 65535
unfolding after_pids
next_pid_closed zero b h = omega arith
next_pid_closed (suc n) b h =
    omega
      (arith, (alloc_pid-closed (after_pids n b) (next_pid-range n b h)).1, next_pid_closed n b h)

pid_at_closed :
    (n : ℕ) (b : Broker) → b.next_pid < 65536 → pid_at n b ≡ (b.next_pid + n) % 65535 + 1
pid_at_closed n b h =
    omega
      (arith, (alloc_pid-closed (after_pids n b) (next_pid-range n b h)).0, next_pid_closed n b h)

-- With a 16-bit `next_pid`, the packet ids are between 1 and 65535, and of 65535 in a row no two are
-- equal.
pub pid_at_cycle :
    (b : Broker) (i j : ℕ)
    → b.next_pid < 65536
    → i < j
    → j < i + 65535
    → (1 ≤ pid_at i b) × (pid_at i b ≤ 65535) × (pid_at i b ≢ pid_at j b)
pid_at_cycle b i j h lo hi = ground (arith, pid_at_closed i b h, pid_at_closed j b h)
