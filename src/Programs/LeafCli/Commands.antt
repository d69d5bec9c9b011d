-- ===== src/Programs/LeafCli/Commands.antt =====
-- leaf/main.c, lines 107 to 136: what a line of the user does.
use arbor_mq.Base.{ℕ, ◌≤◌, ◌≡◌, Bool, true, some, Bytes, length, get_or}
use arbor_mq.Broker.Send.{Status}
use arbor_mq.Leaf.State.{Leaf}
use arbor_mq.Programs.LeafCli.{Libc, Cli}

-- The widths of the formats: `%255s` and `%511s` give at most as many bytes.
abbrev pub ScansWithin : Libc → Type 0
ScansWithin libc =
    ((s topic : Bytes) (qos : ℕ) → libc.scan_subscribe s ≡ some (topic, qos) → length topic ≤ 255)
    × ((s topic payload : Bytes) (qos : ℕ)
        → libc.scan_publish s ≡ some (topic, payload, qos)
        → (length topic ≤ 255) × (length payload ≤ 511))

-- The call comes back.
abbrev AnyEnd : Leaf × Status → Type 0
AnyEnd r = Unit {0}

-- The loop goes on behind the command.
abbrev GoesOn : Cli × Bool → Type 0
GoesOn r = r.1 ≡ true

-- The letter of the command.
abbrev pub letter : Libc → Bytes → ℕ
letter libc line = libc.tolower (get_or line 0 0)
