-- ===== src/Pipe/Channels.antt =====
-- The senders that a protocol sets up.
use storm_net.Prelude.{
  ℕ, zero, suc, ◌+◌, ◌-◌, ◌^◌, ◌<◌, ◌≡◌, List, [], ◌∷◌, length, some, get_elem?, get_elem?-lt,
  arith,
}
use storm_net.BitUtil.{get_required_bits_u64}
use storm_net.BitUtil.Bounds.{lt-get_required_bits}
use storm_net.Transmitter.{PipeMode}
use storm_net.Pipe.{initialize, init_sender}

init_sender-at :
    (i k target : ℕ) (modes : List PipeMode) (mode : PipeMode) (bits : ℕ)
    → i + k ≡ target
    → get_elem? modes k ≡ some mode
    → get_elem? (init_sender i modes bits) k ≡ some (initialize mode target bits)
unfolding init_sender
init_sender-at i k target [] mode bits sum e = cc
init_sender-at i zero target (m ∷ modes) mode bits sum e =
    let first : m ≡ mode = cc in let index : i ≡ target = omega arith in rw (first, index)
init_sender-at i (suc k) target (m ∷ modes) mode bits sum e =
    init_sender-at (i + 1) k target modes mode bits (omega arith) e

-- With fewer than 2 ^ 64 channels, the sender at place `k` has the `k`-th mode and sends to channel
-- `k`, and that index fits the bits that it is written in.
pub init_sender-channel :
    (k : ℕ) (modes : List PipeMode) (mode : PipeMode)
    → length modes < 2 ^ 64
    → get_elem? modes k ≡ some mode
    → (get_elem? (init_sender 0 modes (get_required_bits_u64 (length modes - 1))) k
        ≡ some (initialize mode k (get_required_bits_u64 (length modes - 1))))
      × (k < 2 ^ get_required_bits_u64 (length modes - 1))
init_sender-channel k modes mode size e = (
  init_sender-at 0 k k modes mode (get_required_bits_u64 (length modes - 1)) (omega arith) e,
  lt-get_required_bits (length modes - 1) k (omega arith) (omega (arith, get_elem?-lt modes k e)),
)
