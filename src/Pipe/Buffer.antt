-- ===== src/Pipe/Buffer.antt =====
-- NetPipeBuffer.h: raw bytes behind their number, in 32 bits.
use storm_net.Prelude.{ℕ, List, [], ◌∷◌, ◌++◌, Bool, length, if◌then◌else◌}
use storm_net.Result.{Result, ok, ◌>>=◌}
use storm_net.BitWriter.{write_bits, write_buffer}
use storm_net.BitReader.{BitReader, read_ubits, read_buffer}
use storm_net.Transmitter.{TransmitterMemory}
use storm_net.Pipe.{Sender, send}

unfoldable pub send_data : Sender → List ℕ → TransmitterMemory → (ℕ → ℕ) → TransmitterMemory
unfolding send
send_data s bytes t behind =
    send s (λ writer. write_buffer bytes (write_bits (length bytes) 32 writer)) t behind

pub record Receiver : Type 0 where
  pub update_callback : Bool
  pub updates : List (List ℕ)

-- `RegisterCallback`: an empty function counts as none.
pub register_callback : Bool → Receiver → Receiver
register_callback func rx = record rx { update_callback = func }

unfoldable pub got_message : Receiver → BitReader → Result Receiver
got_message rx r = read_ubits 32 r >>= λ size. read_buffer (size.0) (size.1) >>= λ buffer.
    ok (if rx.update_callback then record rx { updates = rx.updates ++ buffer.0 ∷ [] } else rx)
