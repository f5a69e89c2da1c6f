-- ===== src/Pipe/FullState.antt =====
-- NetPipeFullState.h, and NetPipeFullStateSeq.h as it stands between the markers of the merge that it
-- was left in: both halves of the conflict have this text.
use storm_net.Prelude.{ℕ, List, [], ◌∷◌, ◌++◌, Bool, Option, none, some, if◌then◌else◌}
use storm_net.Result.{Result, ok, ◌>>=◌}
use storm_net.BitWriter.{write_bits, word_at}
use storm_net.BitReader.{BitReader}
use storm_net.Codec.{Codec}
use storm_net.Codec.Plain.{deserialize_pod}
use storm_net.Transmitter.{TransmitterMemory}
use storm_net.Pipe.{Sender, send}

module _ {T : Type 0} (c : Codec T) where
  unfoldable pub sync_state : Sender → T → TransmitterMemory → (ℕ → ℕ) → TransmitterMemory
  unfolding send
  sync_state s state t behind = send s (c.serialize state) t behind

  unfoldable pub sync_state_seq : Sender → ℕ → T → TransmitterMemory → (ℕ → ℕ) → TransmitterMemory
  unfolding send
  sync_state_seq s seq state t behind =
      send s (λ writer. c.serialize state (write_bits seq 32 writer)) t behind

-- `updates` are the calls of the callback, oldest first.
pub record Receiver (T : Type 0) : Type 0 where
  -- `m_DefaultData`, or no pointer.
  pub default_data : Option T
  -- Whether a callback is registered.
  pub update_callback : Bool
  pub updates : List T

-- `Initialize`, by the default of the reflection library; `SetDefault` and `RegisterCallback`.
pub initialize_receiver : {T : Type 0} → Option T → Receiver T → Receiver T
initialize_receiver default rx = record rx { default_data = default }

pub set_default : {T : Type 0} → Option T → Receiver T → Receiver T
set_default default_data_ptr rx = record rx { default_data = default_data_ptr }

pub register_callback : {T : Type 0} → Bool → Receiver T → Receiver T
register_callback func rx = record rx { update_callback = func }

pub record SeqReceiver (T : Type 0) : Type 0 where
  pub default_data : Option T
  pub update_callback : Bool
  pub updates : List (ℕ × T)

module _ {T : Type 0} (c : Codec T) where
  unfoldable pub got_message : Receiver T → BitReader → Result (Receiver T)
  got_message rx r = elim rx.default_data [
    | none ↦ ok rx
    | some data_inst ↦ c.deserialize data_inst r >>= λ inst.
        ok (if rx.update_callback then record rx { updates = rx.updates ++ inst.0 ∷ [] } else rx)
  ]

  -- The sequence number is plain old data of four bytes, read over an uninitialised variable.
  unfoldable pub got_message_seq : SeqReceiver T → BitReader → Result (SeqReceiver T)
  got_message_seq rx r = elim rx.default_data [
    | none ↦ ok rx
    | some data_inst ↦ deserialize_pod 4 [] r >>= λ seq. c.deserialize data_inst (seq.1) >>= λ inst.
        ok (
          if rx.update_callback
          then record rx { updates = rx.updates ++ (word_at (seq.0), inst.0) ∷ [] }
          else rx)
  ]
