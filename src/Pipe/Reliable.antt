-- ===== src/Pipe/Reliable.antt =====
-- NetPipeDeltaStateReliable.h: a state is sent as its difference from the one sent before, over a
-- transmitter that loses nothing.
pub mod Arrives
use storm_net.Prelude.{
  ℕ, zero, ◌+◌, List, [], ◌∷◌, ◌++◌, length, Bool, if◌then◌else◌, Option, none, some,
}
use storm_net.Result.{Result, ok, ◌>>=◌}
use storm_net.BitWriter.{BitWriter}
use storm_net.BitReader.{BitReader}
use storm_net.Delta.{DeltaCodec}
use storm_net.Transmitter.{PipeMode, reliable, TransmitterMemory, create_message, send_writer}

pub record ReliableSender (T : Type 0) : Type 0 where
  pub channel_index : ℕ
  pub channel_bits : ℕ
  pub last_synced_state : Option T

pub record ReliableReceiver (T : Type 0) : Type 0 where
  pub update_callback : Bool
  pub updates : List T
  pub reference_state : Option T

module _ {T : Type 0} where
  unfoldable pub initialize_reliable : ℕ → ℕ → ReliableSender T
  initialize_reliable channel_index channel_bits = record {
    channel_index = channel_index;
    channel_bits = channel_bits;
    last_synced_state = none;
  }

module _ {T : Type 0} (d : DeltaCodec T) where
  unfoldable pub write_after : Option T → T → BitWriter → Result BitWriter
  write_after none state w = ok (d.codec.serialize state w)
  write_after (some last) state w = d.serialize_delta state last w >>= λ sent. ok (sent.1)

  unfoldable pub sync_reliable :
      ReliableSender T
      → T
      → TransmitterMemory
      → (ℕ → ℕ)
      → Result (ReliableSender T × TransmitterMemory)
  sync_reliable s state t behind =
      let created = create_message t reliable s.channel_index s.channel_bits in
      write_after s.last_synced_state state created.pending >>= λ w. ok (
        record s { last_synced_state = some state },
        send_writer (record created { pending = w }) behind,
      )

  -- The state is read over a copy of the reference, or over a new one.
  unfoldable pub read_after : Option T → BitReader → Result (T × BitReader)
  read_after none r = d.codec.deserialize d.codec.default r
  read_after (some last) r = d.deserialize_delta last r

  unfoldable pub got_reliable : ReliableReceiver T → BitReader → Result (ReliableReceiver T)
  got_reliable rx r = read_after rx.reference_state r >>= λ inst. ok (record rx {
    reference_state = some (inst.0);
    updates = if rx.update_callback then rx.updates ++ inst.0 ∷ [] else rx.updates;
  })

  -- The bits of the state behind the header: all of it first, then differences.
  abbrev pub body_after : Option T → T → Option (List ℕ)
  body_after none state = some (d.codec.encoding state)
  body_after (some last) state = d.delta state last

  -- How many bits are written at most.
  abbrev pub peak_after : Option T → T → ℕ
  peak_after none state = length (d.codec.encoding state)
  peak_after (some last) state = d.peak state last
