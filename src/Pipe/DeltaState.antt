-- ===== src/Pipe/DeltaState.antt =====
-- NetPipeDeltaState.h and NetStateStore.h: a state is sent as its difference from the last one that
-- the other side has acknowledged. A store is the list of its slots; `next_slot` is
-- `m_NextStateSlot + 1`, and no acknowledged state is -1 in the sources. Store sizes are `int`.
pub mod Arrives
use storm_net.Prelude.{
  ℕ, zero, suc, ◌+◌, ◌-◌, ◌%◌, List, [], ◌∷◌, ◌++◌, Bool, true, false, if◌then◌else◌, ◌==◌, ltb,
  length, set, get_elem?, replicate, Option, none, some,
}
use storm_net.Result.{Result, ok, err, undefined_behaviour, ◌>>=◌}
use storm_net.BitUtil.{get_required_bits_signed}
use storm_net.BitWriter.{BitWriter, write_bits}
use storm_net.BitReader.{BitReader, read_ubits}
use storm_net.Delta.{DeltaCodec}
use storm_net.Transmitter.{PipeMode, TransmitterMemory, create_message, create_ack, send_writer}

module _ {T : Type 0} where
  -- `StoreState`, of a state that is there.
  pub store_state : T → ℕ → List (Option T) → Result (List (Option T))
  store_state state index store =
      if ltb index (length store)
      then ok (set store index (some state))
      else err undefined_behaviour

  -- `Get`: a null pointer when nothing is stored.
  pub get_state : ℕ → List (Option T) → Result (Option T)
  get_state index store = elim (get_elem? store index) [
    | none ↦ err undefined_behaviour
    | some state ↦ ok state
  ]

pub record DeltaSender (T : Type 0) : Type 0 where
  pub mode : PipeMode
  pub channel_index : ℕ
  pub channel_bits : ℕ
  pub last_acked_state : Option ℕ
  pub next_slot : ℕ
  pub state_store : List (Option T)

pub record DeltaReceiver (T : Type 0) : Type 0 where
  pub mode : PipeMode
  pub channel_index : ℕ
  pub channel_bits : ℕ
  pub update_callback : Bool
  pub updates : List T
  pub state_store : List (Option T)

-- Whether the slot is the acknowledged one.
abbrev pub is_acked : Option ℕ → ℕ → Bool
is_acked none slot = false
is_acked (some acked) slot = slot == acked

module _ {T : Type 0} (d : DeltaCodec T) (data_store_size : ℕ) where
  pub new_sender : PipeMode → ℕ → ℕ → DeltaSender T
  new_sender mode channel_index channel_bits = record {
    mode = mode;
    channel_index = channel_index;
    channel_bits = channel_bits;
    last_acked_state = none;
    next_slot = 0;
    state_store = replicate data_store_size none;
  }

  -- The width of a slot, in the sender and in front of the receiver's message.
  abbrev pub slot_bits : ℕ
  slot_bits = get_required_bits_signed 4 (data_store_size - 1)

  -- `m_LastAckedState != -1 ? m_LastAckedState : DataStoreSize`
  abbrev pub acked_or_size : Option ℕ → ℕ
  acked_or_size none = data_store_size
  acked_or_size (some acked) = acked

  -- The reference of `SyncState`, or a null pointer.
  pub reference_state : DeltaSender T → Result (Option T)
  reference_state s = elim s.last_acked_state [
    | none ↦ ok none
    | some acked ↦ get_state acked s.state_store
  ]

  -- What `SyncState` writes behind the two slots.
  pub write_state : T → Option T → BitWriter → Result BitWriter
  write_state state none w = ok (d.codec.serialize state w)
  write_state state (some reference) w = d.serialize_delta state reference w >>= λ sent. ok (sent.1)

  -- A state whose slot is the acknowledged one is not sent, and its header stays in the writer.
  pub sync_state :
      DeltaSender T → T → TransmitterMemory → (ℕ → ℕ) → Result (DeltaSender T × TransmitterMemory)
  sync_state s state t behind =
      let created = create_message t s.mode s.channel_index s.channel_bits in
      let slot = s.next_slot % data_store_size in
      let acked = acked_or_size s.last_acked_state in
      let w = write_bits acked slot_bits (write_bits slot slot_bits created.pending) in
      reference_state s >>= λ reference.
      if is_acked s.last_acked_state slot
      then ok (s, created)
      else (store_state state slot s.state_store >>= λ store.
          write_state state reference w >>= λ w'. ok (
            record s { next_slot = slot + 1; state_store = store },
            send_writer (record created { pending = w' }) behind,
          ))

  pub got_ack : DeltaSender T → BitReader → Result (DeltaSender T)
  got_ack s r =
      read_ubits slot_bits r >>= λ acked. ok (record s { last_acked_state = some (acked.0) })

  -- `if (ref_slot != DataStoreSize)`: the state is read over a copy of the reference, which must be
  -- there, or over a new one.
  pub read_state : ℕ → List (Option T) → BitReader → Result (T × BitReader)
  read_state ref_slot store r =
      if ref_slot == data_store_size
      then d.codec.deserialize d.codec.default r
      else (get_state ref_slot store >>= λ reference. elim reference [
        | none ↦ err undefined_behaviour
        | some state ↦ d.deserialize_delta state r
      ])

  -- `GotMessage`, with the slot that the acknowledgement carries.
  pub got_message : DeltaReceiver T → BitReader → Result (DeltaReceiver T × ℕ)
  got_message rx r = read_ubits slot_bits r >>= λ state_slot.
      read_ubits (get_required_bits_signed 4 data_store_size) (state_slot.1) >>= λ ref_slot.
      read_state (ref_slot.0) rx.state_store (ref_slot.1) >>= λ inst.
      store_state (inst.0) (state_slot.0) rx.state_store >>= λ store. ok (
        record rx {
          state_store = store;
          updates = if rx.update_callback then rx.updates ++ inst.0 ∷ [] else rx.updates;
        },
        state_slot.0,
      )

  -- The acknowledgement that `GotMessage` ends with.
  pub send_ack : DeltaReceiver T → ℕ → TransmitterMemory → (ℕ → ℕ) → TransmitterMemory
  send_ack rx state_slot t behind =
      let created = create_ack t rx.mode rx.channel_index rx.channel_bits in
      send_writer (record created { pending = write_bits state_slot slot_bits created.pending })
        behind
