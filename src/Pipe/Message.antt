-- ===== src/Pipe/Message.antt =====
-- NetPipeMessage.h and the sending half of NetMessageSender.h: messages of the classes of a type
-- database, behind their class. `M` is the sum of the message types and `codec_of` the serializer of
-- a class.
use storm_net.Prelude.{ℕ, ◌-◌, List, [], ◌∷◌, ◌++◌, Bool, true, leb, ◌==◌, if◌then◌else◌}
use storm_net.Result.{Result, ok, ◌>>=◌}
use storm_net.BitUtil.{get_required_bits_u64}
use storm_net.BitWriter.{write_bits}
use storm_net.BitReader.{BitReader, read_ubits}
use storm_net.Codec.{Codec}
use storm_net.Transmitter.{TransmitterMemory}
use storm_net.Pipe.{Sender, send}

-- What a receiver has handed on: to the callback of the class, or to the generic one.
pub data Delivered (M : Type 0) : Type 0 where
  to_class : ℕ → M → Delivered M
  to_generic : ℕ → M → Delivered M

pub record Receiver (M : Type 0) : Type 0 where
  -- Whether a class has a callback.
  pub callbacks : ℕ → Bool
  pub generic_callback : Bool
  pub delivered : List (Delivered M)

-- What a callback does with the reader: the message is deserialized over a default one.
unfoldable pub deliver :
    {M : Type 0} → Codec M → Receiver M → (M → Delivered M) → BitReader → Result (Receiver M)
deliver codec rx note r = codec.deserialize codec.default r >>= λ read.
    ok (record rx { delivered = rx.delivered ++ note (read.0) ∷ [] })

module _ {M : Type 0} (num_types : ℕ) (codec_of : ℕ → Codec M) where
  -- `SendMessage(data)` and `SendMessage(class_id, message_ptr)`
  unfoldable pub send_message : Sender → ℕ → M → TransmitterMemory → (ℕ → ℕ) → TransmitterMemory
  unfolding send
  send_message s class_id message t behind =
      send s
        (λ writer.
          (codec_of class_id).serialize message
            (write_bits class_id (get_required_bits_u64 (num_types - 1)) writer))
        t behind

  unfoldable pub got_message : Receiver M → BitReader → Result (Receiver M)
  unfolding deliver
  got_message rx r = read_ubits (get_required_bits_u64 (num_types - 1)) r >>= λ class.
      let class_id = class.0 in
      let codec = codec_of class_id in
      if leb num_types class_id
      then ok rx
      else if rx.callbacks class_id
      then deliver codec rx (to_class class_id) (class.1)
      else if rx.generic_callback
      then deliver codec rx (to_generic class_id) (class.1)
      else ok rx

-- `RegisterCallback`, of the class of its argument.
unfoldable pub register_callback : {M : Type 0} → Receiver M → ℕ → Receiver M
register_callback rx class_id = record rx {
  callbacks = λ class. if class == class_id then true else rx.callbacks class;
}

-- `RegisterGenericCallback`
pub register_generic_callback : {M : Type 0} → Bool → Receiver M → Receiver M
register_generic_callback callback rx = record rx { generic_callback = callback }
