-- ===== src/Pipe/SenderList.antt =====
-- NetMessageSender.h: `NetMessageSender`, a copy of a pipe's sender, and `NetMessageSenderList`, the
-- senders of several connections. A sender points to its transmitter; the transmitters are found by
-- number. The order of the list stands for the order of the `unordered_map`.
pub mod Counts
use storm_net.Prelude.{ℕ, List, [], ◌∷◌, ◌++◌, Bool, if◌then◌else◌, ◌==◌, Option, none, some}
use storm_net.Codec.{Codec}
use storm_net.Transmitter.{TransmitterMemory}
use storm_net.Pipe.{Sender}
use storm_net.Pipe.Message.{send_message}

pub record MessageSender : Type 0 where
  pub transmitter : ℕ
  pub sender : Sender

-- `m_Senders.find(connection)`
pub find : ℕ → List (ℕ × MessageSender) → Option MessageSender
find connection [] = none
find connection (entry ∷ entries) =
    if entry.0 == connection then some (entry.1) else find connection entries

-- `AddSender`: `emplace` leaves a key that is there as it is.
pub add_sender : ℕ → MessageSender → List (ℕ × MessageSender) → List (ℕ × MessageSender)
unfolding find
add_sender connection_id sender senders = elim (find connection_id senders) [
  | none ↦ senders ++ (connection_id, sender) ∷ []
  | some held ↦ senders
]

-- `RemoveSender`
pub remove_sender : ℕ → List (ℕ × MessageSender) → List (ℕ × MessageSender)
remove_sender connection_id [] = []
remove_sender connection_id (entry ∷ entries) =
    let rest = remove_sender connection_id entries in
    if entry.0 == connection_id then rest else entry ∷ rest

module _ {M : Type 0} (num_types : ℕ) (codec_of : ℕ → Codec M) (behind : ℕ → ℕ) where
  -- `NetMessageSender::SendMessage`, both with a message of known type and with a class.
  pub send_by : MessageSender → ℕ → M → (ℕ → TransmitterMemory) → ℕ → TransmitterMemory
  send_by s class_id message transmitters i =
      if i == s.transmitter
      then send_message num_types codec_of s.sender class_id message (transmitters i) behind
      else transmitters i

  -- `SendMessage(data)` of the list
  pub send_to_all :
      ℕ → M → List (ℕ × MessageSender) → (ℕ → TransmitterMemory) → ℕ → TransmitterMemory
  unfolding send_by
  send_to_all class_id message [] transmitters = transmitters
  send_to_all class_id message (entry ∷ entries) transmitters =
      send_to_all class_id message entries (send_by (entry.1) class_id message transmitters)

  -- `SendMessage(data, predicate)`
  pub send_where :
      (ℕ → Bool)
      → ℕ
      → M
      → List (ℕ × MessageSender)
      → (ℕ → TransmitterMemory)
      → ℕ
      → TransmitterMemory
  unfolding send_by
  send_where predicate class_id message [] transmitters = transmitters
  send_where predicate class_id message (entry ∷ entries) transmitters =
      send_where predicate class_id message entries (
        if predicate (entry.0)
        then send_by (entry.1) class_id message transmitters
        else transmitters)

  -- `SendTargettedMessage`, and `SendMessage(class_id, event_ptr, connection)`
  pub send_targetted :
      ℕ → M → ℕ → List (ℕ × MessageSender) → (ℕ → TransmitterMemory) → ℕ → TransmitterMemory
  unfolding find send_by
  send_targetted class_id message connection senders transmitters = elim (find connection senders) [
    | none ↦ transmitters
    | some s ↦ send_by s class_id message transmitters
  ]
