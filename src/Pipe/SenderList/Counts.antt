-- ===== src/Pipe/SenderList/Counts.antt =====
-- Which connections are sent to, and how often.
use storm_net.Prelude.{
  ℕ, ◌+◌, ◌≡◌, refl, ap, ◌∙◌, List, [], ◌∷◌, ◌++◌, length, length-append, Bool, true, if◌then◌else◌,
  ◌==◌, Bool-cases, Option-cases, inl, inr, Option, none, some, arith,
}
use storm_net.Codec.{Codec}
use storm_net.Transmitter.{TransmitterMemory, create_message, create_writer, send_writer}
use storm_net.Pipe.{send}
use storm_net.Pipe.Message.{send_message}
use storm_net.Pipe.SenderList.{
  MessageSender, find, add_sender, remove_sender, send_by, send_to_all, send_where,
}

-- How many of the senders that the predicate admits send over transmitter `i`.
abbrev pub senders_over : (ℕ → Bool) → ℕ → List (ℕ × MessageSender) → ℕ
senders_over predicate i [] = 0
senders_over predicate i (entry ∷ entries) =
    (if predicate (entry.0) then if i == (entry.1).transmitter then 1 else 0 else 0)
    + senders_over predicate i entries

module _ {M : Type 0} (num_types : ℕ) (codec_of : ℕ → Codec M) (behind : ℕ → ℕ) where
  send_by-grows :
      (s : MessageSender) (class_id : ℕ) (message : M) (transmitters : ℕ → TransmitterMemory)
      (i : ℕ)
      → length (send_by num_types codec_of behind s class_id message transmitters i).outgoing
        ≡ (if i == s.transmitter then 1 else 0) + length (transmitters i).outgoing
  unfolding send_by send_message send create_message create_writer send_writer
  send_by-grows s class_id message transmitters i = elim (Bool-cases (i == s.transmitter)) [
    | inl own ↦ rw own (omega (arith, length-append (transmitters i).outgoing (_ ∷ [])))
    | inr other ↦ rw other (omega arith)
  ]

  -- The length of a queue after a sender that is sent to or passed over, and the others.
  abbrev step :
      ℕ × MessageSender
      → List (ℕ × MessageSender)
      → (ℕ → Bool)
      → ℕ
      → M
      → (ℕ → TransmitterMemory)
      → ℕ
      → Bool
      → ℕ
  step entry entries predicate class_id message transmitters i admitted =
      length
        (send_where num_types codec_of behind predicate class_id message entries
          (if admitted
            then send_by num_types codec_of behind (entry.1) class_id message transmitters
            else transmitters)
          i).outgoing

  send_where-grows :
      (predicate : ℕ → Bool) (class_id : ℕ) (message : M) (senders : List (ℕ × MessageSender))
      (transmitters : ℕ → TransmitterMemory) (i : ℕ)
      → length
          (send_where num_types codec_of behind predicate class_id message senders transmitters
            i).outgoing
        ≡ senders_over predicate i senders + length (transmitters i).outgoing
  unfolding send_where
  send_where-grows predicate class_id message [] transmitters i = omega arith
  send_where-grows predicate class_id message (entry ∷ entries) transmitters i =
      elim (Bool-cases (predicate (entry.0))) [
        | inl admitted ↦
            let head : senders_over predicate i (entry ∷ entries)
                ≡ (if i == (entry.1).transmitter then 1 else 0) + senders_over predicate i entries =
              rw admitted refl in
            ap (step entry entries predicate class_id message transmitters i) admitted
            ∙ omega (
              arith,
              head,
              send_where-grows predicate class_id message entries
                  (send_by num_types codec_of behind (entry.1) class_id message transmitters) i,
              send_by-grows (entry.1) class_id message transmitters i,
            )
        | inr skipped ↦
            let head : senders_over predicate i (entry ∷ entries)
                ≡ senders_over predicate i entries =
              rw skipped (omega arith) in
            ap (step entry entries predicate class_id message transmitters i) skipped
            ∙ omega
                (arith, head, send_where-grows predicate class_id message entries transmitters i)
      ]

  send_to_all-where :
      (class_id : ℕ) (message : M) (senders : List (ℕ × MessageSender))
      (transmitters : ℕ → TransmitterMemory)
      → send_to_all num_types codec_of behind class_id message senders transmitters
        ≡ send_where num_types codec_of behind
            (λ connection. true)
            class_id
            message
            senders
            transmitters
  unfolding send_to_all send_where
  send_to_all-where class_id message [] transmitters = refl
  send_to_all-where class_id message (entry ∷ entries) transmitters =
      send_to_all-where class_id message entries
        (send_by num_types codec_of behind (entry.1) class_id message transmitters)

  -- Each sender that the predicate admits puts one message into the queue of its transmitter, and no
  -- other queue grows; sending to all admits every sender.
  pub send_where-count :
      (predicate : ℕ → Bool) (class_id : ℕ) (message : M) (senders : List (ℕ × MessageSender))
      (transmitters : ℕ → TransmitterMemory) (i : ℕ)
      → (length
            (send_where num_types codec_of behind predicate class_id message senders transmitters
              i).outgoing
          ≡ senders_over predicate i senders + length (transmitters i).outgoing)
        × (length
              (send_to_all num_types codec_of behind class_id message senders transmitters
                i).outgoing
            ≡ senders_over (λ connection. true) i senders + length (transmitters i).outgoing)
  send_where-count predicate class_id message senders transmitters i = (
    send_where-grows predicate class_id message senders transmitters i,
    ap (λ (ts : ℕ → TransmitterMemory). length (ts i).outgoing)
          (send_to_all-where class_id message senders transmitters)
        ∙ send_where-grows (λ connection. true) class_id message senders transmitters i,
  )

-- The sender that a connection has after one is added for it.
abbrev pub held_or : MessageSender → Option MessageSender → MessageSender
held_or s none = s
held_or s (some held) = held

find-append :
    (other connection : ℕ) (s : MessageSender) (senders : List (ℕ × MessageSender))
    → find connection senders ≡ none
    → find other (senders ++ (connection, s) ∷ [])
      ≡ (if other == connection then some s else find other senders)
unfolding find
find-append other connection s [] absent = ground arith
find-append other connection s (entry ∷ entries) absent =
    ground (arith, find-append other connection s entries)

find-remove_sender :
    (other connection : ℕ) (senders : List (ℕ × MessageSender))
    → find other (remove_sender connection senders)
      ≡ (if other == connection then none else find other senders)
unfolding find remove_sender
find-remove_sender other connection [] = ground arith
find-remove_sender other connection (entry ∷ entries) =
    ground (arith, find-remove_sender other connection entries)

-- Adding a sender for a connection gives that connection a sender, the one that it had if it had one;
-- removing takes it away; neither changes what the other connections have.
pub find-add_sender :
    (connection other : ℕ) (s : MessageSender) (senders : List (ℕ × MessageSender))
    → (find other (add_sender connection s senders) ≡ (
        if other == connection
        then some (held_or s (find connection senders))
        else find other senders))
      × (find other (remove_sender connection senders)
          ≡ (if other == connection then none else find other senders))
unfolding add_sender
find-add_sender connection other s senders = (
  elim (Option-cases (find connection senders)) [
    | inl absent ↦ rw (absent, add_sender) (find-append other connection s senders absent)
    | inr (held, present) ↦ elim (Bool-cases (other == connection)) [
      | inl same ↦
          let here : other ≡ connection = ground arith in
          rw (present, same, add_sender) (ap (λ (t : ℕ). find t senders) here ∙ present)
      | inr different ↦ rw (present, different, add_sender)
    ]
  ],
  find-remove_sender other connection senders,
)
