-- ===== src/Pipe/Reliable/Arrives.antt =====
-- The two sides of a reliable delta-state pipe stay in step.
use storm_net.Prelude.{
  ℕ, ◌+◌, ◌^◌, ◌<◌, ◌≡◌, refl, ap, sym, ◌∙◌, List, [], ◌∷◌, ◌++◌, length, if◌then◌else◌, Option,
  none, some,
}
use storm_net.Result.{ok}
use storm_net.BitWriter.{BitWriter}
use storm_net.BitReader.{BitReader}
use storm_net.BitWriter.Content.{bits_of, IsValid as WriterValid}
use storm_net.BitReader.Content.{left, IsValid as ReaderValid}
use storm_net.Codec.{Appends, Takes}
use storm_net.Delta.{DeltaCodec, sent_bits}
use storm_net.Transmitter.{reliable, TransmitterMemory, create_message, send_writer}
use storm_net.Pipe.Reliable.{
  ReliableSender, ReliableReceiver, write_after, sync_reliable, read_after, got_reliable,
  body_after, peak_after,
}

module _ {T : Type 0} (d : DeltaCodec T) where
  write_after-Appends :
      (last : Option T) (state : T) (bits : List ℕ) (w : BitWriter)
      → body_after d last state ≡ some bits
      → WriterValid w
      → length (bits_of w) + peak_after d last state < 2 ^ 63
      → (w' : BitWriter) × (write_after d last state w ≡ ok w') × Appends w w' bits
  unfolding write_after
  write_after-Appends none state bits w e v room =
      let whole : d.codec.encoding state ≡ bits = cc e in
      (d.codec.serialize state w, refl, rw (sym whole) (d.codec.serialize-Appends state w v))
  write_after-Appends (some last) state bits w e v room =
      let (w', sent, appended) = d.serialize_delta-Sends state last w v room in
      (
        w',
        rw sent refl,
        (appended.0 ∙ ap (λ (o : Option (List ℕ)). bits_of w ++ sent_bits o) e, appended.1),
      )

  read_after-Takes :
      (last : Option T) (state : T) (bits : List ℕ) (r : BitReader) (rest : List ℕ)
      → body_after d last state ≡ some bits
      → d.codec.Fits state
      → ReaderValid r
      → left r ≡ bits ++ rest
      → Takes (read_after d last r) state rest
  unfolding read_after
  read_after-Takes none state bits r rest e fits v p =
      let whole : bits ≡ d.codec.encoding state = cc e in
      d.codec.deserialize-Takes d.codec.default state r rest fits v (rw (sym whole) p)
  read_after-Takes (some last) state bits r rest e fits v p =
      d.deserialize_delta-Takes state last bits r rest e fits v p

-- When the receiver of a reliable delta-state pipe holds the state that its sender sent last, or
-- neither holds one, and the new state differs from it, `SyncState` appends the difference, or the
-- whole state when it is the first, to the header; `GotMessage` reads the new state from it and hands
-- it to the callback, if one is registered; and both sides hold the new state, so that the next one
-- finds them in step again. The message is shorter than 2 ^ 63 bits, and the state fits.
pub sync_reliable-got_reliable :
    {T : Type 0} (d : DeltaCodec T) (s : ReliableSender T) (rx : ReliableReceiver T) (state : T)
    (bits : List ℕ) (t : TransmitterMemory) (behind : ℕ → ℕ) (r : BitReader) (rest : List ℕ)
    → rx.reference_state ≡ s.last_synced_state
    → body_after d s.last_synced_state state ≡ some bits
    → d.codec.Fits state
    → WriterValid (create_message t reliable s.channel_index s.channel_bits).pending
    → length (bits_of (create_message t reliable s.channel_index s.channel_bits).pending)
        + peak_after d s.last_synced_state state
      < 2 ^ 63
    → ReaderValid r
    → left r ≡ bits ++ rest
    → (s' : ReliableSender T) × (w : BitWriter) × (rx' : ReliableReceiver T) × (sync_reliable d s
          state t behind
        ≡ ok (
          s',
          send_writer
              (record (create_message t reliable s.channel_index s.channel_bits) { pending = w })
              behind,
        ))
      × Appends (create_message t reliable s.channel_index s.channel_bits).pending w bits
      × (got_reliable d rx r ≡ ok rx')
      × (rx'.updates ≡ (if rx.update_callback then rx.updates ++ state ∷ [] else rx.updates))
      × (s'.last_synced_state ≡ some state)
      × (rx'.reference_state ≡ s'.last_synced_state)
unfolding sync_reliable got_reliable
sync_reliable-got_reliable d s rx state bits t behind r rest in_step differs fits wv room rv p =
    let w0 = (create_message t reliable s.channel_index s.channel_bits).pending in
    let (w, wrote, appended) =
      write_after-Appends d s.last_synced_state state bits w0 differs wv room in
    let (r', read, _, _) =
      read_after-Takes d s.last_synced_state state bits r rest differs fits rv p in
    (
      record s { last_synced_state = some state },
      w,
      record rx {
        reference_state = some state;
        updates = if rx.update_callback then rx.updates ++ state ∷ [] else rx.updates;
      },
      rw wrote refl,
      appended,
      rw (in_step, read) refl,
      refl,
      refl,
      refl,
    )
