-- ===== src/Delta/Struct.antt =====
-- NetSerializeDelta.h and NetDeserializeDelta.h: reflected structs are sent as the number of the fields
-- that differ, and each of these behind its index. A struct is its fields, in the order in which the
-- reflection library visits them.
pub mod Send
pub mod Arrives
use storm_net.Prelude.{
  ℕ, ◌+◌, ◌-◌, List, [], ◌∷◌, length, Bool, true, false, if◌then◌else◌, ◌==◌, ltb,
}
use storm_net.Result.{Result, ok, ◌>>=◌}
use storm_net.BitUtil.{get_required_bits_u64}
use storm_net.BitWriter.{BitWriter}
use storm_net.BitReader.{BitReader, read_ubits}
use storm_net.BitWriter.Cursor.{reserve, roll_back, write_cursor}
use storm_net.Delta.{DeltaCodec}

-- A type, and how it is sent.
abbrev pub Field : Type 1
Field = (T : Type 0) × DeltaCodec T

abbrev pub Struct : List Field → Type 0
Struct [] = Unit
Struct (field ∷ fields) = field.0 × Struct fields

-- The visitor of the serializer, at one field.
pub serialize_field :
    (field : Field) → ℕ → ℕ → field.0 → field.0 → ℕ → BitWriter → Result (ℕ × BitWriter)
serialize_field field required_bits index to from num_wrote w =
    let reserved = reserve required_bits w in
    field.1.serialize_delta to from reserved.1 >>= λ sent.
    if sent.0
    then (write_cursor required_bits reserved.0 index required_bits (sent.1) >>= λ done.
        ok (num_wrote + 1, done.1))
    else (roll_back reserved.0 (sent.1) >>= λ back. ok (num_wrote, back))

-- `StormReflVisitEach`, with the number of the fields that have been visited.
pub serialize_fields :
    (fields : List Field)
    → ℕ
    → ℕ
    → Struct fields
    → Struct fields
    → ℕ
    → BitWriter
    → Result (ℕ × BitWriter)
serialize_fields [] required_bits index to from num_wrote w = ok (num_wrote, w)
serialize_fields (field ∷ fields) required_bits index to from num_wrote w =
    serialize_field field required_bits index to.0 from.0 num_wrote w >>= λ sent.
    serialize_fields fields required_bits (index + 1) to.1 from.1 (sent.0) (sent.1)

pub serialize_struct :
    (fields : List Field) → Struct fields → Struct fields → BitWriter → Result (Bool × BitWriter)
serialize_struct fields to from w =
    let required_bits = get_required_bits_u64 (length fields) in
    let reserved = reserve required_bits w in
    serialize_fields fields required_bits 0 to from 0 reserved.1 >>= λ wrote.
    if ltb 0 (wrote.0)
    then (write_cursor required_bits reserved.0 (wrote.0) required_bits (wrote.1) >>= λ done.
        ok (true, done.1))
    else (roll_back reserved.0 (wrote.1) >>= λ back. ok (false, back))

-- The visitor of the deserializer: how many fields are still to come, and the index of the next.
pub record Visit (S : Type 0) : Type 0 where
  pub val : S
  pub num_remaining : ℕ
  pub next_index : ℕ
  pub reader : BitReader

-- `if (m_NumRemaining != 0) m_NextIndex = m_Reader.ReadUBits(m_RequiredBits)`
pub read_next : {T : Type 0} → ℕ → ℕ → ℕ → T × BitReader → Result (Visit T)
read_next required_bits num_remaining next_index read =
    if num_remaining == 0
    then ok (record {
      val = read.0;
      num_remaining = num_remaining;
      next_index = next_index;
      reader = read.1;
    })
    else (read_ubits required_bits (read.1) >>= λ next. ok (record {
      val = read.0;
      num_remaining = num_remaining;
      next_index = next.0;
      reader = next.1;
    }))

pub deserialize_field : (field : Field) → ℕ → ℕ → Visit field.0 → Result (Visit field.0)
deserialize_field field required_bits index v =
    if v.num_remaining == 0
    then ok v
    else (if index == v.next_index
        then (field.1.deserialize_delta v.val v.reader >>= λ read.
            read_next required_bits (v.num_remaining - 1) v.next_index read)
        else ok v)

pub deserialize_fields :
    (fields : List Field) → ℕ → ℕ → Visit (Struct fields) → Result (Visit (Struct fields))
deserialize_fields [] required_bits index v = ok v
deserialize_fields (field ∷ fields) required_bits index v =
    deserialize_field field required_bits index (record {
      val = v.val.0;
      num_remaining = v.num_remaining;
      next_index = v.next_index;
      reader = v.reader;
    })
    >>= λ first.
        deserialize_fields fields required_bits (index + 1) (record {
          val = v.val.1;
          num_remaining = first.num_remaining;
          next_index = first.next_index;
          reader = first.reader;
        })
        >>= λ others. ok (record {
          val = (first.val, others.val);
          num_remaining = others.num_remaining;
          next_index = others.next_index;
          reader = others.reader;
        })

pub deserialize_struct :
    (fields : List Field) → Struct fields → BitReader → Result (Struct fields × BitReader)
deserialize_struct fields val r =
    let required_bits = get_required_bits_u64 (length fields) in
    read_ubits required_bits r >>= λ num_elements.
    read_ubits required_bits (num_elements.1) >>= λ first_index.
    deserialize_fields fields required_bits 0 (record {
      val = val;
      num_remaining = num_elements.0;
      next_index = first_index.0;
      reader = first_index.1;
    })
    >>= λ visited. ok (visited.val, visited.reader)
