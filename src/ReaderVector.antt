-- ===== src/ReaderVector.antt =====
-- NetBitReaderVector.h and NetBitReaderVector.cpp: a reader that owns the vector it reads, made from a
-- vector or out of a writer, and moved.
pub mod Arrival
pub mod Move
use storm_net.Prelude.{ℕ, List, [], length}
use storm_net.BitWriter.{BitWriter, reset}
use storm_net.BitReader.{BitReader, new, vector_memory}

pub record ReaderVector : Type 0 where
  pub vector : List ℕ
  pub reader : BitReader

-- `behind` is whatever memory follows the vector's bytes.
pub from_vector : List ℕ → (ℕ → ℕ) → ReaderVector
from_vector bytes behind = record {
  vector = bytes;
  reader = new (vector_memory bytes behind) 0 (length bytes);
}

-- `NetBitReaderVector(NetBitWriterVector && data)`: the reader, and the writer that is left.
pub from_writer : BitWriter → (ℕ → ℕ) → ReaderVector × BitWriter
unfolding from_vector reset
from_writer writer behind = (from_vector writer.buffer behind, reset writer)

-- What a reader is after its vector was moved away.
pub moved_from : ReaderVector → ReaderVector
moved_from rhs = record {
  vector = [];
  reader = record rhs.reader { buffer = 0; num_bytes = 0; offset = 0; bit = 0 };
}

-- `NetBitReaderVector(NetBitReaderVector && rhs)`
pub move : ReaderVector → (ℕ → ℕ) → ReaderVector × ReaderVector
unfolding from_vector moved_from
move rhs behind =
    let made = from_vector rhs.vector behind in
    (
      record made {
        reader = record made.reader { bit = rhs.reader.bit; offset = rhs.reader.offset };
      },
      moved_from rhs,
    )

-- `operator = (NetBitReaderVector && rhs)`; the count of bits stays the target's own.
pub assign_move : ReaderVector → ReaderVector → (ℕ → ℕ) → ReaderVector × ReaderVector
unfolding moved_from
assign_move target rhs behind = (
  record {
    vector = rhs.vector;
    reader = record target.reader {
      memory = vector_memory rhs.vector behind;
      buffer = 0;
      num_bytes = length rhs.vector;
      bit = rhs.reader.bit;
      offset = rhs.reader.offset;
    };
  },
  moved_from rhs,
)
