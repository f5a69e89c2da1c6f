-- ===== src/Codec.antt =====
-- NetSerialize.h and NetDeserialize.h: `NetSerializer<T>` and `NetDeserializer<T>` as an interface
-- between the types that are sent and the containers of such types, with the bits on the wire as
-- its specification.
pub mod Steps
pub mod Each
pub mod Basic
pub mod Plain
use storm_net.Prelude.{ℕ, ◌≡◌, List, ◌++◌}
use storm_net.Result.{Result, ok}
use storm_net.BitWriter.{BitWriter}
use storm_net.BitReader.{BitReader}
use storm_net.BitWriter.Content.{bits_of, IsValid as WriterValid}
pub use storm_net.BitWriter.Append.{Appends}
use storm_net.BitReader.Content.{left, IsValid as ReaderValid}

-- A read returns this value and leaves these bits, in a well-formed reader.
abbrev pub Takes : {T : Type 0} → Result (T × BitReader) → T → List ℕ → Type 0
Takes result t rest = (r : BitReader) × (result ≡ ok (t, r)) × (left r ≡ rest) × ReaderValid r

-- How a type is sent. `deserialize` is given the value that it overwrites, as the sources' `operator
-- ()` on a reference is.
pub record Codec (T : Type 0) : Type 1 where
  -- A default-constructed value.
  pub default : T
  pub serialize : T → BitWriter → BitWriter
  pub deserialize : T → BitReader → Result (T × BitReader)
  -- The values that arrive as they are sent.
  pub Fits : T → Type 0
  pub encoding : T → List ℕ
  pub serialize-Appends :
      (t : T) (w : BitWriter) → WriterValid w → Appends w (serialize t w) (encoding t)
  pub deserialize-Takes :
      (old t : T) (r : BitReader) (rest : List ℕ)
      → Fits t
      → ReaderValid r
      → left r ≡ encoding t ++ rest
      → Takes (deserialize old r) t rest
