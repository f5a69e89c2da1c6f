-- ===== src/Ptr.antt =====
-- NetReflectionPtr.h: `std::unique_ptr` by the object that it owns, and `std::shared_ptr` by the address
-- of an object in a heap, which other pointers may hold too.
pub mod Wire
use storm_net.Prelude.{ℕ, Option, none, some, Bool, if◌then◌else◌, ◌==◌}
use storm_net.Result.{Result, ok, err, not_constructible, ◌>>=◌}
use storm_net.BitWriter.{BitWriter, write_bits}
use storm_net.BitReader.{BitReader, read_ubits}
use storm_net.Codec.{Codec}

-- The object at an address is replaced.
pub put : {T : Type 0} → ℕ → T → (ℕ → T) → ℕ → T
put address t heap at = if at == address then t else heap at

module _ {T : Type 0} (c : Codec T) where
  -- `NetPtrDefaultConstruct`; the shared object is made at a fresh address.
  pub construct_unique : Bool → Result T
  construct_unique default_constructible =
      if default_constructible then ok c.default else err not_constructible

  pub construct_shared : Bool → ℕ → (ℕ → T) → Result (ℕ → T)
  construct_shared default_constructible fresh heap =
      if default_constructible then ok (put fresh c.default heap) else err not_constructible

  pub serialize_unique : Option T → BitWriter → BitWriter
  serialize_unique none w = write_bits 0 1 w
  serialize_unique (some t) w = c.serialize t (write_bits 1 1 w)

  pub serialize_shared : (ℕ → T) → Option ℕ → BitWriter → BitWriter
  serialize_shared heap none w = write_bits 0 1 w
  serialize_shared heap (some address) w = c.serialize (heap address) (write_bits 1 1 w)

  -- The object that is read into.
  pub target : Result T → Option T → Result T
  target constructed none = constructed
  target constructed (some t) = ok t

  pub deserialize_unique : Bool → Option T → BitReader → Result (Option T × BitReader)
  unfolding construct_unique target
  deserialize_unique default_constructible old r = read_ubits 1 r >>= λ flag.
      if flag.0 == 0
      then ok (none, flag.1)
      else target (construct_unique default_constructible) old >>= λ held.
          c.deserialize held (flag.1) >>= λ read. ok (some (read.0), read.1)

  -- The pointer that is read through, and the heap with its object.
  pub shared_target : Bool → ℕ → Option ℕ → (ℕ → T) → Result (ℕ × (ℕ → T))
  shared_target default_constructible fresh (some address) heap = ok (address, heap)
  shared_target default_constructible fresh none heap =
      construct_shared default_constructible fresh heap >>= λ heap'. ok (fresh, heap')

  pub deserialize_shared :
      Bool → ℕ → Option ℕ → (ℕ → T) → BitReader → Result (Option ℕ × (ℕ → T) × BitReader)
  deserialize_shared default_constructible fresh val heap r = read_ubits 1 r >>= λ flag.
      if flag.0 == 0
      then ok (none, heap, flag.1)
      else shared_target default_constructible fresh val heap >>= λ held.
          c.deserialize (held.1 held.0) (flag.1) >>= λ read.
          ok (some held.0, put held.0 (read.0) held.1, read.1)
