-- ===== src/Optional.antt =====
-- NetReflectionOptional.h: `NetOptional`, a value that may be absent, and how it is sent;
-- NetReflectionPtr.h sends `unique_ptr` and `shared_ptr` in the same way.
pub mod Wire
use storm_net.Prelude.{ℕ, Option, none, some, Bool, true, false, not, if◌then◌else◌, ◌==◌}
use storm_net.Result.{Result, ok, err, no_value, ◌>>=◌}
use storm_net.BitWriter.{BitWriter, write_bits}
use storm_net.BitReader.{BitReader, read_ubits}
use storm_net.Codec.{Codec}

module _ {T : Type 0} where
  -- `NetOptional(NetOptional<T> && rhs)`: the new value, and what is left of `rhs`.
  pub move : Option T → Option T × Option T
  move none = (none, none)
  move (some t) = (some t, none)

  pub copy : Option T → Option T
  copy none = none
  copy (some t) = some t

  -- Whatever was held is destroyed first.
  pub emplace : Option T → T → Option T
  emplace old t = some t

  pub clear : Option T → Option T
  clear old = none

  -- `operator = (NetOptional<T> && rhs)`, for two different objects.
  pub assign_move : Option T → Option T → Option T × Option T
  unfolding clear move
  assign_move old rhs = move rhs

  pub is_valid : Option T → Bool
  is_valid none = false
  is_valid (some t) = true

  -- `Value`, `operator *` and `operator ->`
  pub value : Option T → Result T
  value none = err no_value
  value (some t) = ok t

  -- `GetPtr`: a null pointer when there is no value.
  pub get_ptr : Option T → Option T
  unfolding is_valid
  get_ptr o = if not (is_valid o) then none else o

module _ {T : Type 0} (c : Codec T) where
  unfoldable pub serialize_optional : Option T → BitWriter → BitWriter
  serialize_optional none w = write_bits 0 1 w
  serialize_optional (some t) w = c.serialize t (write_bits 1 1 w)

  -- The value that the received one overwrites: a new one, if there is none.
  pub held_or_new : Option T → T
  held_or_new none = c.default
  held_or_new (some t) = t

  unfoldable pub deserialize_optional : Option T → BitReader → Result (Option T × BitReader)
  unfolding held_or_new emplace clear
  deserialize_optional old r = read_ubits 1 r >>= λ flag.
      if flag.0 == 0
      then ok (clear old, flag.1)
      else c.deserialize (held_or_new old) (flag.1) >>= λ read. ok (some (read.0), read.1)
