-- ===== src/Result.antt =====
-- What a call returns or throws. `NET_ENABLE_EXCEPTIONS` is defined (NetException.h), so `NET_THROW`
-- and `NET_THROW_OR` both throw; there is one error for each message that is thrown.

use storm_net.Prelude.{◌≡◌, refl}

pub data Error : Type 0 where
  reader_out_of_data : Error
  list_overflow : Error
  no_value : Error
  not_constructible : Error
  not_in_list : Error
  rollback_after_write : Error
  cursor_overflow : Error
  invalid_index : Error
  map_overflow : Error
  bad_alloc : Error
  -- A loop that the sources never leave.
  does_not_return : Error
  -- An `assert` that does not hold.
  assertion_failed : Error
  -- What the C++ standard leaves undefined, such as `operator []` past the end of a vector.
  undefined_behaviour : Error

pub data Result {ℓ} (T : Type ℓ) : Type ℓ where
  ok : T → Result T
  err : Error → Result T

-- Calls one after the other: the first one that throws ends the chain.
infixl 5 ◌>>=◌
abbrev pub ◌>>=◌ {ℓ κ} : {T : Type ℓ} {U : Type κ} → Result T → (T → Result U) → Result U
err thrown >>= next = err thrown
ok t >>= next = next t

-- A chain that returns has returned from its first call and from the rest.
pub >>=-eq-ok {ℓ κ} :
    {T : Type ℓ} {U : Type κ} (first : Result T) (next : T → Result U) {u : U}
    → (first >>= next) ≡ ok u
    → (t : T) × (first ≡ ok t) × (next t ≡ ok u)
>>=-eq-ok (err thrown) next e = cc
>>=-eq-ok (ok t) next e = (t, refl, e)
