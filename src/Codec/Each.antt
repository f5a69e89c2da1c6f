-- ===== src/Codec/Each.antt =====
-- Elements sent one behind the other, as the loops over arrays and lists send them.
use storm_net.Prelude.{ℕ, ◌≡◌, refl, ◌∙◌, List, [], ◌∷◌, ◌++◌, length, append_assoc, arith}
use storm_net.Result.{Result, ok, ◌>>=◌}
use storm_net.BitWriter.{BitWriter}
use storm_net.BitReader.{BitReader}
use storm_net.BitWriter.Content.{IsValid as WriterValid}
use storm_net.BitReader.Content.{left, IsValid as ReaderValid}
use storm_net.Codec.{Codec, Appends, Takes}
use storm_net.Codec.Steps.{Appends-nil, Appends-then, Takes-bind}

abbrev pub All : {A : Type 0} → (A → Type 0) → List A → Type 0
All P [] = Unit
All P (x ∷ xs) = P x × All P xs

module _ {T : Type 0} (c : Codec T) where
  -- `for (auto & elem : val) NetSerializeValue(elem, writer)`
  unfoldable pub serialize_each : List T → BitWriter → BitWriter
  serialize_each [] w = w
  serialize_each (t ∷ ts) w = serialize_each ts (c.serialize t w)

  -- `for (index ...) NetDeserializeValue(val[index], reader)`
  unfoldable pub deserialize_each : List T → BitReader → Result (List T × BitReader)
  deserialize_each [] r = ok ([], r)
  deserialize_each (old ∷ olds) r = c.deserialize old r >>= λ first.
      deserialize_each olds first.1 >>= λ others. ok (first.0 ∷ others.0, others.1)

  abbrev pub encoding_each : List T → List ℕ
  encoding_each [] = []
  encoding_each (t ∷ ts) = c.encoding t ++ encoding_each ts

  pub serialize_each-Appends :
      (ts : List T) (w : BitWriter)
      → WriterValid w
      → Appends w (serialize_each ts w) (encoding_each ts)
  unfolding serialize_each
  serialize_each-Appends [] w v = Appends-nil w v
  serialize_each-Appends (t ∷ ts) w v =
      Appends-then w (c.serialize t w) (serialize_each ts (c.serialize t w)) (c.encoding t)
        (encoding_each ts) (c.serialize-Appends t w v) (serialize_each-Appends ts (c.serialize t w))

  -- Over any old values, as many as are sent.
  pub deserialize_each-Takes :
      (olds ts : List T) (r : BitReader) (rest : List ℕ)
      → length olds ≡ length ts
      → All c.Fits ts
      → ReaderValid r
      → left r ≡ encoding_each ts ++ rest
      → Takes (deserialize_each olds r) ts rest
  unfolding deserialize_each
  deserialize_each-Takes [] [] r rest e fits v p = (r, refl, p, v)
  deserialize_each-Takes [] (t ∷ ts) r rest e fits v p = absurd (omega arith)
  deserialize_each-Takes (old ∷ olds) [] r rest e fits v p = absurd (omega arith)
  deserialize_each-Takes (old ∷ olds) (t ∷ ts) r rest e fits v p =
      Takes-bind (c.deserialize old r) _
        (c.deserialize-Takes old t r (encoding_each ts ++ rest) fits.0 v
          (p ∙ append_assoc (c.encoding t) (encoding_each ts) rest))
        (λ r' v' p'.
          Takes-bind (deserialize_each olds r') _
            (deserialize_each-Takes olds ts r' rest (omega arith) fits.1 v' p')
            (λ r'' v'' p''. (r'', refl, p'', v'')))
