-- ===== src/Codec/Steps.antt =====
-- The steps of which serializers are made: a field written, a field read, one call after another.
use native.Mathlib.Nat.{mod-eq_of_lt}
use storm_net.Prelude.{ℕ, ◌^◌, ◌≤◌, ◌<◌, ◌≡◌, ap, ◌∙◌, List, ◌++◌, append_assoc}
use storm_net.Bits.{to_bits}
use storm_net.Result.{Result, ok, ◌>>=◌}
use storm_net.BitReader.{BitReader, read_ubits}
pub use storm_net.BitWriter.Append.{Appends-nil, Appends-then, write_bits-Appends}
use storm_net.BitReader.Content.{left, IsValid as ReaderValid}
use storm_net.BitReader.Take.{read_ubits-Reads}
use storm_net.Codec.{Takes}

pub read_ubits-Takes :
    (n v : ℕ) (r : BitReader) (rest : List ℕ)
    → n ≤ 64
    → v < 2 ^ n
    → ReaderValid r
    → left r ≡ to_bits n v ++ rest
    → Takes (read_ubits n r) v rest
read_ubits-Takes n v r rest fits small valid p =
    let (r', read, behind, valid', _) = read_ubits-Reads n v r rest fits valid p in
    (r', read ∙ ap (λ (t : ℕ). ok (t, r')) (mod-eq_of_lt small), behind, valid')

pub Takes-bind :
    {T U : Type 0} (m : Result (T × BitReader)) (f : T × BitReader → Result (U × BitReader)) {t : T}
    {u : U} {rest rest' : List ℕ}
    → Takes m t rest
    → ((r : BitReader) → ReaderValid r → left r ≡ rest → Takes (f (t, r)) u rest')
    → Takes (m >>= f) u rest'
Takes-bind m f p next = let (r, read, behind, valid) = p in rw read (next r valid behind)

-- The field in front of others.
pub read_field :
    {U : Type 0} (n v : ℕ) (r : BitReader) (more rest : List ℕ) {rest' : List ℕ}
    (f : ℕ × BitReader → Result (U × BitReader)) {u : U}
    → n ≤ 64
    → v < 2 ^ n
    → ReaderValid r
    → left r ≡ (to_bits n v ++ more) ++ rest
    → ((r' : BitReader) → ReaderValid r' → left r' ≡ more ++ rest → Takes (f (v, r')) u rest')
    → Takes (read_ubits n r >>= f) u rest'
read_field n v r more rest f fits small valid p next =
    Takes-bind (read_ubits n r) f
      (read_ubits-Takes n v r (more ++ rest) fits small valid
        (p ∙ append_assoc (to_bits n v) more rest))
      next
