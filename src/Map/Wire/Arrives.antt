-- ===== src/Map/Wire/Arrives.antt =====
-- A map arrives over any other.
use storm_net.Prelude.{ℕ, ◌≤◌, ◌<◌, List, [], ◌∷◌}
use storm_net.BitReader.{BitReader}
use storm_net.BitReader.Content.{IsValid as ReaderValid}
use storm_net.Codec.{Codec}

module _ {T : Type 0} where
  abbrev Below : ℕ → List (ℕ × T) → Type 0
  Below k [] = Unit
  Below k (entry ∷ entries) = (entry.0 < k) × Below k entries

module _ {T : Type 0} (c : Codec T) (max_size : ℕ) where
  -- What keys and values fit the wire.
  abbrev pub FitEntries : List (ℕ × T) → Type 0
  FitEntries [] = Unit
  FitEntries (entry ∷ entries) = (entry.0 ≤ max_size) × c.Fits entry.1 × FitEntries entries
