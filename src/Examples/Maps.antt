-- ===== src/Examples/Maps.antt =====
-- Maps at concrete values.
use storm_net.Prelude.{ℕ, ◌≡◌, ◌↔◌, ==_iff, arith, List, [], ◌∷◌, true, ◌==◌, if◌then◌else◌, some}
use storm_net.Result.{ok}
use storm_net.BitReader.{BitReader, new, vector_memory}
use storm_net.BitReader.Content.{IsValid as ReaderValid}
use storm_net.Codec.{Codec}
use storm_net.Codec.Basic.{enum_codec}
use storm_net.Map.{get, map_eq}
use storm_net.Map.Order.{Ascending}
use storm_net.Map.Operations.{setting, apply, apply-after}
use storm_net.Map.Equality.{map_eq-get}

abbrev sevens : Codec ℕ
sevens = enum_codec 7 (omega arith)

abbrev two_entries : List (ℕ × ℕ)
two_entries = (1, 5) ∷ (4, 2) ∷ []

abbrev three_entries : List (ℕ × ℕ)
three_entries = (0, 1) ∷ (4, 6) ∷ (6, 0) ∷ []

apply-after_example :
    (entries : List (ℕ × ℕ)) × (apply 3 (setting 2 9) two_entries ≡ ok entries)
    × Ascending 0 entries
    × ((j : ℕ) → get j entries ≡ (if j == 2 then some 9 else get j two_entries))
apply-after_example = apply-after 3 (setting 2 9) two_entries (omega arith, (omega arith, tt))

map_eq-get_example :
    (map_eq (λ x y. x == y) two_entries three_entries ≡ true)
    ↔ ((k : ℕ) → get k two_entries ≡ get k three_entries)
map_eq-get_example =
    map_eq-get (λ x y. x == y) two_entries three_entries (λ x y. ==_iff x y)
      (omega arith, (omega arith, tt)) (omega arith, (omega arith, (omega arith, tt)))

-- The two values, over a map of three.
abbrev reading_two : BitReader
reading_two = new (vector_memory (74 ∷ 41 ∷ []) (λ a. 0)) 0 2
