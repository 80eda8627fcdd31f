-- ===== src/Util.antt =====
-- src/components/utilities/util.cpp: C strings that are compared, and texts that are split.
mod Tests
use sip_processing.Prelude.{
  ℕ, zero, suc, ◌+◌, ◌-◌, ◌%◌, ◌^◌, Bool, true, false, List, [], ◌∷◌, ◌++◌, Text, ◌==◌,
  if◌then◌else◌,
}
use sip_processing.Buffers.{to_upper}

-- The loop, with the rounds that are left.
unfoldable pub equivalent_from : ℕ → Text → Text → Bool
unfolding to_upper
equivalent_from zero s1 s2 = true
equivalent_from (suc processing) [] s2 = true
equivalent_from (suc processing) (c ∷ s1) [] = true
equivalent_from (suc processing) (c ∷ s1) (d ∷ s2) =
    if to_upper c == to_upper d then equivalent_from processing s1 s2 else false

-- `--processing` of a `size_t` wraps around.
unfoldable pub are_equivalent : Text → Text → ℕ → Bool
unfolding equivalent_from
are_equivalent s1 s2 max = equivalent_from ((max + 2 ^ 64 - 1) % 2 ^ 64) s1 s2

-- `std::getline` over the text, `item` the part that is read already; a text that ends behind a
-- delimiter has no empty item at its end.
unfoldable pub items_from : ℕ → Text → Text → List Text
items_from delim [] [] = []
items_from delim (c ∷ item) [] = (c ∷ item) ∷ []
items_from delim item (c ∷ s) =
    if c == delim then item ∷ items_from delim [] s else items_from delim (item ++ (c ∷ [])) s

unfoldable pub split : Text → ℕ → List Text
unfolding items_from
split s delim = items_from delim [] s

-- What stands before the first delimiter and behind it.
unfoldable pub split_on_first : Text → ℕ → Text × Text
split_on_first [] delim = ([], [])
split_on_first (c ∷ s) delim =
    let rest = split_on_first s delim in if c == delim then ([], s) else (c ∷ rest.0, rest.1)
