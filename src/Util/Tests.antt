-- ===== src/Util/Tests.antt =====
-- src/components/utilities/util.cpp at work.
use sip_processing.Prelude.{◌≡◌, refl, true, [], ◌∷◌, codes}
use sip_processing.Util.{are_equivalent, split, split_on_first}

-- A string is equivalent to each of its beginnings.
beginning : are_equivalent (codes "c") (codes "Content-Type") 0 ≡ true
unfolding are_equivalent
beginning = refl

split_path : split (codes "a..b.") b'.' ≡ codes "a" ∷ [] ∷ codes "b" ∷ []
unfolding split
split_path = refl

split_pair : split_on_first (codes "k=v=w") b'=' ≡ (codes "k", codes "v=w")
unfolding split_on_first
split_pair = refl
