-- ===== src/Examples/Maps.antt =====
-- Version maps.
use cola.Prelude.{ℕ, ◌≤◌, ◌≡◌, ◌↔◌, true, [], ◌∷◌, arith}
use cola.VersionMap
use cola.VersionMap.{BaseMap, ge, le, get}
use cola.VersionMap.Order.{ge_iff}

smaller : BaseMap
smaller = record { this_id = 1; this_value = 5; rest = (2, 3) ∷ [] }

larger : BaseMap
larger = record { this_id = 2; this_value = 4; rest = (3, 1) ∷ (1, 5) ∷ [] }

smaller-IsValid : VersionMap.IsValid smaller
unfolding smaller
smaller-IsValid = ((omega arith, tt), (tt, tt))

larger-IsValid : VersionMap.IsValid larger
unfolding larger
larger-IsValid = ((omega arith, (omega arith, tt)), ((omega arith, tt), (tt, tt)))

ge_iff_example : (ge larger smaller ≡ true) ↔ ((id : ℕ) → get smaller id ≤ get larger id)
ge_iff_example = ge_iff larger smaller larger-IsValid smaller-IsValid
