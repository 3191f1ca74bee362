-- ===== src/Compare/Tests.antt =====
-- A list with neighbours that are equal once it is sorted.
use metrics.Common.{◌≡◌, refl, [], ◌∷◌}
use metrics.Compare.{cmp_nat, insert_sorted, sort, dedup_from, dedup}

sorted : dedup cmp_nat (sort cmp_nat (3 ∷ 1 ∷ 3 ∷ 2 ∷ [])) ≡ 1 ∷ 2 ∷ 3 ∷ []
unfolding dedup sort insert_sorted dedup_from
sorted = refl
