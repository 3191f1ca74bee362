-- ===== src/Common/Assoc.antt =====
-- A hash map as an association list: `get` and `insert` of `HashMap`, over keys with a decidable
-- equality. The order of the entries stands for the unspecified order of iteration.
use mathlib.Core.Path.{◌≡◌, refl}
use mathlib.Core.Logic.{ite, if_pos, if_neg, ◌≢◌}
use mathlib.Core.List.{List, [], ◌∷◌}
use mathlib.Core.Option.{Option, none, some}
use native.Mathlib.Omega.{arith}
use metrics.Common.Fold.{All}

abbrev pub HashMap : Type 0 → Type 0 → Type 0
HashMap K V = List (K × V)

module _ {K V : Type 0} (dec : Discrete K) where
  unfoldable pub get : K → HashMap K V → Option V
  get k [] = none
  get k ((j, v) ∷ m) = ite (dec j k) (some v) (get k m)

  unfoldable pub insert : K → V → HashMap K V → HashMap K V
  insert k v [] = (k, v) ∷ []
  insert k v ((j, w) ∷ m) = ite (dec j k) ((k, v) ∷ m) ((j, w) ∷ insert k v m)

  pub get-insert :
      (q k : K) (v : V) (m : HashMap K V) → get q (insert k v m) ≡ ite (dec k q) (some v) (get q m)
  unfolding get insert
  get-insert q k v [] = refl
  get-insert q k v ((j, w) ∷ m) = ground (arith, get-insert q k v m)

  pub get-insert_self : (k : K) (v : V) (m : HashMap K V) → get k (insert k v m) ≡ some v
  get-insert_self k v m = ground (arith, get-insert k k v m)

  pub get-insert_ne : (q k : K) (v : V) (m : HashMap K V) → k ≢ q → get q (insert k v m) ≡ get q m
  get-insert_ne q k v m h = ground (arith, get-insert q k v m)

-- What holds of all entries holds after an insertion.
module _ {K V : Type 0} (dec : Discrete K) where
  pub insert-All :
      (P : K × V → Type 0) (k : K) (v : V) (m : HashMap K V)
      → P (k, v)
      → All P m
      → All P (insert dec k v m)
  unfolding insert
  insert-All P k v [] p h = (p, tt)
  insert-All P k v ((j, w) ∷ m) p (first, h) = elim (dec j k) [
    | yes same ↦ rw (if_pos (dec j k) same ((k, v) ∷ m) ((j, w) ∷ insert dec k v m)) (p, h)
    | no other ↦
        rw (if_neg (dec j k) other ((k, v) ∷ m) ((j, w) ∷ insert dec k v m))
          (first, insert-All P k v m p h)
  ]

-- A map of maps: `m.get(k)?.get(j)`, and `m.entry(k).or_default().insert(j, v)`.
abbrev inner : {K V : Type 0} → Option (HashMap K V) → HashMap K V
inner none = []
inner (some m) = m

module _ {J K V : Type 0} (decJ : Discrete J) (decK : Discrete K) where
  unfoldable pub get_under : J → K → HashMap J (HashMap K V) → Option V
  get_under j k m = get decK k (inner (get decJ j m))

  unfoldable pub insert_under : J → K → V → HashMap J (HashMap K V) → HashMap J (HashMap K V)
  insert_under j k v m = insert decJ j (insert decK k v (inner (get decJ j m))) m

  pub get_under-insert_under_self :
      (j : J) (k : K) (v : V) (m : HashMap J (HashMap K V))
      → get_under j k (insert_under j k v m) ≡ some v
  unfolding get_under insert_under
  get_under-insert_under_self j k v m =
      rw (get-insert_self decJ j (insert decK k v (inner (get decJ j m))) m)
        (get-insert_self decK k v (inner (get decJ j m)))

  pub get_under-insert_under_ne :
      (j j' : J) (k k' : K) (v : V) (m : HashMap J (HashMap K V))
      → ¬ ((j ≡ j') × (k ≡ k'))
      → get_under j' k' (insert_under j k v m) ≡ get_under j' k' m
  unfolding get_under insert_under
  get_under-insert_under_ne j j' k k' v m h = elim (decJ j j') [
    | yes e ↦
        let other : k ≢ k' = λ f. h (e, f) in
        rw (← e, get-insert_self decJ j (insert decK k v (inner (get decJ j m))) m)
          (get-insert_ne decK k' k v (inner (get decJ j m)) other)
    | no other ↦ rw (get-insert_ne decJ j' j (insert decK k v (inner (get decJ j m))) m other)
  ]
