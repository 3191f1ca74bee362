-- ===== src/Scalar/Identity.antt =====
-- A pointer to a counter or a gauge stands for one identity.
use metrics.Common.{
  ℕ, ◌≡◌, ◌↔◌, ◌∙◌, sym, ap, refl, List, [], ◌∷◌, some, All, ℕ_discrete, update_self, update_eq,
  update_ne, arith,
}
use metrics.Common.Panic.{Outcome, ok, ◌>>=◌}
use metrics.Storage.{ItemPtr}
use metrics.Storage.Holds.{ptr_of}
use metrics.Storage.Slots.{ptr_of-injective, ptr_of-region}
use metrics.Keyed.Find.{find_by_lt, find_by-injective}
use metrics.Scalar.{ScalarRegistry, HashKey}
use metrics.Scalar.Keys.{HashKey-discrete, meta_key}
use metrics.Scalar.Serves.{
  Request, key_of, IsValid, Contents, find, remember_request, remember_request-found,
  remember_request-kept, Serves, InUse, shard_of, perform, requested, perform-Serves,
}

module _ (hash : HashKey → ℕ) where
  unfoldable pub perform_all : List Request → ScalarRegistry → Outcome ScalarRegistry
  perform_all [] registry = ok registry
  perform_all (request ∷ rest) registry = do
    (item, registry') ← perform hash request registry
    perform_all rest registry'

  -- Every identity that was found is found where it was.
  abbrev pub Keeps : Contents → Contents → Type 0
  Keeps c c' =
      (k : HashKey) (n : ℕ)
      → find k (c (shard_of hash k)) ≡ some n
      → find k (c' (shard_of hash k)) ≡ some n

  requested-Keeps : (request : Request) (c : Contents) → Keeps c (requested hash request c)
  requested-Keeps request c k n h =
      let i = shard_of hash (key_of request) in
      elim (ℕ_discrete i (shard_of hash k)) [
        | yes same ↦
            ap (find k) (update_eq c i (shard_of hash k) _ same)
            ∙ remember_request-kept request k i (c i) (ap (λ (g : ℕ). find k (c g)) same ∙ h)
        | no other ↦ ap (find k) (update_ne c i (shard_of hash k) _ other) ∙ h
      ]

  perform_all-Serves :
      (requests : List Request) (registry : ScalarRegistry) (c : Contents)
      → All IsValid requests
      → Serves registry c
      → (registry' : ScalarRegistry) × (c' : Contents) × (perform_all requests registry
          ≡ ok registry')
        × Serves registry' c'
        × Keeps c c'
  unfolding perform_all
  perform_all-Serves [] registry c valid s = (registry, c, refl, s, λ k n h. h)
  perform_all-Serves (request ∷ rest) registry c (v, valid) s =
      let (registry1, e, s1, words) = perform-Serves hash request registry c v s in
      let (registry', c', f, s', kept) =
        perform_all-Serves rest registry1 (requested hash request c) valid s1 in
      (registry', c', rw (e, f), s', λ k n h. kept k n (requested-Keeps request c k n h))

  pub requested-found :
      (request : Request) (c : Contents)
      → (n : ℕ) × ((remember_request request
            (shard_of hash (key_of request))
            (c (shard_of hash (key_of request)))).0
          ≡ ptr_of (shard_of hash (key_of request)) n)
        × (find (key_of request) (requested hash request c (shard_of hash (key_of request)))
            ≡ some n)
  requested-found request c =
      let i = shard_of hash (key_of request) in
      let (n, e, found) = remember_request-found request i (c i) in
      (n, e, ap (find (key_of request)) (update_self c i _) ∙ found)

  pub InUse-found :
      (c : Contents) (k : HashKey) (n : ℕ) {p : ItemPtr}
      → p ≡ ptr_of (shard_of hash k) n
      → find k (c (shard_of hash k)) ≡ some n
      → InUse c p
  InUse-found c k n at found = record {
    shard = shard_of hash k;
    place = n;
    shard_lt = omega arith;
    place_lt = find_by_lt HashKey-discrete meta_key k (c (shard_of hash k)) found;
    at = at;
  }

  pub same_place_iff :
      (c : Contents) (k k' : HashKey) (n n' : ℕ)
      → find k (c (shard_of hash k)) ≡ some n
      → find k' (c (shard_of hash k')) ≡ some n'
      → (ptr_of (shard_of hash k) n ≡ ptr_of (shard_of hash k') n') ↔ (k ≡ k')
  same_place_iff c k k' n n' h h' = (forth, back)
    where
      forth : ptr_of (shard_of hash k) n ≡ ptr_of (shard_of hash k') n' → k ≡ k'
      forth e =
          let region : shard_of hash k ≡ shard_of hash k' =
            ptr_of-region (shard_of hash k) (shard_of hash k') n n' e in
          let place : n ≡ n' =
            ptr_of-injective (shard_of hash k) n n'
              (e ∙ ap (λ (g : ℕ). ptr_of g n') (sym region)) in
          find_by-injective HashKey-discrete meta_key k k' (c (shard_of hash k)) h
            (ap (λ (g : ℕ). find k' (c g)) region ∙ h') place

      back : k ≡ k' → ptr_of (shard_of hash k) n ≡ ptr_of (shard_of hash k') n'
      back e =
          let both : some n ≡ some n' =
            sym h ∙ ap (λ (g : HashKey). find g (c (shard_of hash g))) e ∙ h' in
          let place : n ≡ n' = cc both in
          ap (λ (g : HashKey). ptr_of (shard_of hash g) n) e ∙ ap (ptr_of (shard_of hash k')) place

  subst2_iff : {p p' q q' : ItemPtr} {A : Type 0} → p ≡ p' → q ≡ q' → (p' ≡ q') ↔ A → (p ≡ q) ↔ A
  subst2_iff e f (forth, back) = (λ h. forth (sym e ∙ h ∙ f), λ a. e ∙ back a ∙ sym f)

  -- Two valid registrations with others between them, and the registry in good order behind them.
  pub record Apart (first second : Request) (between : List Request) (registry : ScalarRegistry)
      : Type 0 where
    pub p : ItemPtr
    pub q : ItemPtr
    pub r1 : ScalarRegistry
    pub r2 : ScalarRegistry
    pub r3 : ScalarRegistry
    pub c : Contents
    pub first_done : perform hash first registry ≡ ok (p, r1)
    pub between_done : perform_all between r1 ≡ ok r2
    pub second_done : perform hash second r2 ≡ ok (q, r3)
    pub serves : Serves r3 c
    pub p_used : InUse c p
    pub q_used : InUse c q
    pub same_iff : (p ≡ q) ↔ (key_of first ≡ key_of second)

  pub perform-Apart :
      (first second : Request) (between : List Request) (registry : ScalarRegistry) (c : Contents)
      → IsValid first
      → IsValid second
      → All IsValid between
      → Serves registry c
      → Apart first second between registry
  perform-Apart first second between registry c v1 v2 valid s =
      let (registry1, e1, s1, words1) = perform-Serves hash first registry c v1 s in
      let (n1, p, found) = requested-found first c in
      let (registry2, c', e2, s2, kept) =
        perform_all-Serves between registry1 (requested hash first c) valid s1 in
      let (registry3, e3, s3, words3) = perform-Serves hash second registry2 c' v2 s2 in
      let (n2, q, found') = requested-found second c' in
      let found1 = requested-Keeps second c' (key_of first) n1 (kept (key_of first) n1 found) in
      record {
        p = _;
        q = _;
        r1 = registry1;
        r2 = registry2;
        r3 = registry3;
        c = requested hash second c';
        first_done = e1;
        between_done = e2;
        second_done = e3;
        serves = s3;
        p_used = InUse-found (requested hash second c') (key_of first) n1 p found1;
        q_used = InUse-found (requested hash second c') (key_of second) n2 q found';
        same_iff = subst2_iff p q (
            same_place_iff (requested hash second c') (key_of first) (key_of second) n1 n2 found1
              found');
      }

  -- On a registry that satisfies the invariant, let any valid registrations run between two valid ones.
  -- All succeed, and the two give the same word exactly when they were made under one identity: kind,
  -- counter or gauge, and the name or the labels.
  pub perform-same_item_iff :
      (first second : Request) (between : List Request) (registry : ScalarRegistry) (c : Contents)
      → IsValid first
      → IsValid second
      → All IsValid between
      → Serves registry c
      → (p q : ItemPtr) × (r1 r2 r3 : ScalarRegistry) × (perform hash first registry ≡ ok (p, r1))
        × (perform_all between r1 ≡ ok r2)
        × (perform hash second r2 ≡ ok (q, r3))
        × ((p ≡ q) ↔ (key_of first ≡ key_of second))
  perform-same_item_iff first second between registry c v1 v2 valid s =
      let a = perform-Apart first second between registry c v1 v2 valid s in
      (a.p, a.q, a.r1, a.r2, a.r3, a.first_done, a.between_done, a.second_done, a.same_iff)
