-- ===== src/Scalar/Executed.antt =====
-- Programs over the handles of src/scalar.rs keep the registry in good order, and each changes the
-- word of its identities alone.
use metrics.Common.{ℕ, ◌≡◌, ◌∙◌, refl, sym, ap, subst, List, [], ◌∷◌, some, arith, ite, All}
use mathlib.Core.Logic.{if_pos, if_neg}
use metrics.Common.Panic.{ok, ok-injective}
use metrics.Storage.{ItemPtr}
use metrics.Storage.Holds.{ptr_of}
use metrics.Keyed.Find.{find_by}
use metrics.Scalar.{ScalarRegistry, HashKey, new_registry}
use metrics.Scalar.Keys.{HashKey-discrete}
use metrics.Scalar.Handles.{read_word}
use metrics.Scalar.Serves.{
  Request, IsValid, key_of, Contents, Serves, Shows, shard_of, perform, requested, perform-Serves,
  new_registry-Serves,
}
use metrics.Scalar.Identity.{requested-found, InUse-found, same_place_iff}
use metrics.Scalar.Words.{update_word_at-UpdatedTo}
use metrics.Scalar.Programs.{
  Command, request_of, effect, IsAccepted, request_of-IsValid, word_after, exec, exec_all,
  exec-perform, Shows-read, Shows-none, read-Shows,
}

module _ (hash : HashKey → ℕ) where
  -- The registry is in good order, and every identity has its word in it.
  record Holds (registry : ScalarRegistry) (c : Contents) (view : HashKey → ℕ) : Type 0 where
    pub serves : Serves registry c
    pub shown : (k : HashKey) → Shows registry c (shard_of hash k) k (view k)

  new_registry-Holds : Holds new_registry (λ i. []) (λ k. 0)
  unfolding find_by
  new_registry-Holds = record {
    serves = new_registry-Serves;
    shown = λ k.
        read-Shows hash new_registry (λ i. []) k 0 new_registry-Serves
          (λ n h. absurd (ground arith)) (λ h. refl);
  }

  abbrev changed : Command → (HashKey → ℕ) → HashKey → ℕ
  changed command view k =
      ite (HashKey-discrete (key_of (request_of command)) k) (effect command (view k)) (view k)

  exec-Holds :
      (command : Command) (registry : ScalarRegistry) (c : Contents) (view : HashKey → ℕ)
      → IsAccepted command
      → Holds registry c view
      → (registry' : ScalarRegistry) × (exec hash command registry ≡ ok registry')
        × Holds registry' (requested hash (request_of command) c) (changed command view)
  exec-Holds command registry c view accepted v =
      let request = request_of command in
      let key = key_of request in
      let c1 = requested hash request c in
      let (r1, e, s1, words) =
        perform-Serves hash request registry c (request_of-IsValid command accepted) v.serves in
      let (n, at, found) = requested-found hash request c in
      let (r2, done, up) =
        update_word_at-UpdatedTo r1 c1 (ptr_of (shard_of hash key) n) (effect command) s1
          (InUse-found hash c1 key n refl found) in
      let stood = λ (k : HashKey). words (shard_of hash k) k (view k) (v.shown k) in
      let value : up.value ≡ view key =
        ok-injective
          (sym up.before ∙ Shows-read hash r1 c1 key n (view key) s1 found (stood key)) in
      (
        r2,
        exec-perform hash command registry r1 (ptr_of (shard_of hash key) n)
              (e ∙ ap (λ p. ok (p, r1)) at)
            ∙ done,
        record {
          serves = up.serves;
          shown = λ k. elim (HashKey-discrete key k) [
            | yes same ↦
                subst (λ (g : HashKey). Shows r2 c1 (shard_of hash g) g (changed command view g))
                  same
                  (read-Shows hash r2 c1 key (changed command view key) up.serves
                    (λ m there.
                      let place : some m ≡ some n = sym there ∙ found in
                      let m_n : m ≡ n = cc place in
                      ap (λ (g : ℕ). read_word (ptr_of (shard_of hash key) g) r2) m_n
                      ∙ up.after
                      ∙ ap (λ (w : ℕ). ok (effect command w)) value
                      ∙ ap (λ (w : ℕ). ok w) (sym (if_pos (HashKey-discrete key key) refl _ _)))
                    (λ new. absurd (ground (arith, new, found))))
            | no other ↦
                subst (Shows r2 c1 (shard_of hash k) k)
                  (sym (if_neg (HashKey-discrete key k) other _ _))
                  (read-Shows hash r2 c1 k (view k) up.serves
                    (λ m there.
                      up.others (ptr_of (shard_of hash k) m) (InUse-found hash c1 k m refl there)
                        (λ same. other ((same_place_iff hash c1 key k n m found there).0 same))
                      ∙ Shows-read hash r1 c1 k m (view k) s1 there (stood k))
                    (λ new. Shows-none hash r1 c1 k (view k) s1 new (stood k)))
          ];
        },
      )

  exec_all-Holds :
      (commands : List Command) (registry : ScalarRegistry) (c : Contents) (view : HashKey → ℕ)
      → All IsAccepted commands
      → Holds registry c view
      → (registry' : ScalarRegistry) × (c' : Contents) × (exec_all hash commands registry
          ≡ ok registry')
        × Holds registry' c' (λ k. word_after k commands (view k))
  unfolding exec_all word_after
  exec_all-Holds [] registry c view accepted v = (registry, c, refl, v)
  exec_all-Holds (command ∷ rest) registry c view (a, accepted) v =
      let (r1, e, v1) = exec-Holds command registry c view a v in
      let (r2, c2, f, v2) =
        exec_all-Holds rest r1 (requested hash (request_of command) c) (changed command view)
          accepted v1 in
      (r2, c2, rw (e, f), v2)

  -- A request after a program finds the word of its identity.
  pub perform-after :
      (commands : List Command) (request : Request)
      → All IsAccepted commands
      → IsValid request
      → (registry registry' : ScalarRegistry) × (p : ItemPtr) × (exec_all hash commands new_registry
          ≡ ok registry)
        × (perform hash request registry ≡ ok (p, registry'))
        × (read_word p registry' ≡ ok (word_after (key_of request) commands 0))
  perform-after commands request accepted valid =
      let (registry, c, ran, v) =
        exec_all-Holds commands new_registry (λ i. []) (λ k. 0) accepted new_registry-Holds in
      let (registry', e, s, words) = perform-Serves hash request registry c valid v.serves in
      let key = key_of request in
      let (n, at, found) = requested-found hash request c in
      (
        registry,
        registry',
        ptr_of (shard_of hash key) n,
        ran,
        e ∙ ap (λ p. ok (p, registry')) at,
        Shows-read hash registry' (requested hash request c) key n (word_after key commands 0) s
            found (words (shard_of hash key) key (word_after key commands 0) (v.shown key)),
      )
