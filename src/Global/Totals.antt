-- ===== src/Global/Totals.antt =====
-- After any client program every identity's counters are the totals of the calls made under it.
use metrics.Common.{
  ℕ, ◌+◌, ◌%◌, ◌^◌, ◌<◌, ◌≡◌, ◌≢◌, ◌∙◌, ap, subst, refl, List, [], ◌∷◌, none, some, arith, ite,
  sum_of, foldl,
}
use mathlib.Core.Logic.{if_pos, if_neg}
use metrics.Common.Panic.{ok}
use metrics.Slot.{Slot, default, Counter, read}
use metrics.Slot.Atomic.{run_call}
use metrics.Slot.Totals.{contribution, read-run_call}
use metrics.Slot.Invariant.{default-zero}
use metrics.Storage.Holds.{ptr_of}
use metrics.Registry.{Metric, from_item}
use metrics.Registry.Keys.{Key, Key-discrete}
use metrics.Registry.Refinement.{Request, request_key, policy_of}
use metrics.Global.{Registry, new_registry, shard_of, serve, read_item}
use metrics.Global.Defined.{requested}
use metrics.Global.Counters.{View, put, or_default, serve-Views}
use metrics.Global.Handles.{
  Command, registered, used, amount, after, exec_all, exec_all-Views, new_registry-Views,
  shown-read,
}

-- The value of a counter of an identity, in a view.
abbrev value : Counter → Key → View → ℕ
value ctr key view = read ctr (or_default (view key))

put_self : (view : View) (key : Key) (slot : Slot) → put view key slot key ≡ some slot
put_self view key slot = if_pos (Key-discrete key key) refl _ _

put_ne : (view : View) (key k : Key) (slot : Slot) → key ≢ k → put view key slot k ≡ view k
put_ne view key k slot h = if_neg (Key-discrete key k) h _ _

after_registered :
    (request : Request) (view : View) (k : Key)
    → or_default (after (registered request) view k) ≡ or_default (view k)
after_registered request view k =
    let key = request_key request in
    elim (Key-discrete key k) [
      | yes same ↦
          subst
            (λ (g : Key). or_default (put view key (or_default (view key)) g) ≡ or_default (view g))
            same (ap or_default (put_self view key (or_default (view key))))
      | no other ↦ ap or_default (put_ne view key k (or_default (view key)) other)
    ]

-- One command adds its amount to each counter of each identity, modulo 2 ^ 64.
after-value :
    (command : Command) (ctr : Counter) (k : Key) (view : View)
    → value ctr k view < 2 ^ 64
    → value ctr k (after command view) ≡ (value ctr k view + amount k ctr command) % 2 ^ 64
unfolding amount
after-value (registered request) ctr k view h =
    let same : value ctr k (after (registered request) view) ≡ value ctr k view =
      ap (read ctr) (after_registered request view k) in
    omega arith
after-value (used request call) ctr k view h =
    let key = request_key request in
    let view' = put view key (or_default (view key)) in
    let slot = run_call (policy_of request) call (or_default (view' key)) in
    let stood : or_default (view' key) ≡ or_default (view key) =
      ap or_default (put_self view key (or_default (view key))) in
    elim (Key-discrete key k) [
      | yes same ↦
          subst
            (λ (g : Key).
              value ctr g view < 2 ^ 64
              → value ctr g (put view' key slot)
                ≡ (value ctr g view
                    + ite (Key-discrete key g) (contribution (policy_of request) ctr call) 0)
                  % 2 ^ 64)
            same
            (λ h'.
              rw
                (
                  put_self view' key slot,
                  stood,
                  if_pos (Key-discrete key key) refl (contribution (policy_of request) ctr call) 0,
                )
                (read-run_call (policy_of request) ctr call (or_default (view key)) h'))
            h
      | no other ↦
          rw
            (
              put_ne view' key k slot other,
              put_ne view key k (or_default (view key)) other,
              if_neg (Key-discrete key k) other (contribution (policy_of request) ctr call) 0,
            )
            (omega arith)
    ]

after_all-value :
    (commands : List Command) (ctr : Counter) (k : Key) (view : View)
    → value ctr k view < 2 ^ 64
    → value ctr k (foldl (λ w command. after command w) view commands)
      ≡ (value ctr k view + sum_of (amount k ctr) commands) % 2 ^ 64
after_all-value [] ctr k view h = omega arith
after_all-value (command ∷ rest) ctr k view h =
    let one = after-value command ctr k view h in
    omega (arith, after_all-value rest ctr k (after command view) (omega arith))

-- From a fresh registry every client program runs to its end without a panic and without touching
-- memory that is not a slot. Whoever then asks for a handle under an identity reads behind it, in each
-- of the six counters, the sum of what the program's calls under that identity contribute to it,
-- modulo 2 ^ 64, whatever the hash function, however often handles were obtained again, and whatever
-- was registered in between.
pub exec_all-totals :
    (hash : Key → ℕ) (commands : List Command) (request : Request)
    → (registry registry' : Registry) × (metric : Metric) × (slot : Slot) × (exec_all hash commands
          new_registry
        ≡ ok registry)
      × (serve hash request registry ≡ ok (metric, registry'))
      × (metric.policy ≡ policy_of request)
      × (read_item metric.item registry' ≡ ok slot)
      × ((ctr : Counter)
          → read ctr slot ≡ sum_of (amount (request_key request) ctr) commands % 2 ^ 64)
exec_all-totals hash commands request =
    let (registry, c, ran, v, kept) =
      exec_all-Views hash commands new_registry (λ i. []) (λ k. none) (new_registry-Views hash) in
    let view = foldl (λ w command. after command w) (λ k. none) commands in
    let (registry', n, served, found, v') = serve-Views hash request registry c view v in
    let key = request_key request in
    let view' = put view key (or_default (view key)) in
    (
      registry,
      registry',
      from_item (ptr_of (shard_of hash key) n) (policy_of request),
      or_default (view' key),
      ran,
      served,
      refl,
      shown-read hash registry' (requested hash request c) view' key n v' found,
      λ ctr. totals ctr,
    )
  where
    totals :
        (ctr : Counter)
        → let key = request_key request in
          let view = foldl (λ w command. after command w) (λ k. none) commands in
          read ctr (or_default (put view key (or_default (view key)) key))
          ≡ sum_of (amount key ctr) commands % 2 ^ 64
    totals ctr =
        let key = request_key request in
        let view = foldl (λ w command. after command w) (λ k. none) commands in
        let zero_start : read ctr default ≡ 0 = default-zero ctr in
        ap (λ o. read ctr (or_default o)) (put_self view key (or_default (view key)))
        ∙ after_all-value commands ctr key (λ k. none) (omega arith)
        ∙ omega arith
