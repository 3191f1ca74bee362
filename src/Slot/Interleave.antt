-- ===== src/Slot/Interleave.antt =====
-- Threads that call `record` and `increment` on one slot at once: their `fetch_add` calls
-- interleave in any order.
use metrics.Common.{
  ℕ, ◌+◌, ◌%◌, ◌^◌, ◌≤◌, ◌<◌, ◌≡◌, refl, List, [], ◌∷◌, ◌++◌, map, arith, sum_of, sum_of-append,
  All,
}
use metrics.Kind.{MetricPolicy}
use metrics.Slot.{Slot, Counter, read}
use metrics.Slot.Atomic.{Add, apply, Call, adds, amount_for, amount_of, read-apply}
use metrics.Slot.Totals.{contribution, amount_of-adds, apply_word}

-- What each thread has still to do.
abbrev pub Threads : Type 0
Threads = List (List Add)

-- Some thread makes its next atomic call.
pub data Pick : Threads → Add → Threads → Type 0 where
  here : {a : Add} {rest : List Add} {ts : Threads} → Pick ((a ∷ rest) ∷ ts) a (rest ∷ ts)
  there : {a : Add} {t : List Add} {ts us : Threads} → Pick ts a us → Pick (t ∷ ts) a (t ∷ us)

-- The slot and the threads, before and after any number of atomic calls.
pub data Run : Slot → Threads → Slot → Threads → Type 0 where
  stop : {s : Slot} {ts : Threads} → Run s ts s ts
  step :
      {s s' : Slot} {a : Add} {ts us vs : Threads}
      → Pick ts a us
      → Run (apply s a) us s' vs
      → Run s ts s' vs

-- The atomic calls of a thread that makes these calls in sequence.
unfoldable pub thread : MetricPolicy → List Call → List Add
thread policy [] = []
thread policy (call ∷ rest) = adds policy call ++ thread policy rest

abbrev pub pending : Counter → Threads → ℕ
pending c = sum_of (amount_of c)

-- Every thread has finished.
abbrev pub IsDone : Threads → Type 0
IsDone = All (λ t. t ≡ [])

Pick-pending :
    (c : Counter) {ts us : Threads} {a : Add}
    → Pick ts a us
    → pending c ts ≡ amount_for c a + pending c us
Pick-pending c here = omega arith
Pick-pending c (there p) = omega (arith, Pick-pending c p)

IsDone-pending : (c : Counter) (ts : Threads) → IsDone ts → pending c ts ≡ 0
IsDone-pending c [] h = refl
IsDone-pending c ([] ∷ ts) (e, h) = omega (arith, IsDone-pending c ts h)
IsDone-pending c ((a ∷ t) ∷ ts) (e, h) = absurd (ground arith)

-- What a counter holds and what is still to be added never change, modulo 2 ^ 64.
Run-conserved :
    (c : Counter) {s s' : Slot} {ts us : Threads}
    → Run s ts s' us
    → (read c s' + pending c us) % 2 ^ 64 ≡ (read c s + pending c ts) % 2 ^ 64
Run-conserved c stop = refl
Run-conserved c (step {s} {a = a} p r) =
    omega (arith, Pick-pending c p, Run-conserved c r, read-apply c s a)

Run-word :
    (c : Counter) {s s' : Slot} {ts us : Threads}
    → Run s ts s' us
    → read c s < 2 ^ 64
    → read c s' < 2 ^ 64
Run-word c stop h = h
Run-word c (step {s} {a = a} p r) h = Run-word c r (apply_word c s a h)

amount_of-thread :
    (policy : MetricPolicy) (c : Counter) (calls : List Call)
    → amount_of c (thread policy calls) ≡ sum_of (contribution policy c) calls
unfolding thread
amount_of-thread policy c [] = refl
amount_of-thread policy c (call ∷ rest) = omega (
  arith,
  sum_of-append (amount_for c) (adds policy call) (thread policy rest),
  amount_of-adds policy c call,
  amount_of-thread policy c rest,
)

pending-threads :
    (policy : MetricPolicy) (c : Counter) (work : List (List Call))
    → pending c (map (thread policy) work) ≡ sum_of (sum_of (contribution policy c)) work
pending-threads policy c [] = refl
pending-threads policy c (calls ∷ work) =
    omega (arith, amount_of-thread policy c calls, pending-threads policy c work)

-- Whatever the order in which the atomic calls of any number of threads interleave, once all have
-- finished each counter that was a 64-bit word holds its old value plus the sum of the contributions of all the calls,
-- modulo 2 ^ 64: no update is lost.
pub Run-no_lost_update :
    (policy : MetricPolicy) (c : Counter) (work : List (List Call)) {s s' : Slot} {us : Threads}
    → read c s < 2 ^ 64
    → Run s (map (thread policy) work) s' us
    → IsDone us
    → read c s' ≡ (read c s + sum_of (sum_of (contribution policy c)) work) % 2 ^ 64
Run-no_lost_update policy c work {us = us} h r d =
    omega (
      arith,
      Run-conserved c r,
      Run-word c r h,
      IsDone-pending c us d,
      pending-threads policy c work,
    )

-- A later load of a counter is never below an earlier one, and never above what the counter holds
-- when every thread has finished, if the counter does not reach 2 ^ 64.
pub Run-monotone :
    (c : Counter) {s s' : Slot} {ts us : Threads}
    → read c s + pending c ts < 2 ^ 64
    → Run s ts s' us
    → (read c s ≤ read c s') × (read c s' + pending c us ≡ read c s + pending c ts)
Run-monotone c h stop = (omega arith, refl)
Run-monotone c h (step {s} {a = a} p r) =
    let before = Pick-pending c p in
    let word = apply_word c s a (omega arith) in
    let added = read-apply c s a in omega (arith, Run-monotone c (omega arith) r)
