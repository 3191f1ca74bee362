-- ===== src/Scalar/Tests.antt =====
-- Runs of counters, gauges and connection guards.
use metrics.Common.{ℕ, ◌≢◌, ◌↔◌, refl, codes, none, true, false}
use metrics.Common.Panic.{ok, panic}
use metrics.Kind.{redis, req, conn, validate, is_conn}
use metrics.Storage.{ItemPtr}
use metrics.Keyed.Register.{Remembers}
use metrics.Scalar.{
  Shard, new_shard, register, counter, gauge, HashKey, by_name, ScalarRegistry, new_registry,
}
use metrics.Scalar.Keys.{HashKey-discrete, meta_key, maps, maps-MapsLaws, new_shard-Registered}
use metrics.Scalar.Registration.{remember, register-remember}
use metrics.Scalar.Serves.{
  Request, named, key_of, perform, Contents, Serves, InUse, new_registry-Serves,
}
use metrics.Scalar.Identity.{perform_all, perform-same_item_iff}
use metrics.Scalar.Handles.{
  CounterMetric, GaugeMetric, ConnMetric, by_plain, connect_to, connect_to-outcome, words_of,
  connect, disconnect, read_word,
}
use metrics.Scalar.Words.{connect-words}
use metrics.Scalar.Programs.{Command, counts, changes, counter_to, gauge_to, exec_all}
use metrics.Scalar.Totals.{updates_under, amount, exec_all-gauge, exec_all-counter}
use metrics.Scalar.Connection
use metrics.Common.{sum_of, ◌%◌, ◌-◌, ◌^◌, ◌≡◌, [], ◌∷◌, List, arith}
use metrics.Common.Int.{pos, negsuc, ◌+ℤ◌}
use metrics.Scalar.Value.{
  Update, add, assign, update_all, meaning, gauge_get, counter_get, gauge_set, gauge_get-update_all,
  gauge_get-set,
}
use metrics.Scalar.Connection.{
  start, Connections, connected, disconnected, Reach, here, next, connection, drop, get_current,
  get_total, Reach-balanced,
}

-- Below zero and back, over a value at the end of the range.
abbrev updates : List Update
updates = add (negsuc 4) ∷ assign (pos (2 ^ 63 - 1)) ∷ add (pos 1) ∷ add (negsuc 2) ∷ []

gauge_get-update_all_example : gauge_get (update_all updates 0) ≡ meaning updates (pos 0)
unfolding ◌+ℤ◌
gauge_get-update_all_example =
    gauge_get-update_all updates
      (
        (omega arith, omega arith),
        (
          (omega arith, omega arith),
          ((omega arith, omega arith), ((omega arith, omega arith), tt)),
        ),
      )
      (unfold meaning in (omega arith, omega arith))

gauge_get-set_example : gauge_get (gauge_set (negsuc (2 ^ 63 - 1)) 7) ≡ negsuc (2 ^ 63 - 1)
gauge_get-set_example = gauge_get-set (negsuc (2 ^ 63 - 1)) 7 (omega arith, omega arith)

-- Two connections, one of which ends.
abbrev one_left : Connections
one_left = record { conn = disconnected (connected (connected start.conn)); guards = 1; made = 2 }

reached : Reach one_left
reached = next (next (next here connection) connection) (drop (omega arith))

Reach-balanced_example : (get_current one_left.conn ≡ pos 1) × (get_total one_left.conn ≡ 2)
Reach-balanced_example = Reach-balanced {s = one_left} reached (omega arith) (omega arith)

abbrev hash : HashKey → ℕ
hash k = 7

register-remember_example :
    (shard' : Shard) × (register (redis req) counter (codes "hits") none (new_shard 3)
      ≡ ok (
        (remember (redis req) counter (codes "hits") none (new_shard 3).storage.region []).0,
        shard',
      ))
    × Remembers maps maps-MapsLaws 0 HashKey-discrete meta_key
        (λ m. m.item)
        (by_name (redis req) counter (codes "hits"))
        (new_shard 3)
        shard'
        []
        (remember (redis req) counter (codes "hits") none (new_shard 3).storage.region []).1
register-remember_example =
    register-remember (redis req) counter (codes "hits") none (new_shard 3) []
      (new_shard-Registered 3)

abbrev hits : Request
hits = named (redis req) counter (codes "hits")

abbrev live : Request
live = named (redis conn) gauge (codes "hits")

perform-same_item_iff_example :
    (p q : ItemPtr) × (r1 r2 r3 : ScalarRegistry) × (perform hash hits new_registry ≡ ok (p, r1))
    × (perform_all hash (live ∷ []) r1 ≡ ok r2)
    × (perform hash hits r2 ≡ ok (q, r3))
    × ((p ≡ q) ↔ (key_of hits ≡ key_of hits))
unfolding validate
perform-same_item_iff_example =
    perform-same_item_iff hash hits hits (live ∷ []) new_registry (λ i. []) refl refl (refl, tt)
      new_registry-Serves

connect_to-outcome_example :
    (is_conn (redis conn) ≡ false
      → connect_to hash (redis conn) (by_plain (codes "pool")) new_registry ≡ panic)
    × (is_conn (redis conn) ≡ true
        → (made : ConnMetric) × (registry' : ScalarRegistry) × (c' : Contents) × (connect_to hash
              (redis conn)
              (by_plain (codes "pool"))
              new_registry
            ≡ ok (made, registry'))
          × Serves registry' c'
          × InUse c' made.current.item
          × InUse c' made.total.item
          × (made.current.item ≢ made.total.item))
connect_to-outcome_example =
    connect_to-outcome hash (redis conn) (by_plain (codes "pool")) new_registry (λ i. [])
      new_registry-Serves

-- A registry with the two words of a connection metric.
record Pool : Type 0 where
  registry : ScalarRegistry
  contents : Contents
  metric : ConnMetric
  serves : Serves registry contents
  current : InUse contents metric.current.item
  total : InUse contents metric.total.item
  apart : metric.current.item ≢ metric.total.item

pool : Pool
unfolding is_conn
pool =
    let (metric, registry, contents, done, serves, current, total, apart) =
      (connect_to-outcome hash (redis conn) (by_plain (codes "pool")) new_registry (λ i. [])
          new_registry-Serves).1
        refl in
    record {
      registry = registry;
      contents = contents;
      metric = metric;
      serves = serves;
      current = current;
      total = total;
      apart = apart;
    }

connect-words_example :
    (w : Connection.ConnMetric) × (r1 r2 : ScalarRegistry) × (words_of pool.metric pool.registry
      ≡ ok w)
    × (connect pool.metric pool.registry ≡ ok r1)
    × Serves r1 pool.contents
    × (words_of pool.metric r1 ≡ ok (connected w))
    × (disconnect pool.metric pool.registry ≡ ok r2)
    × Serves r2 pool.contents
    × (words_of pool.metric r2 ≡ ok (disconnected w))
    × ((q : ItemPtr)
        → InUse pool.contents q
        → pool.metric.current.item ≢ q
        → pool.metric.total.item ≢ q
        → (read_word q r1 ≡ read_word q pool.registry)
          × (read_word q r2 ≡ read_word q pool.registry))
connect-words_example =
    connect-words pool.registry pool.contents pool.metric pool.serves pool.current pool.total
      pool.apart

-- A gauge below zero and back, with a counter of the same name between.
abbrev program : List Command
program =
    changes (redis req) (by_plain (codes "hits")) (add (negsuc 3))
    ∷ counts (redis req) (by_plain (codes "hits")) 2
    ∷ counts (redis req) (by_plain (codes "misses")) 5
    ∷ changes (redis req) (by_plain (codes "hits")) (add (pos 7))
    ∷ counts (redis req) (by_plain (codes "hits")) (2 ^ 64 - 1)
    ∷ []

exec_all-gauge_example :
    (registry registry' : ScalarRegistry) × (metric : GaugeMetric) × (word : ℕ) × (exec_all hash
        program new_registry
      ≡ ok registry)
    × (gauge_to hash (redis req) (by_plain (codes "hits")) registry ≡ ok (metric, registry'))
    × (read_word metric.item registry' ≡ ok word)
    × (gauge_get word
        ≡ meaning (updates_under (by_name (redis req) gauge (codes "hits")) program) (pos 0))
unfolding validate updates_under meaning ◌+ℤ◌ HashKey-discrete
exec_all-gauge_example =
    exec_all-gauge hash program (redis req) (by_plain (codes "hits"))
      (refl, (refl, (refl, (refl, (refl, tt))))) refl
      ((omega arith, omega arith), ((omega arith, omega arith), tt)) (omega arith, omega arith)

exec_all-counter_example :
    (registry registry' : ScalarRegistry) × (metric : CounterMetric) × (word : ℕ) × (exec_all hash
        program new_registry
      ≡ ok registry)
    × (counter_to hash (redis req) (by_plain (codes "hits")) registry ≡ ok (metric, registry'))
    × (read_word metric.item registry' ≡ ok word)
    × (counter_get word
        ≡ sum_of (amount (by_name (redis req) counter (codes "hits"))) program % 2 ^ 64)
unfolding validate
exec_all-counter_example =
    exec_all-counter hash program (redis req) (by_plain (codes "hits"))
      (refl, (refl, (refl, (refl, (refl, tt))))) refl
