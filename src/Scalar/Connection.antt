-- ===== src/Scalar/Connection.antt =====
-- Connections: `ConnMetric` and `ConnectionGuard` of src/scalar.rs. A gauge of current connections and
-- a counter of all that were made, and guards that each take one connection off when they are dropped.
use metrics.Common.{ℕ, ◌+◌, ◌-◌, ◌%◌, ◌^◌, ◌≤◌, ◌<◌, ◌≡◌, refl, arith}
use metrics.Common.Int.{ℤ, pos}
use metrics.Scalar.Value.{
  counter_inc, counter_get, counter_add, gauge_inc, gauge_dec, gauge_get, gauge_add, to_u64, to_i64,
}

-- The words behind the two handles.
pub record ConnMetric : Type 0 where
  pub current : ℕ
  pub total : ℕ

-- `ConnMetric::connected`
unfoldable pub connected : ConnMetric → ConnMetric
unfolding gauge_inc counter_inc
connected conn = record { current = gauge_inc conn.current; total = counter_inc conn.total }

-- `ConnMetric::disconnected`
unfoldable pub disconnected : ConnMetric → ConnMetric
unfolding gauge_dec
disconnected conn = record conn { current = gauge_dec conn.current }

-- `ConnMetric::current` and `ConnMetric::total`
unfoldable pub get_current : ConnMetric → ℤ
get_current conn = gauge_get conn.current

unfoldable pub get_total : ConnMetric → ℕ
get_total conn = counter_get conn.total

-- The connections that all handles of one identity share: its words, how many guards are alive, and
-- how many were made. A guard comes from `ConnMetric::connection` and goes by its `drop`; the
-- borrow checker lets a guard be dropped once.
pub record Connections : Type 0 where
  pub conn : ConnMetric
  pub guards : ℕ
  pub made : ℕ

abbrev pub start : Connections
start = record { conn = record { current = 0; total = 0 }; guards = 0; made = 0 }

pub data Step (s : Connections) : Connections → Type 0 where
  connection : Step s (record { conn = connected s.conn; guards = s.guards + 1; made = s.made + 1 })
  drop : 0 < s.guards → Step s (record s { conn = disconnected s.conn; guards = s.guards - 1 })

pub data Reach : Connections → Type 0 where
  here : Reach start
  next : {s t : Connections} → Reach s → Step s t → Reach t

record Balanced (s : Connections) : Type 0 where
  current : s.conn.current ≡ s.guards % 2 ^ 64
  total : s.conn.total ≡ s.made % 2 ^ 64
  alive : s.guards ≤ s.made

Step-Balanced : {s t : Connections} → Step s t → Balanced s → Balanced t
unfolding connected disconnected counter_add gauge_add to_u64
Step-Balanced connection b = record {
  current = omega (arith, b.current);
  total = omega (arith, b.total);
  alive = omega (arith, b.alive);
}
Step-Balanced (drop h) b = record {
  current = omega (arith, b.current);
  total = omega (arith, b.total);
  alive = omega (arith, b.alive);
}

Reach-Balanced : {s : Connections} → Reach s → Balanced s
Reach-Balanced here = record { current = refl; total = refl; alive = omega arith }
Reach-Balanced (next r st) = Step-Balanced st (Reach-Balanced r)

-- In every order of connecting and dropping guards, through any handles: the gauge reads the number of
-- guards alive and is never negative, and the counter reads the number of connections ever made, if
-- fewer than 2 ^ 63 guards are alive and fewer than 2 ^ 64 connections were made.
pub Reach-balanced :
    {s : Connections}
    → Reach s
    → s.guards < 2 ^ 63
    → s.made < 2 ^ 64
    → (get_current s.conn ≡ pos s.guards) × (get_total s.conn ≡ s.made)
unfolding get_current get_total gauge_get counter_get to_i64
Reach-balanced {s} r few made =
    let b = Reach-Balanced r in (ground (arith, b.current), omega (arith, b.total))
