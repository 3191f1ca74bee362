-- ===== src/Registry/Tests.antt =====
-- A registration on a fresh shard.
use metrics.Common.{ℕ, ◌<◌, ◌≡◌, [], codes, none}
use metrics.Common.Panic.{ok}
use metrics.Kind.{redis, req}
use metrics.Slot.{default}
use metrics.Storage.{read_slot}
use metrics.Storage.Holds.{ptr_of}
use metrics.Registry.{Shard, new_shard}
use metrics.Registry.Keys.{find_key}
use metrics.Registry.Registered.{Registered, new_shard-Registered}
use metrics.Registry.Refinement.{Request, named, perform, remember, request_key, perform-remember}

abbrev request : Request
request = named (codes "cache") (redis req)

perform-remember_example :
    (shard' : Shard) × (perform request (new_shard 3)
      ≡ ok ((remember (new_shard 3).storage.region request []).0, shard'))
    × Registered shard' (remember (new_shard 3).storage.region request []).1
    × (shard'.storage.region ≡ (new_shard 3).storage.region)
    × ((k : ℕ)
        → k < 0
        → read_slot (ptr_of (new_shard 3).storage.region k) shard'.storage
          ≡ read_slot (ptr_of (new_shard 3).storage.region k) (new_shard 3).storage)
    × (find_key (request_key request) [] ≡ none
        → read_slot (ptr_of (new_shard 3).storage.region 0) shard'.storage ≡ ok default)
perform-remember_example = perform-remember request (new_shard 3) [] (new_shard-Registered 3)
