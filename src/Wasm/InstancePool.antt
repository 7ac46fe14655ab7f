-- ===== src/Wasm/InstancePool.antt =====
-- src/wasm/instance-pool.js: the pool of module instances. An acquire that has to create an instance is two
-- steps, since other calls may run before the creation ends. A state that has leases or creations
-- is never dropped, so that the one a lease remembers is the one under its key.
pub mod Bounds
mod Tests
use lagrange_images.Base.{
  ℕ, String, zero, suc, ◌+◌, ◌-◌, Bool, true, false, not, ◌&&◌, Option, none, some, or_else, List,
  [], ◌∷◌, ◌++◌, if◌then◌else◌, ltb, ◌==◌, length, str_eq,
}
use lagrange_images.Base.Dict.{Dict, get, put, remove}
use lagrange_images.Base.Result.{Result, ok, err}

-- A slot with an instance, by a number.
pub record ModuleState : Type 0 where
  pub idle : List ℕ
  pub in_use : ℕ
  pub creating : ℕ

pub record Lease : Type 0 where
  pub key : String
  pub slot : ℕ
  pub is_released : Bool

pub record Pool : Type 0 where
  pub modules : Dict ModuleState
  pub hits : ℕ
  pub misses : ℕ
  pub created : ℕ
  pub retired : ℕ
  pub discarded : ℕ
  pub leases : List Lease

pub data PoolError : Type 0 where
  create_failed already_released no_such_call : PoolError

abbrev pub fresh_state : ModuleState
fresh_state = record { idle = []; in_use = 0; creating = 0 }

abbrev pub empty_pool : Pool
empty_pool = record {
  modules = [];
  hits = 0;
  misses = 0;
  created = 0;
  retired = 0;
  discarded = 0;
  leases = [];
}

-- `stateFor`
unfoldable pub state_for : String → Pool → ModuleState
state_for key p = or_else (get key p.modules) fresh_state

unfoldable pub should_drop_state : ModuleState → Bool
should_drop_state s = s.in_use == 0 && (s.creating == 0 && length s.idle == 0)

-- The state is kept under its key, or the key is deleted.
unfoldable pub keep_or_drop : String → ModuleState → Pool → Pool
keep_or_drop key s p = record p {
  modules = if should_drop_state s then remove key p.modules else put key s p.modules;
}

-- `idle.pop()`
unfoldable pub split_last : ℕ → List ℕ → ℕ × List ℕ
split_last x [] = (x, [])
split_last x (y ∷ ys) = let rest = split_last y ys in (rest.0, x ∷ rest.1)

unfoldable pub take_lease : String → ℕ → ModuleState → Pool → Pool
take_lease key slot s p = record p {
  modules = put key (record s { in_use = suc s.in_use }) p.modules;
  leases = p.leases ++ (record { key = key; slot = slot; is_released = false } ∷ []);
}

-- An idle slot is taken, or a creation starts.
unfoldable pub acquire_from : String → ModuleState → List ℕ → Pool → Pool
acquire_from key s [] p = record p {
  misses = suc p.misses;
  modules = put key (record s { creating = suc s.creating }) p.modules;
}
acquire_from key s (x ∷ xs) p =
    let last = split_last x xs in
    take_lease key last.0 (record s { idle = last.1 }) (record p { hits = suc p.hits })

-- `acquire`, up to the lease or to the start of the creation.
unfoldable pub acquire : String → Pool → Pool
acquire key p = let s = state_for key p in acquire_from key s s.idle p

-- The rest of an `acquire` whose creation gave a slot, or failed.
unfoldable pub finish_create : String → ℕ → Pool → Result PoolError Pool
finish_create key slot p =
    let s = state_for key p in
    if s.creating == 0
    then err no_such_call
    else ok (
        take_lease key slot (record s { creating = s.creating - 1 })
          (record p { created = suc p.created }))

unfoldable pub fail_create : String → Pool → Result PoolError Pool
fail_create key p =
    let s = state_for key p in
    if s.creating == 0
    then err no_such_call
    else ok (keep_or_drop key (record s { creating = s.creating - 1 }) p)

unfoldable pub set_released : ℕ → List Lease → List Lease
set_released i [] = []
set_released zero (l ∷ ls) = record l { is_released = true } ∷ ls
set_released (suc i) (l ∷ ls) = l ∷ set_released i ls

unfoldable pub lease_at : ℕ → List Lease → Option Lease
lease_at i [] = none
lease_at zero (l ∷ ls) = some l
lease_at (suc i) (l ∷ ls) = lease_at i ls

module _ (max_idle_per_module : ℕ) where
  -- A slot that comes back is retired, or is idle, or is one too many.
  unfoldable pub give_back : Bool → Lease → Pool → Pool
  give_back retire l p =
      let s = state_for l.key p in
      let back = record s { in_use = s.in_use - 1 } in
      if retire
      then keep_or_drop l.key back (record p { retired = suc p.retired })
      else if ltb (length back.idle) max_idle_per_module
      then keep_or_drop l.key (record back { idle = back.idle ++ (l.slot ∷ []) }) p
      else keep_or_drop l.key back (record p { discarded = suc p.discarded })

  -- `release` of the lease of a number.
  unfoldable pub release : ℕ → Bool → Pool → Result PoolError Pool
  release i retire p = elim (lease_at i p.leases) [
    | none ↦ err no_such_call
    | some l ↦
        if l.is_released
        then err already_released
        else ok (give_back retire l (record p { leases = set_released i p.leases }))
  ]

unfoldable pub clear_modules : Dict ModuleState → Dict ModuleState
clear_modules [] = []
clear_modules ((k, s) ∷ m) =
    let rest = clear_modules m in
    let cleared = record s { idle = [] } in
    if should_drop_state cleared then remove k rest else (k, cleared) ∷ rest

unfoldable pub clear : Pool → Pool
clear p = record p { modules = clear_modules p.modules }

-- `resetStats`
unfoldable pub reset_stats : Pool → Pool
reset_stats p = record p { hits = 0; misses = 0; created = 0; retired = 0; discarded = 0 }

-- What may happen next. A call that throws leaves the pool as it was.
pub data Call : Type 0 where
  acquire_call : String → Call
  create_returned : String → ℕ → Call
  create_threw : String → Call
  release_call : ℕ → Bool → Call
  clear_call reset_call : Call

abbrev pub pool_after : Pool → Result PoolError Pool → Pool
pool_after p (err e) = p
pool_after p (ok next) = next

unfoldable pub exec : ℕ → Call → Pool → Pool
exec limit (acquire_call key) p = acquire key p
exec limit (create_returned key slot) p = pool_after p (finish_create key slot p)
exec limit (create_threw key) p = pool_after p (fail_create key p)
exec limit (release_call i retire) p = pool_after p (release limit i retire p)
exec limit clear_call p = clear p
exec limit reset_call p = reset_stats p

unfoldable pub run : ℕ → List Call → Pool → Pool
run limit [] p = p
run limit (c ∷ cs) p = run limit cs (exec limit c p)
