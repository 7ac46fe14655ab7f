-- ===== src/Wasm/InstancePool/Tests.antt =====
-- A pool of src/wasm/instance-pool.js with room for one idle instance: two leases, of which one is
-- released twice.
use lagrange_images.Base.{List, false, [], ◌∷◌}
use lagrange_images.Wasm.InstancePool.{
  Call, acquire_call, create_returned, create_threw, release_call, clear_call, empty_pool, run,
}
use lagrange_images.Wasm.InstancePool.Bounds.{IsBounded, empty_pool-IsBounded, run-IsBounded}

abbrev two_leases : List Call
two_leases =
    acquire_call "m"
    ∷ acquire_call "m"
    ∷ create_returned "m" 7
    ∷ create_returned "m" 8
    ∷ release_call 0 false
    ∷ release_call 0 false
    ∷ release_call 1 false
    ∷ acquire_call "n"
    ∷ create_threw "n"
    ∷ clear_call
    ∷ []

run-IsBounded_example : IsBounded 1 (run 1 two_leases empty_pool)
run-IsBounded_example = run-IsBounded 1 two_leases empty_pool (empty_pool-IsBounded 1)
