-- ===== src/Wasm/InstancePool/Bounds.antt =====
-- The bounds of the pool of src/wasm/instance-pool.js.
use lagrange_images.Base.{
  ℕ, String, zero, suc, ◌+◌, ◌-◌, ◌≤◌, ◌≡◌, refl, ap, ◌∙◌, Bool, true, false, not, ◌&&◌, some,
  or_else, List, [], ◌∷◌, ◌++◌, if◌then◌else◌, str_eq, eq_iff, ltb, ◌==◌, arith, Bool-cases,
  Option-cases, inl, inr, length, eq_of_some,
}
use lagrange_images.Base.Dict.{Dict, get, put, get-put, get-remove}
use lagrange_images.Wasm.InstancePool.{
  ModuleState, Lease, Pool, fresh_state, state_for, should_drop_state, keep_or_drop, split_last,
  take_lease, acquire_from, acquire, finish_create, fail_create, set_released, lease_at, give_back,
  release, clear_modules, clear, reset_stats, empty_pool, Call, acquire_call, create_returned,
  create_threw, release_call, clear_call, reset_call, pool_after, exec, run,
}

-- The leases of a module that are not released.
abbrev pub open_leases : String → List Lease → ℕ
open_leases k [] = 0
open_leases k (l ∷ ls) = (if str_eq l.key k && not l.is_released then 1 else 0) + open_leases k ls

-- What a module's state may be, with its open leases.
abbrev IsWithin : ℕ → ModuleState → ℕ → Type 0
IsWithin limit s count = (length s.idle ≤ limit) × (s.in_use ≡ count)

-- For every module, no more instances are idle than the limit, and the count of those in use is the
-- count of the leases that are not released.
pub IsBounded : ℕ → Pool → Type 0
IsBounded limit p = (k : String) → IsWithin limit (state_for k p) (open_leases k p.leases)

-- A state under a key is within its bounds if the new one there is, and the others are.
put-IsWithin :
    (limit : ℕ) (key k : String) (s : ModuleState) (m : Dict ModuleState) (count : ℕ)
    → (str_eq key k ≡ true → IsWithin limit s count)
    → (str_eq key k ≡ false → IsWithin limit (or_else (get k m) fresh_state) count)
    → IsWithin limit (or_else (get k (put key s m)) fresh_state) count
put-IsWithin limit key k s m count same other = elim (Bool-cases (str_eq key k)) [
  | inl e ↦ rw (get-put key k s m, e) (same e)
  | inr e ↦ rw (get-put key k s m, e) (other e)
]

-- A state that is dropped is as none.
keep_or_drop-IsWithin :
    (limit : ℕ) (key k : String) (s : ModuleState) (p : Pool) (count : ℕ)
    → (str_eq key k ≡ true → IsWithin limit s count)
    → (str_eq key k ≡ false → IsWithin limit (state_for k p) count)
    → IsWithin limit (state_for k (keep_or_drop key s p)) count
unfolding state_for keep_or_drop should_drop_state
keep_or_drop-IsWithin limit key k s p count same other =
    elim (Bool-cases (s.in_use == 0 && (s.creating == 0 && length s.idle == 0))) [
      | inl drop ↦ elim (Bool-cases (str_eq key k)) [
        | inl e ↦
            rw (drop, keep_or_drop, should_drop_state, get-remove key k p.modules, e)
              (let w = same e in (omega arith, ground (arith, drop, w.1)))
        | inr e ↦
            rw (drop, keep_or_drop, should_drop_state, get-remove key k p.modules, e) (other e)
      ]
      | inr keep ↦
          rw (keep, keep_or_drop, should_drop_state)
            (put-IsWithin limit key k s p.modules count same other)
    ]

length-split_last : (x : ℕ) (xs : List ℕ) → length (split_last x xs).1 ≡ length xs
unfolding split_last
length-split_last x [] = refl
length-split_last x (y ∷ ys) = ap suc (length-split_last y ys)

open_leases-append :
    (k : String) (l : Lease) (ls : List Lease)
    → open_leases k (ls ++ (l ∷ []))
      ≡ (if str_eq l.key k && not l.is_released then 1 else 0) + open_leases k ls
open_leases-append k l [] = refl
open_leases-append k l (x ∷ ls) = ground (arith, open_leases-append k l ls)

open_leases-set_released :
    (k : String) (i : ℕ) (l : Lease) (ls : List Lease)
    → lease_at i ls ≡ some l
    → l.is_released ≡ false
    → open_leases k ls ≡ (if str_eq l.key k then 1 else 0) + open_leases k (set_released i ls)
unfolding lease_at set_released
open_leases-set_released k zero l [] h r = cc
open_leases-set_released k (suc i) l [] h r = cc
open_leases-set_released k zero l (x ∷ ls) h r =
    let p = eq_of_some h in
    ground (arith, r, ap (λ (y : Lease). y.is_released) p, ap (λ (y : Lease). y.key) p)
open_leases-set_released k (suc i) l (x ∷ ls) h r =
    ground (arith, open_leases-set_released k i l ls h r)

length-append_one : (xs : List ℕ) (x : ℕ) → length (xs ++ (x ∷ [])) ≡ suc (length xs)
length-append_one [] x = refl
length-append_one (y ∷ xs) x = ap suc (length-append_one xs x)

module _ (limit : ℕ) where
  take_lease-IsBounded :
      (key : String) (slot : ℕ) (s : ModuleState) (p : Pool)
      → length s.idle ≤ limit
      → s.in_use ≡ open_leases key p.leases
      → IsBounded limit p
      → IsBounded limit (take_lease key slot s p)
  unfolding IsBounded take_lease state_for
  take_lease-IsBounded key slot s p few same h k =
      put-IsWithin limit key k (record s { in_use = suc s.in_use }) p.modules _
        (λ e. (
          few,
          ground (
            arith,
            e,
            eq_iff key k,
            same,
            open_leases-append k (record { key = key; slot = slot; is_released = false }) p.leases,
          ),
        ))
        (λ e. (
          (h k).0,
          ground (
            arith,
            e,
            (h k).1,
            open_leases-append k (record { key = key; slot = slot; is_released = false }) p.leases,
          ),
        ))

  acquire_from-IsBounded :
      (key : String) (s : ModuleState) (xs : List ℕ) (p : Pool)
      → length xs ≤ limit
      → length s.idle ≤ limit
      → s.in_use ≡ open_leases key p.leases
      → IsBounded limit p
      → IsBounded limit (acquire_from key s xs p)
  unfolding IsBounded acquire_from state_for
  acquire_from-IsBounded key s [] p few few_idle same h k =
      put-IsWithin limit key k (record s { creating = suc s.creating }) p.modules _
        (λ e. (few_idle, same ∙ ap (λ j. open_leases j p.leases) ((eq_iff key k).0 e))) (λ e. h k)
  acquire_from-IsBounded key s (x ∷ xs) p few few_idle same h k =
      take_lease-IsBounded key (split_last x xs).0 (record s { idle = (split_last x xs).1 })
        (record p { hits = suc p.hits }) (ground (arith, few, length-split_last x xs)) same h k

  acquire-IsBounded :
      (key : String) (p : Pool) → IsBounded limit p → IsBounded limit (acquire key p)
  unfolding acquire IsBounded
  acquire-IsBounded key p h =
      acquire_from-IsBounded key (state_for key p) (state_for key p).idle p (h key).0 (h key).0
        (h key).1 h

  finish_create-IsBounded :
      (key : String) (slot : ℕ) (p : Pool)
      → IsBounded limit p
      → IsBounded limit (pool_after p (finish_create key slot p))
  unfolding IsBounded finish_create state_for
  finish_create-IsBounded key slot p h = elim (Bool-cases ((state_for key p).creating == 0)) [
    | inl e ↦ rw (e, finish_create) h
    | inr e ↦
        rw (e, finish_create)
          (take_lease-IsBounded key slot
            (record (state_for key p) { creating = (state_for key p).creating - 1 })
            (record p { created = suc p.created }) (h key).0 (h key).1 h)
  ]

  fail_create-IsBounded :
      (key : String) (p : Pool)
      → IsBounded limit p
      → IsBounded limit (pool_after p (fail_create key p))
  unfolding IsBounded fail_create keep_or_drop
  fail_create-IsBounded key p h = elim (Bool-cases ((state_for key p).creating == 0)) [
    | inl e ↦ rw (e, fail_create) h
    | inr e ↦
        rw (e, fail_create)
          (λ k.
            keep_or_drop-IsWithin limit key k
              (record (state_for key p) { creating = (state_for key p).creating - 1 }) p
              (open_leases k p.leases)
              (λ q. ((h key).0, (h key).1 ∙ ap (λ j. open_leases j p.leases) ((eq_iff key k).0 q)))
              (λ q. h k))
  ]

  give_back-IsBounded :
      (retire : Bool) (l : Lease) (p : Pool)
      → ((k : String)
          → IsWithin limit
              (state_for k p)
              ((if str_eq l.key k then 1 else 0) + open_leases k p.leases))
      → IsBounded limit (give_back limit retire l p)
  unfolding IsBounded give_back keep_or_drop state_for
  give_back-IsBounded true l p h k =
      keep_or_drop-IsWithin limit l.key k
        (record (state_for l.key p) { in_use = (state_for l.key p).in_use - 1 })
        (record p { retired = suc p.retired }) (open_leases k p.leases)
        (λ e. ((h l.key).0, ground (arith, e, eq_iff l.key k, (h l.key).1)))
        (λ e. ((h k).0, ground (arith, e, (h k).1)))
  give_back-IsBounded false l p h k =
      elim (Bool-cases (ltb (length (state_for l.key p).idle) limit)) [
        | inl e ↦
            rw (e, give_back)
              (keep_or_drop-IsWithin limit l.key k
                (record (state_for l.key p) {
                  in_use = (state_for l.key p).in_use - 1;
                  idle = (state_for l.key p).idle ++ (l.slot ∷ []);
                })
                p (open_leases k p.leases)
                (λ q. (
                  ground (arith, e, length-append_one (state_for l.key p).idle l.slot),
                  ground (arith, q, eq_iff l.key k, (h l.key).1),
                ))
                (λ q. ((h k).0, ground (arith, q, (h k).1))))
        | inr e ↦
            rw (e, give_back)
              (keep_or_drop-IsWithin limit l.key k
                (record (state_for l.key p) { in_use = (state_for l.key p).in_use - 1 })
                (record p { discarded = suc p.discarded }) (open_leases k p.leases)
                (λ q. ((h l.key).0, ground (arith, q, eq_iff l.key k, (h l.key).1)))
                (λ q. ((h k).0, ground (arith, q, (h k).1))))
      ]

  release-IsBounded :
      (i : ℕ) (retire : Bool) (p : Pool)
      → IsBounded limit p
      → IsBounded limit (pool_after p (release limit i retire p))
  unfolding IsBounded state_for release get give_back
  release-IsBounded i retire p h = elim (Option-cases (lease_at i p.leases)) [
    | inl e ↦ rw (e, release) h
    | inr (l, e) ↦ elim (Bool-cases l.is_released) [
      | inl done ↦ rw (e, done, release) h
      | inr held ↦
          rw (e, held, release)
            (give_back-IsBounded retire l (record p { leases = set_released i p.leases })
              (λ k. ((h k).0, (h k).1 ∙ open_leases-set_released k i l p.leases e held)))
    ]
  ]

  state_for-clear_modules :
      (k : String) (m : Dict ModuleState)
      → (length (or_else (get k (clear_modules m)) fresh_state).idle ≤ limit)
        × ((or_else (get k (clear_modules m)) fresh_state).in_use
            ≡ (or_else (get k m) fresh_state).in_use)
  unfolding clear_modules get should_drop_state
  state_for-clear_modules k [] = (omega arith, refl)
  state_for-clear_modules k ((j, s) ∷ m) =
      let rest = state_for-clear_modules k m in
      elim (Bool-cases (s.in_use == 0 && (s.creating == 0 && true))) [
        | inl drop ↦ elim (Bool-cases (str_eq j k)) [
          | inl here ↦
              rw (drop, should_drop_state, get-remove j k (clear_modules m), here)
                (omega arith, ground (arith, drop))
          | inr apart ↦ rw (drop, should_drop_state, get-remove j k (clear_modules m), apart) rest
        ]
        | inr keep ↦ elim (Bool-cases (str_eq j k)) [
          | inl here ↦ rw (keep, should_drop_state, here) (omega arith, refl)
          | inr apart ↦ rw (keep, should_drop_state, apart) rest
        ]
      ]

  exec-IsBounded : (c : Call) (p : Pool) → IsBounded limit p → IsBounded limit (exec limit c p)
  unfolding exec clear reset_stats IsBounded state_for
  exec-IsBounded (acquire_call key) p h = acquire-IsBounded key p h
  exec-IsBounded (create_returned key slot) p h = finish_create-IsBounded key slot p h
  exec-IsBounded (create_threw key) p h = fail_create-IsBounded key p h
  exec-IsBounded (release_call i retire) p h = release-IsBounded i retire p h
  exec-IsBounded clear_call p h =
      λ k. let (few, same) = state_for-clear_modules k p.modules in (few, same ∙ (h k).1)
  exec-IsBounded reset_call p h = h

  -- In every order of acquires, ends of creations, releases, clears and resets, failed ones included,
  -- no module ever has more idle instances than the limit, and each module's count of instances in
  -- use is the number of its leases that are not released.
  pub run-IsBounded :
      (cs : List Call) (p : Pool) → IsBounded limit p → IsBounded limit (run limit cs p)
  unfolding run
  run-IsBounded [] p h = h
  run-IsBounded (c ∷ cs) p h = run-IsBounded cs (exec limit c p) (exec-IsBounded c p h)

  pub empty_pool-IsBounded : IsBounded limit empty_pool
  unfolding IsBounded state_for get
  empty_pool-IsBounded = λ k. (omega arith, refl)
