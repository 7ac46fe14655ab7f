-- ===== src/Execution/Conditions/Scopes.antt =====
-- The stacks of src/execution/conditions.js: identities grow towards the newest entry.
use lagrange_images.Base.{
  ℕ, ◌<◌, ◌≤◌, ◌≡◌, refl, sym, ap, ◌∙◌, subst, Bool, true, false, none, some, List, [], ◌∷◌, ◌==◌,
  if◌then◌else◌, arith, Bool-cases, inl, inr, eq_of_some,
}
use lagrange_images.Execution.Conditions.{
  Lane, Scope, Occurrence, below, without, find_handler, is_handler_of, set_active_in,
}

module _ (lane : Lane) where
  -- Each identity is below the one of every newer entry, and all are below a bound.
  abbrev pub IsOrdered : ℕ → List (Scope lane) → Type 0
  IsOrdered bound [] = Unit
  IsOrdered bound (s ∷ older) = (s.scope_id < bound) × IsOrdered s.scope_id older

  abbrev pub IsOrderedOccurrences : ℕ → List (Occurrence lane) → Type 0
  IsOrderedOccurrences bound [] = Unit
  IsOrderedOccurrences bound (o ∷ older) =
      (o.occurrence_id < bound) × IsOrderedOccurrences o.occurrence_id older

  pub IsOrdered-weaken :
      (n m : ℕ) (ss : List (Scope lane)) → n ≤ m → IsOrdered n ss → IsOrdered m ss
  IsOrdered-weaken n m [] le h = tt
  IsOrdered-weaken n m (s ∷ older) le h = (omega (arith, h.0), h.1)

  pub IsOrderedOccurrences-weaken :
      (n m : ℕ) (os : List (Occurrence lane))
      → n ≤ m
      → IsOrderedOccurrences n os
      → IsOrderedOccurrences m os
  IsOrderedOccurrences-weaken n m [] le h = tt
  IsOrderedOccurrences-weaken n m (o ∷ older) le h = (omega (arith, h.0), h.1)

  -- No scope has an identity that all are below.
  pub below_fresh :
      (bound id : ℕ) (ss : List (Scope lane))
      → bound ≤ id
      → IsOrdered bound ss
      → below lane id ss ≡ none
  unfolding below
  below_fresh bound id [] le h = refl
  below_fresh bound id (s ∷ older) le h =
      rw (below_fresh s.scope_id id older (omega (arith, h.0)) h.1) (ground (arith, h.0))

  pub below_newest :
      (s : Scope lane) (older : List (Scope lane))
      → IsOrdered s.scope_id older
      → below lane s.scope_id (s ∷ older) ≡ some older
  unfolding below
  below_newest s older h =
      rw (below_fresh s.scope_id s.scope_id older (omega arith) h) (ground arith)

  pub without_fresh :
      (bound id : ℕ) (os : List (Occurrence lane))
      → bound ≤ id
      → IsOrderedOccurrences bound os
      → without lane id os ≡ none
  unfolding without
  without_fresh bound id [] le h = refl
  without_fresh bound id (o ∷ older) le h =
      rw (without_fresh o.occurrence_id id older (omega (arith, h.0)) h.1) (ground (arith, h.0))

  pub without_newest :
      (o : Occurrence lane) (older : List (Occurrence lane))
      → IsOrderedOccurrences o.occurrence_id older
      → without lane o.occurrence_id (o ∷ older) ≡ some older
  unfolding without
  without_newest o older h =
      rw (without_fresh o.occurrence_id o.occurrence_id older (omega arith) h) (ground arith)

  pub set_active_in-IsOrdered :
      (b : Bool) (id bound : ℕ) (ss : List (Scope lane))
      → IsOrdered bound ss
      → IsOrdered bound (set_active_in lane b id ss)
  unfolding set_active_in
  set_active_in-IsOrdered b id bound [] h = tt
  set_active_in-IsOrdered b id bound (s ∷ older) h =
      ground (arith, set_active_in-IsOrdered b id s.scope_id older h.1)

  -- Identities below all entries are not there.
  pub set_active_in_fresh :
      (b : Bool) (id bound : ℕ) (ss : List (Scope lane))
      → bound ≤ id
      → IsOrdered bound ss
      → set_active_in lane b id ss ≡ ss
  unfolding set_active_in
  set_active_in_fresh b id bound [] le h = refl
  set_active_in_fresh b id bound (s ∷ older) le h =
      ground (arith, set_active_in_fresh b id s.scope_id older)

  -- A handler that is found is active and on the stack.
  pub scope_id-find_handler :
      (c : lane.Value) (bound : ℕ) (ss : List (Scope lane)) (f : Scope lane)
      → IsOrdered bound ss
      → find_handler lane c ss ≡ some f
      → f.scope_id < bound
  unfolding find_handler
  scope_id-find_handler c bound [] f h e = cc
  scope_id-find_handler c bound (s ∷ older) f h e =
      ground (arith, scope_id-find_handler c s.scope_id older f)

  disable_newest :
      (s : Scope lane) (older : List (Scope lane))
      → IsOrdered s.scope_id older
      → s.active ≡ true
      → set_active_in lane true s.scope_id (set_active_in lane false s.scope_id (s ∷ older))
        ≡ s ∷ older
  unfolding set_active_in
  disable_newest s older h on =
      rw
        (
          set_active_in_fresh false s.scope_id s.scope_id older (omega arith) h,
          set_active_in_fresh true s.scope_id s.scope_id older (omega arith) h,
        )
        (let self : (s.scope_id == s.scope_id) ≡ true = ground arith in
          rw (self, self) (ap (λ b. record s { active = b } ∷ older) (sym on)))

  disable_older :
      (s : Scope lane) (older : List (Scope lane)) (id : ℕ)
      → id < s.scope_id
      → set_active_in lane true id (set_active_in lane false id older) ≡ older
      → set_active_in lane true id (set_active_in lane false id (s ∷ older)) ≡ s ∷ older
  unfolding set_active_in
  disable_older s older id lt rest = ground (arith, rest)

  -- To disable the handler that was found and enable it again gives the stack back.
  pub set_active_in-find_handler :
      (c : lane.Value) (bound : ℕ) (ss : List (Scope lane)) (f : Scope lane)
      → IsOrdered bound ss
      → find_handler lane c ss ≡ some f
      → set_active_in lane true f.scope_id (set_active_in lane false f.scope_id ss) ≡ ss
  unfolding find_handler set_active_in
  set_active_in-find_handler c bound [] f h e = cc
  set_active_in-find_handler c bound (s ∷ older) f h e =
      elim (Bool-cases (is_handler_of lane c s)) [
        | inl mine ↦
            subst
              (λ (g : Scope lane).
                set_active_in lane true g.scope_id (set_active_in lane false g.scope_id (s ∷ older))
                ≡ s ∷ older)
              (eq_of_some
                (sym (ap (λ b. if b then some s else find_handler lane c older) mine) ∙ e))
              (disable_newest s older h.1 (ground (arith, mine)))
        | inr other ↦
            disable_older s older f.scope_id
              (scope_id-find_handler c s.scope_id older f h.1 (found other))
              (set_active_in-find_handler c s.scope_id older f h.1 (found other))
      ]
    where
      found : is_handler_of lane c s ≡ false → find_handler lane c older ≡ some f
      found other = sym (ap (λ b. if b then some s else find_handler lane c older) other) ∙ e
