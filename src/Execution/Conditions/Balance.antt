-- ===== src/Execution/Conditions/Balance.antt =====
-- What src/execution/conditions.js leaves of its stacks: however a block ends, they are as they were.
use lagrange_images.Base.{
  ℕ, zero, suc, ◌+◌, ◌≤◌, ◌≡◌, refl, sym, ap, ◌∙◌, subst, Bool, true, false, some, or_else, arith,
  Option-cases, inl, inr,
}
use lagrange_images.Base.Result.{Result, ok, err}
use lagrange_images.Execution.Conditions.{
  Lane, Thrown, Block, give, throw, on_do, protect, signal, transfer, Scope, ScopeKind, handler,
  protection, Runtime, below, without, leave, end_occurrence, find_handler, set_active_in,
  set_active, enter_scope, begin_occurrence, Outcome, after_cleanup, run_condition_handler,
  clean_up, run_unwind_protection, handler_block_of, signal_to, signal_condition_occurrence,
  and_then, exec,
}
use lagrange_images.Execution.Conditions.Scopes.{
  IsOrdered, IsOrderedOccurrences, IsOrdered-weaken, IsOrderedOccurrences-weaken, below_newest,
  without_newest, set_active_in-IsOrdered, set_active_in-find_handler,
}

module _ (lane : Lane) where
  -- The identities on both stacks were handed out, and in the order of the stacks.
  pub record IsValid (rt : Runtime lane) : Type 0 where
    pub scopes_ordered : IsOrdered lane (suc rt.next_id) rt.scopes
    pub occurrences_ordered : IsOrderedOccurrences lane (suc rt.next_id) rt.occurrences

  -- The stacks are as before; identities may have been handed out.
  pub record IsBalanced (before after : Runtime lane) : Type 0 where
    pub scopes_kept : after.scopes ≡ before.scopes
    pub occurrences_kept : after.occurrences ≡ before.occurrences
    pub ids_grow : before.next_id ≤ after.next_id

  pub balanced-IsValid : {a b : Runtime lane} → IsBalanced a b → IsValid a → IsValid b
  balanced-IsValid {a} {b} bal v = record {
    scopes_ordered =
        subst (λ ss. IsOrdered lane (suc b.next_id) ss) (sym bal.scopes_kept)
          (IsOrdered-weaken lane (suc a.next_id) (suc b.next_id) a.scopes
            (omega (arith, bal.ids_grow)) v.scopes_ordered);
    occurrences_ordered =
        subst (λ os. IsOrderedOccurrences lane (suc b.next_id) os) (sym bal.occurrences_kept)
          (IsOrderedOccurrences-weaken lane (suc a.next_id) (suc b.next_id) a.occurrences
            (omega (arith, bal.ids_grow)) v.occurrences_ordered);
  }

  pub IsBalanced-refl : (a : Runtime lane) → IsBalanced a a
  IsBalanced-refl a = record { scopes_kept = refl; occurrences_kept = refl; ids_grow = omega arith }

  pub IsBalanced-trans : {a b c : Runtime lane} → IsBalanced a b → IsBalanced b c → IsBalanced a c
  IsBalanced-trans p q = record {
    scopes_kept = q.scopes_kept ∙ p.scopes_kept;
    occurrences_kept = q.occurrences_kept ∙ p.occurrences_kept;
    ids_grow = omega (arith, p.ids_grow, q.ids_grow);
  }

  enter_scope-IsValid :
      (kind : ScopeKind lane) (rt : Runtime lane)
      → IsValid rt
      → IsValid (enter_scope lane kind rt).0
  unfolding enter_scope
  enter_scope-IsValid kind rt v = record {
    scopes_ordered = (
      omega arith,
      IsOrdered-weaken lane (suc rt.next_id) (rt.next_id + 1) rt.scopes (omega arith)
          v.scopes_ordered,
    );
    occurrences_ordered =
        IsOrderedOccurrences-weaken lane (suc rt.next_id) (suc (rt.next_id + 1)) rt.occurrences
          (omega arith) v.occurrences_ordered;
  }

  -- To enter a scope, run balanced code and leave the scope.
  leave_entered :
      (kind : ScopeKind lane) (rt after : Runtime lane)
      → IsValid rt
      → IsBalanced (enter_scope lane kind rt).0 after
      → IsBalanced rt (leave lane (enter_scope lane kind rt).1 after)
  unfolding enter_scope leave
  leave_entered kind rt after v bal = record {
    scopes_kept =
        ap (λ ss. or_else (below lane (rt.next_id + 1) ss) ss) bal.scopes_kept
        ∙ ap (λ found. or_else found ((enter_scope lane kind rt).0).scopes)
            (below_newest lane _ rt.scopes (
              IsOrdered-weaken lane (suc rt.next_id) (rt.next_id + 1) rt.scopes (omega arith)
                v.scopes_ordered));
    occurrences_kept = bal.occurrences_kept;
    ids_grow = omega (arith, bal.ids_grow);
  }

  -- A signal's handler runs while its scope is disabled and the occurrence is on the stack.
  handling-IsValid :
      (c : lane.Value) (f : Scope lane) (rt : Runtime lane)
      → IsValid rt
      → IsValid (set_active lane false f.scope_id (begin_occurrence lane c f.scope_id rt).0)
  unfolding begin_occurrence
  handling-IsValid c f rt v = record {
    scopes_ordered =
        set_active_in-IsOrdered lane false f.scope_id (suc (rt.next_id + 1)) rt.scopes (
          IsOrdered-weaken lane (suc rt.next_id) (suc (rt.next_id + 1)) rt.scopes (omega arith)
            v.scopes_ordered);
    occurrences_ordered = (
      omega arith,
      IsOrderedOccurrences-weaken lane (suc rt.next_id) (rt.next_id + 1) rt.occurrences
          (omega arith) v.occurrences_ordered,
    );
  }

  pub end_handling :
      (c : lane.Value) (f : Scope lane) (rt after : Runtime lane)
      → IsValid rt
      → find_handler lane c rt.scopes ≡ some f
      → IsBalanced
          (set_active lane false f.scope_id (begin_occurrence lane c f.scope_id rt).0)
          after
      → IsBalanced rt (
          end_occurrence lane
            (begin_occurrence lane c f.scope_id rt).1
            (set_active lane true f.scope_id after))
  unfolding begin_occurrence end_occurrence
  end_handling c f rt after v found bal = record {
    scopes_kept =
        ap (λ ss. set_active_in lane true f.scope_id ss) bal.scopes_kept
        ∙ set_active_in-find_handler lane c (suc rt.next_id) rt.scopes f v.scopes_ordered found;
    occurrences_kept =
        ap (λ os. or_else (without lane (rt.next_id + 1) os) os) bal.occurrences_kept
        ∙ ap (λ left. or_else left ((begin_occurrence lane c f.scope_id rt).0).occurrences)
            (without_newest lane _ rt.occurrences (
              IsOrderedOccurrences-weaken lane (suc rt.next_id) (rt.next_id + 1) rt.occurrences
                (omega arith) v.occurrences_ordered));
    ids_grow = omega (arith, bal.ids_grow);
  }

-- The runtime's operations, over blocks that leave the stacks as they were.
module _ (lane : Lane) (invoke : Runtime lane → Block lane → Outcome lane)
    (kept : (rt : Runtime lane) (b : Block lane)
      → IsValid lane rt
      → IsBalanced lane rt (invoke rt b).0) where
  run_condition_handler-IsBalanced :
      (cls : lane.Value) (h : lane.Value → Block lane) (body : Block lane) (rt : Runtime lane)
      → IsValid lane rt
      → IsBalanced lane rt (run_condition_handler lane invoke cls h body rt).0
  unfolding run_condition_handler
  run_condition_handler-IsBalanced cls h body rt v =
      leave_entered lane (handler cls h) rt _ v
        (kept _ body (enter_scope-IsValid lane (handler cls h) rt v))

  after_cleanup_runtime :
      (primary : Result (Thrown lane) lane.Value) (o : Outcome lane)
      → (after_cleanup lane primary o).0 ≡ o.0
  after_cleanup_runtime primary (rt, ok a) = refl
  after_cleanup_runtime primary (rt, err e) = refl

  clean_up-IsBalanced :
      (only : Bool) (cleanup : Block lane) (o : Outcome lane)
      → IsValid lane o.0
      → IsBalanced lane o.0 (clean_up lane invoke only cleanup o).0
  unfolding clean_up
  clean_up-IsBalanced true cleanup (rt, ok a) v = IsBalanced-refl lane rt
  clean_up-IsBalanced false cleanup (rt, ok a) v =
      rw (after_cleanup_runtime (ok a) (invoke rt cleanup)) (kept rt cleanup v)
  clean_up-IsBalanced only cleanup (rt, err e) v =
      rw (after_cleanup_runtime (err e) (invoke rt cleanup)) (kept rt cleanup v)

  run_unwind_protection-IsBalanced :
      (only : Bool) (cleanup body : Block lane) (rt : Runtime lane)
      → IsValid lane rt
      → IsBalanced lane rt (run_unwind_protection lane invoke only cleanup body rt).0
  unfolding run_unwind_protection
  run_unwind_protection-IsBalanced only cleanup body rt v =
      let kind = protection cleanup in
      let left =
        leave_entered lane kind rt _ v (kept _ body (enter_scope-IsValid lane kind rt v)) in
      IsBalanced-trans lane left
        (clean_up-IsBalanced only cleanup (_, _) (balanced-IsValid lane left v))

  signal_condition_occurrence-IsBalanced :
      (c : lane.Value) (rt : Runtime lane)
      → IsValid lane rt
      → IsBalanced lane rt (signal_condition_occurrence lane invoke c rt).0
  unfolding signal_condition_occurrence signal_to
  signal_condition_occurrence-IsBalanced c rt v =
      elim (Option-cases (find_handler lane c rt.scopes)) [
        | inl h ↦ rw (h, signal_condition_occurrence) (IsBalanced-refl lane rt)
        | inr (f, h) ↦
            rw (h, signal_condition_occurrence)
              (end_handling lane c f rt _ v h
                (kept _ (handler_block_of lane f c) (handling-IsValid lane c f rt v)))
      ]

  and_then-IsBalanced :
      (next : lane.Value → Block lane) (rt : Runtime lane) (o : Outcome lane)
      → IsValid lane rt
      → IsBalanced lane rt o.0
      → IsBalanced lane rt (and_then lane invoke next o).0
  unfolding and_then
  and_then-IsBalanced next rt (rt', ok a) v bal =
      IsBalanced-trans lane bal (kept rt' (next a) (balanced-IsValid lane bal v))
  and_then-IsBalanced next rt (rt', err e) v bal = bal

module _ (lane : Lane) where
  -- In a runtime whose stacks are in the order of their identities, however a block ends, by a
  -- value, an error, a transfer or an exhausted stack, and whatever scopes it entered and
  -- conditions it signalled: both stacks are as they were before it, disabled handlers enabled
  -- again, and the counter of identities has not gone back.
  pub exec-IsBalanced :
      (depth : ℕ) (rt : Runtime lane) (block : Block lane)
      → IsValid lane rt
      → IsBalanced lane rt (exec lane depth rt block).0
  unfolding exec
  exec-IsBalanced zero rt block v = IsBalanced-refl lane rt
  exec-IsBalanced (suc n) rt (give a) v = IsBalanced-refl lane rt
  exec-IsBalanced (suc n) rt (throw e) v = IsBalanced-refl lane rt
  exec-IsBalanced (suc n) rt (on_do cls h body next) v =
      and_then-IsBalanced lane (exec lane n) (exec-IsBalanced n) next rt _ v
        (run_condition_handler-IsBalanced lane (exec lane n) (exec-IsBalanced n) cls h body rt v)
  exec-IsBalanced (suc n) rt (protect only cleanup body next) v =
      and_then-IsBalanced lane (exec lane n) (exec-IsBalanced n) next rt _ v (
        run_unwind_protection-IsBalanced lane (exec lane n) (exec-IsBalanced n) only cleanup body rt
          v)
  exec-IsBalanced (suc n) rt (signal c next) v =
      and_then-IsBalanced lane (exec lane n) (exec-IsBalanced n) next rt _ v
        (signal_condition_occurrence-IsBalanced lane (exec lane n) (exec-IsBalanced n) c rt v)
  exec-IsBalanced (suc n) rt (transfer kind c a) v = IsBalanced-refl lane rt
