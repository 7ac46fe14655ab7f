-- ===== src/Execution/Conditions/Resuming.antt =====
-- What `resume:` of src/execution/conditions.js does: the signaller goes on.
use lagrange_images.Base.{ℕ, suc, ◌+◌, ◌≡◌, ap, ◌∙◌, true, false, some, arith}
use lagrange_images.Base.Result.{ok, err}
use lagrange_images.Execution.Conditions.{
  Lane, resume_at, Block, transfer, resume, signal, Scope, handler, Runtime, find_handler,
  set_active, begin_occurrence, end_occurrence, handler_block_of, signal_to,
  signal_condition_occurrence, and_then, exec, answered, active_occurrence_for,
  transfer_condition_occurrence,
}
use lagrange_images.Execution.Conditions.Balance.{IsValid, IsBalanced-refl, end_handling}

module _ (lane : Lane) where
  transfer_newest :
      (c v : lane.Value) (f : Scope lane) (rt : Runtime lane)
      → lane.same_condition c c ≡ true
      → transfer_condition_occurrence lane resume c v
          (set_active lane false f.scope_id (begin_occurrence lane c f.scope_id rt).0)
        ≡ resume_at (rt.next_id + 1) v
  unfolding transfer_condition_occurrence begin_occurrence active_occurrence_for
  transfer_newest c v f rt same = ground (arith, same)

  answered_own :
      (occurrence scope_id : ℕ) (v : lane.Value)
      → answered lane occurrence scope_id (err (resume_at occurrence v)) ≡ ok v
  unfolding answered
  answered_own occurrence scope_id v = ground arith

  -- One identity is used up.
  abbrev pub used_one : Runtime lane → Runtime lane
  used_one rt = record rt { next_id = rt.next_id + 1 }

  end_runtime :
      (c : lane.Value) (f : Scope lane) (rt : Runtime lane)
      → IsValid lane rt
      → find_handler lane c rt.scopes ≡ some f
      → end_occurrence lane (begin_occurrence lane c f.scope_id rt).1 (
          set_active lane true f.scope_id
            (set_active lane false f.scope_id (begin_occurrence lane c f.scope_id rt).0))
        ≡ used_one rt
  unfolding end_occurrence begin_occurrence
  end_runtime c f rt v found =
      let bal = end_handling lane c f rt _ v found (IsBalanced-refl lane _) in
      λ i. record {
        scopes = bal.scopes_kept i;
        occurrences = bal.occurrences_kept i;
        next_id = rt.next_id + 1;
      }

  resume_block :
      (c v : lane.Value) (cls : lane.Value) (f : Scope lane)
      → f.kind ≡ handler cls (λ x. transfer resume x v)
      → handler_block_of lane f c ≡ transfer resume c v
  resume_block c v cls f e = ground (arith, e)

  signal_to_resumed :
      (n : ℕ) (rt : Runtime lane) (c v : lane.Value) (f : Scope lane)
      → IsValid lane rt
      → find_handler lane c rt.scopes ≡ some f
      → handler_block_of lane f c ≡ transfer resume c v
      → lane.same_condition c c ≡ true
      → signal_to lane (exec lane (suc n)) c f rt ≡ (used_one rt, ok v)
  unfolding signal_to exec begin_occurrence
  signal_to_resumed n rt c v f valid found block same =
      rw (signal_to, block)
        (λ i. (
          end_runtime c f rt valid found i,
          (ap (λ e. answered lane (rt.next_id + 1) f.scope_id (err e))
                  (transfer_newest c v f rt same)
                ∙ answered_own (rt.next_id + 1) f.scope_id v)
              i,
        ))

  -- In a runtime whose stacks are in the order of their identities, a signal whose handler does
  -- nothing but resume it goes on with the value that was passed, in the runtime it was made in: no
  -- scope was left, the handler is active again, the occurrence is over, and one identity is used
  -- up.
  pub signal_resumes :
      (n : ℕ) (rt : Runtime lane) (c cls v : lane.Value) (f : Scope lane)
      (rest : lane.Value → Block lane)
      → IsValid lane rt
      → find_handler lane c rt.scopes ≡ some f
      → f.kind ≡ handler cls (λ x. transfer resume x v)
      → lane.same_condition c c ≡ true
      → exec lane (suc (suc n)) rt (signal c rest) ≡ exec lane (suc n) (used_one rt) (rest v)
  unfolding exec and_then signal_condition_occurrence
  signal_resumes n rt c cls v f rest valid found kind same =
      ap (λ o. and_then lane (exec lane (suc n)) rest o) outcome
    where
      outcome : signal_condition_occurrence lane (exec lane (suc n)) c rt ≡ (used_one rt, ok v)
      outcome =
          rw (found, signal_condition_occurrence)
            (signal_to_resumed n rt c v f valid found (resume_block c v cls f kind) same)
