-- ===== src/Execution/Conditions/Handling.antt =====
-- Which handler a signal of src/execution/conditions.js reaches, and what an `on:do:` answers.
use lagrange_images.Base.{
  ℕ, suc, ◌+◌, ◌≡◌, ◌≢◌, refl, sym, ap, ◌∙◌, subst, true, false, none, some, List, [], ◌∷◌, ◌++◌,
  if◌then◌else◌, arith, Bool-cases, inl, inr, All,
}
use lagrange_images.Base.Result.{ok, err, eq_of_ok}
use lagrange_images.Execution.Conditions.{
  Lane, Thrown, return_to, resume_at, Block, give, on_do, signal, Scope, handler, Runtime,
  find_handler, is_handler_of, set_active_in, set_active, enter_scope, begin_occurrence, Outcome,
  run_condition_handler, handler_block_of, signal_to, signal_condition_occurrence, and_then, exec,
  caught, answered,
}

module _ (lane : Lane) where
  -- Either no scope is an active handler of the condition and none is found, or the one found is, and
  -- no newer scope is.
  pub data IsSearch (c : lane.Value) (ss : List (Scope lane)) : Type 0 where
    unhandled :
        find_handler lane c ss ≡ none → All (λ s. is_handler_of lane c s ≡ false) ss → IsSearch c ss
    innermost :
        (newer : List (Scope lane)) (f : Scope lane) (older : List (Scope lane))
        → find_handler lane c ss ≡ some f
        → ss ≡ newer ++ f ∷ older
        → is_handler_of lane c f ≡ true
        → All (λ s. is_handler_of lane c s ≡ false) newer
        → IsSearch c ss

  -- A signal reaches the innermost active handler of a class that the condition matches, and goes
  -- unhandled only if there is none.
  pub find_handler-IsSearch : (c : lane.Value) (ss : List (Scope lane)) → IsSearch c ss
  unfolding find_handler
  find_handler-IsSearch c [] = unhandled refl tt
  find_handler-IsSearch c (s ∷ older) = elim (Bool-cases (is_handler_of lane c s)) [
    | inl mine ↦
        innermost [] s older (ap (λ b. if b then some s else find_handler lane c older) mine) refl
          mine tt
    | inr other ↦
        let skip = ap (λ b. if b then some s else find_handler lane c older) other in
        elim (find_handler-IsSearch c older) [
          | unhandled e none_older ↦ unhandled (skip ∙ e) (other, none_older)
          | innermost newer f rest e split mine none_newer ↦
              innermost (s ∷ newer) f rest (skip ∙ e) (ap (λ l. s ∷ l) split) mine
                (other, none_newer)
        ]
  ]

  -- While a handler's scope is disabled no signal reaches it, whatever the condition.
  pub find_handler-set_active_in :
      (c : lane.Value) (id : ℕ) (ss : List (Scope lane)) (f : Scope lane)
      → find_handler lane c (set_active_in lane false id ss) ≡ some f
      → f.scope_id ≢ id
  unfolding find_handler set_active_in
  find_handler-set_active_in c id [] f e = cc
  find_handler-set_active_in c id (s ∷ older) f e =
      ground (arith, find_handler-set_active_in c id older f, e)

module _ (lane : Lane) (invoke : Runtime lane → Block lane → Outcome lane) where
  -- The handler's answer becomes the value of the scope's `on:do:`.
  signal_answered :
      (c : lane.Value) (f : Scope lane) (rt : Runtime lane) (a : lane.Value)
      → find_handler lane c rt.scopes ≡ some f
      → (invoke
          (set_active lane false f.scope_id (begin_occurrence lane c f.scope_id rt).0)
          (handler_block_of lane f c)).1
        ≡ ok a
      → (signal_condition_occurrence lane invoke c rt).1 ≡ err (return_to f.scope_id a)
  unfolding signal_condition_occurrence signal_to answered
  signal_answered c f rt a found answer =
      rw (found, signal_condition_occurrence)
        (ap (λ r. answered lane (begin_occurrence lane c f.scope_id rt).1 f.scope_id r) answer)

  signal_resumed :
      (c : lane.Value) (f : Scope lane) (rt : Runtime lane) (a : lane.Value)
      → find_handler lane c rt.scopes ≡ some f
      → (invoke
          (set_active lane false f.scope_id (begin_occurrence lane c f.scope_id rt).0)
          (handler_block_of lane f c)).1
        ≡ err (resume_at (begin_occurrence lane c f.scope_id rt).1 a)
      → (signal_condition_occurrence lane invoke c rt).1 ≡ ok a
  unfolding signal_condition_occurrence signal_to answered
  signal_resumed c f rt a found answer =
      rw (found, signal_condition_occurrence)
        (ap (λ r. answered lane (begin_occurrence lane c f.scope_id rt).1 f.scope_id r) answer
          ∙ ground arith)

module _ (lane : Lane) where
  and_then_thrown :
      (invoke : Runtime lane → Block lane → Outcome lane) (next : lane.Value → Block lane)
      (o : Outcome lane) (e : Thrown lane)
      → o.1 ≡ err e
      → (and_then lane invoke next o).1 ≡ err e
  unfolding and_then
  and_then_thrown invoke next (rt, ok a) e h = cc
  and_then_thrown invoke next (rt, err e') e h = h

  and_then_given :
      (invoke : Runtime lane → Block lane → Outcome lane) (o : Outcome lane) (a : lane.Value)
      → ((rt : Runtime lane) → (invoke rt (give a)).1 ≡ ok a)
      → o.1 ≡ ok a
      → (and_then lane invoke give o).1 ≡ ok a
  unfolding and_then
  and_then_given invoke (rt, ok b) a k h =
      subst (λ x. (invoke rt (give x)).1 ≡ ok a) (sym (eq_of_ok h)) (k rt)
  and_then_given invoke (rt, err e) a k h = cc

  caught_own : (id : ℕ) (a : lane.Value) → caught lane id (err (return_to id a)) ≡ ok a
  unfolding caught
  caught_own id a = ground arith

  find_entered :
      (cls c : lane.Value) (h : lane.Value → Block lane) (rt : Runtime lane)
      → lane.matches c cls ≡ true
      → find_handler lane c (enter_scope lane (handler cls h) rt).0.scopes
        ≡ some record { scope_id = rt.next_id + 1; kind = handler cls h; active = true }
  unfolding find_handler enter_scope
  find_entered cls c h rt fits = ground (arith, fits)

  -- An `on:do:` whose protected block signals a condition of its class, and whose handler, run
  -- while its scope is disabled, gives a value, answers that value, and the rest of the protected
  -- block is not run.
  pub on_do_catches :
      (n : ℕ) (rt : Runtime lane) (cls c a : lane.Value) (h rest : lane.Value → Block lane)
      → lane.matches c cls ≡ true
      → let (entered, id) = enter_scope lane (handler cls h) rt in
        (exec lane
            (suc n)
            (set_active lane false id (begin_occurrence lane c id entered).0)
            (h c)).1
          ≡ ok a
        → (exec lane (suc (suc (suc n))) rt (on_do cls h (signal c rest) give)).1 ≡ ok a
  unfolding exec run_condition_handler enter_scope
  on_do_catches n rt cls c a h rest fits answer =
      let (entered, id) = enter_scope lane (handler cls h) rt in
      let thrown =
        and_then_thrown (exec lane (suc n)) rest
          (signal_condition_occurrence lane (exec lane (suc n)) c entered) (return_to id a)
          (signal_answered lane (exec lane (suc n)) c
            record { scope_id = id; kind = handler cls h; active = true } entered a
            (find_entered cls c h rt fits) answer) in
      and_then_given (exec lane (suc (suc n)))
        (run_condition_handler lane (exec lane (suc (suc n))) cls h (signal c rest) rt) a
        (λ after. refl) (ap (λ r. caught lane id r) thrown ∙ caught_own id a)
