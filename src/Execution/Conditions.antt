-- ===== src/Execution/Conditions.antt =====
-- src/execution/conditions.js: the condition runtime. One stack of scopes for an execution, searched by
-- a signal, and the unwinding of control by thrown transfers. The proofs are in the modules below.
pub mod Scopes
pub mod Balance
pub mod Handling
pub mod Resuming
mod Tests
use lagrange_images.Base.{
  ℕ, zero, suc, ◌+◌, Bool, true, false, ◌&&◌, Option, none, some, List, [], ◌∷◌, ◌==◌,
  if◌then◌else◌, or_else,
}
use lagrange_images.Base.Result.{Result, ok, err}

-- Canonical values, and the tests that the caller passes: whether a condition is of a handler's class,
-- and whether two are the same condition.
pub record Lane : Type 1 where
  pub Value : Type 0
  pub matches : Value → Value → Bool
  pub same_condition : Value → Value → Bool

module _ (lane : Lane) where
  -- What is thrown: the two kinds of `ConditionTransfer`, the two errors of the runtime, and any
  -- other error, non-local returns and the host's included. `stack_overflow` is the host's too.
  pub data Thrown : Type 0 where
    return_to : ℕ → lane.Value → Thrown
    resume_at : ℕ → lane.Value → Thrown
    unhandled_condition no_active_occurrence stack_overflow : Thrown
    other_error : lane.Value → Thrown

  pub data TransferKind : Type 0 where
    resume return : TransferKind

  -- A Block, as far as the runtime can tell: what it does next, by what the operation before gave.
  pub data Block : Type 0 where
    give : lane.Value → Block
    throw : Thrown → Block
    on_do : lane.Value → (lane.Value → Block) → Block → (lane.Value → Block) → Block
    protect : Bool → Block → Block → (lane.Value → Block) → Block
    signal : lane.Value → (lane.Value → Block) → Block
    transfer : TransferKind → lane.Value → lane.Value → Block

  pub data ScopeKind : Type 0 where
    handler : lane.Value → (lane.Value → Block) → ScopeKind
    protection : Block → ScopeKind

  pub record Scope : Type 0 where
    pub scope_id : ℕ
    pub kind : ScopeKind
    pub active : Bool

  pub record Occurrence : Type 0 where
    pub occurrence_id : ℕ
    pub condition : lane.Value
    pub handler_scope_id : ℕ
    pub active : Bool

  -- Both stacks with the newest entry first.
  pub record Runtime : Type 0 where
    pub scopes : List Scope
    pub occurrences : List Occurrence
    pub next_id : ℕ

  unfoldable pub enter_scope : ScopeKind → Runtime → Runtime × ℕ
  enter_scope kind rt =
      let id : ℕ = rt.next_id + 1 in
      let scope : Scope = record { scope_id = id; kind = kind; active = true } in
      (record rt { scopes = scope ∷ rt.scopes; next_id = id }, id)

  -- The scopes below the oldest one with an id, if there is one.
  unfoldable pub below : ℕ → List Scope → Option (List Scope)
  below id [] = none
  below id (s ∷ older) = elim (below id older) [
    | some rest ↦ some rest
    | none ↦ if s.scope_id == id then some older else none
  ]

  unfoldable pub leave : ℕ → Runtime → Runtime
  leave id rt = record rt { scopes = or_else (below id rt.scopes) rt.scopes }

  abbrev pub is_handler_of : lane.Value → Scope → Bool
  is_handler_of condition s =
      s.active && elim s.kind [ handler cls _ ↦ lane.matches condition cls | protection _ ↦ false ]

  unfoldable pub find_handler : lane.Value → List Scope → Option Scope
  find_handler condition [] = none
  find_handler condition (s ∷ older) =
      let rest = find_handler condition older in if is_handler_of condition s then some s else rest

  unfoldable pub begin_occurrence : lane.Value → ℕ → Runtime → Runtime × ℕ
  begin_occurrence condition scope_id rt =
      let id : ℕ = rt.next_id + 1 in
      let o : Occurrence = record {
        occurrence_id = id;
        condition = condition;
        handler_scope_id = scope_id;
        active = true;
      } in
      (record rt { occurrences = o ∷ rt.occurrences; next_id = id }, id)

  -- Without the oldest occurrence with an id, if there is one.
  unfoldable pub without : ℕ → List Occurrence → Option (List Occurrence)
  without id [] = none
  without id (o ∷ older) = elim (without id older) [
    | some rest ↦ some (o ∷ rest)
    | none ↦ if o.occurrence_id == id then some older else none
  ]

  unfoldable pub end_occurrence : ℕ → Runtime → Runtime
  end_occurrence id rt = record rt {
    occurrences = or_else (without id rt.occurrences) rt.occurrences;
  }

  unfoldable pub active_occurrence_for : lane.Value → List Occurrence → Option Occurrence
  active_occurrence_for condition [] = none
  active_occurrence_for condition (o ∷ older) =
      let rest = active_occurrence_for condition older in
      if o.active && lane.same_condition condition o.condition then some o else rest

  -- `scope.active = …`, of the scope with an id.
  unfoldable pub set_active_in : Bool → ℕ → List Scope → List Scope
  set_active_in b id [] = []
  set_active_in b id (s ∷ older) =
      (if s.scope_id == id then record s { active = b } else s) ∷ set_active_in b id older

  abbrev pub set_active : Bool → ℕ → Runtime → Runtime
  set_active b id rt = record rt { scopes = set_active_in b id rt.scopes }

  abbrev pub Outcome : Type 0
  Outcome = Runtime × Result Thrown lane.Value

  -- `catch` in `runConditionHandler`.
  unfoldable pub caught : ℕ → Result Thrown lane.Value → Result Thrown lane.Value
  caught id (ok v) = ok v
  caught id (err (return_to scope_id v)) =
      if scope_id == id then ok v else err (return_to scope_id v)
  caught id (err e) = err e

  -- `catch` in `signalConditionOccurrence`: the handler's answer is the value of its `on:do:`.
  unfoldable pub answered : ℕ → ℕ → Result Thrown lane.Value → Result Thrown lane.Value
  answered occurrence scope_id (ok answer) = err (return_to scope_id answer)
  answered occurrence scope_id (err (resume_at id v)) =
      if id == occurrence then ok v else err (resume_at id v)
  answered occurrence scope_id (err e) = err e

  -- The outcome after a cleanup: its own error, or what the protected block did.
  abbrev pub after_cleanup : Result Thrown lane.Value → Outcome → Outcome
  after_cleanup primary (rt, ok _) = (rt, primary)
  after_cleanup primary (rt, err secondary) = (rt, err secondary)

  -- The block that a scope gives a signal to.
  abbrev pub handler_block_of : Scope → lane.Value → Block
  handler_block_of s condition = elim s.kind [
    | handler _ block ↦ block condition
    | protection _ ↦ throw unhandled_condition
  ]

  -- `facade.invoke`
  module _ (invoke : Runtime → Block → Outcome) where
    unfoldable pub run_condition_handler :
        lane.Value → (lane.Value → Block) → Block → Runtime → Outcome
    run_condition_handler cls handler_block protected_block rt =
        let (entered, id) = enter_scope (handler cls handler_block) rt in
        let ran = invoke entered protected_block in (leave id ran.0, caught id ran.1)

    unfoldable pub clean_up : Bool → Block → Outcome → Outcome
    clean_up only_when_curtailed cleanup (rt, err primary) =
        after_cleanup (err primary) (invoke rt cleanup)
    clean_up only_when_curtailed cleanup (rt, ok result) = elim only_when_curtailed [
      | true ↦ (rt, ok result)
      | false ↦ after_cleanup (ok result) (invoke rt cleanup)
    ]

    unfoldable pub run_unwind_protection : Bool → Block → Block → Runtime → Outcome
    run_unwind_protection only_when_curtailed cleanup protected_block rt =
        let (entered, id) = enter_scope (protection cleanup) rt in
        let ran = invoke entered protected_block in
        clean_up only_when_curtailed cleanup (leave id ran.0, ran.1)

    unfoldable pub signal_to : lane.Value → Scope → Runtime → Outcome
    signal_to condition scope rt =
        let (began, occurrence) = begin_occurrence condition scope.scope_id rt in
        let ran =
          invoke (set_active false scope.scope_id began) (handler_block_of scope condition) in
        (
          end_occurrence occurrence (set_active true scope.scope_id ran.0),
          answered occurrence scope.scope_id ran.1,
        )

    unfoldable pub signal_condition_occurrence : lane.Value → Runtime → Outcome
    signal_condition_occurrence condition rt = elim (find_handler condition rt.scopes) [
      | none ↦ (rt, err unhandled_condition)
      | some scope ↦ signal_to condition scope rt
    ]

  unfoldable pub transfer_condition_occurrence :
      TransferKind → lane.Value → lane.Value → Runtime → Thrown
  transfer_condition_occurrence kind condition value rt =
      elim (active_occurrence_for condition rt.occurrences) [
        | none ↦ no_active_occurrence
        | some o ↦ elim kind [
          | resume ↦ resume_at o.occurrence_id value
          | return ↦ return_to o.handler_scope_id value
        ]
      ]

  -- The rest of a block is run if the operation before returned.
  unfoldable pub and_then : (Runtime → Block → Outcome) → (lane.Value → Block) → Outcome → Outcome
  and_then invoke next (rt, ok v) = invoke rt (next v)
  and_then invoke next (rt, err e) = (rt, err e)

  -- Blocks run on a stack of a given depth.
  unfoldable pub exec : ℕ → Runtime → Block → Outcome
  exec zero rt block = (rt, err stack_overflow)
  exec (suc n) rt (give v) = (rt, ok v)
  exec (suc n) rt (throw e) = (rt, err e)
  exec (suc n) rt (on_do cls handler_block body next) =
      and_then (exec n) next (run_condition_handler (exec n) cls handler_block body rt)
  exec (suc n) rt (protect only cleanup body next) =
      and_then (exec n) next (run_unwind_protection (exec n) only cleanup body rt)
  exec (suc n) rt (signal condition next) =
      and_then (exec n) next (signal_condition_occurrence (exec n) condition rt)
  exec (suc n) rt (transfer kind condition value) =
      (rt, err (transfer_condition_occurrence kind condition value rt))
