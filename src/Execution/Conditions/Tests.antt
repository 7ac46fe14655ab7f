-- ===== src/Execution/Conditions/Tests.antt =====
-- Runs of the condition runtime of src/execution/conditions.js, with numbers as values: a condition
-- matches the class with its number.
use lagrange_images.Base.{ℕ, ◌+◌, ◌≡◌, refl, true, false, [], ◌∷◌, ◌==◌, arith}
use lagrange_images.Base.Result.{ok}
use lagrange_images.Execution.Conditions.{
  Lane, other_error, Block, give, throw, on_do, protect, signal, transfer, resume, Scope, handler,
  protection, Runtime, find_handler, exec,
}
use lagrange_images.Execution.Conditions.Balance.{IsValid, IsBalanced, exec-IsBalanced}
use lagrange_images.Execution.Conditions.Handling.{on_do_catches}
use lagrange_images.Execution.Conditions.Resuming.{used_one, signal_resumes}

abbrev number_lane : Lane
number_lane = record { Value = ℕ; matches = λ c cls. c == cls; same_condition = λ c d. c == d }

abbrev adding_handler : Scope number_lane
adding_handler = record {
  scope_id = 2;
  kind = handler 7 (λ c. transfer resume c 40);
  active = true;
}

abbrev two_scopes : Runtime number_lane
two_scopes = record {
  scopes = adding_handler ∷ record { scope_id = 1; kind = protection (give 0); active = true } ∷ [];
  occurrences = [];
  next_id = 2;
}

abbrev no_scopes : Runtime number_lane
no_scopes = record { scopes = []; occurrences = []; next_id = 0 }

two_scopes-IsValid : IsValid number_lane two_scopes
two_scopes-IsValid = record {
  scopes_ordered = (omega arith, (omega arith, tt));
  occurrences_ordered = tt;
}

-- It enters a handler and a protection, and fails inside both.
abbrev failing_block : Block number_lane
failing_block =
    on_do 3 (λ c. give 1) (protect false (signal 7 give) (throw (other_error 9)) give) give

exec-IsBalanced_example :
    IsBalanced number_lane two_scopes (exec number_lane 20 two_scopes failing_block).0
exec-IsBalanced_example = exec-IsBalanced number_lane 20 two_scopes failing_block two_scopes-IsValid

on_do_catches_example :
    (exec number_lane 5 no_scopes (on_do 7 (λ c. give (c + 1)) (signal 7 (λ _. give 0)) give)).1
    ≡ ok 8
unfolding exec
on_do_catches_example =
    on_do_catches number_lane 2 no_scopes 7 7 8 (λ c. give (c + 1)) (λ _. give 0) refl refl

signal_resumes_example :
    exec number_lane 5 two_scopes (signal 7 (λ x. give (x + 2)))
    ≡ exec number_lane 4 (used_one number_lane two_scopes) (give 42)
unfolding find_handler
signal_resumes_example =
    signal_resumes number_lane 3 two_scopes 7 7 40 adding_handler (λ x. give (x + 2))
      two_scopes-IsValid refl refl refl
