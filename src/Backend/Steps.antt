-- ===== src/Backend/Steps.antt =====
-- The calls of src/backend/mock-backend.js as steps of the state: whatever a program does with the
-- backend is a sequence of records written and events appended.
use lagrange_images.Base.{
  ℕ, String, ◌+◌, ◌≡◌, refl, sym, subst, ◌∙◌, Bool, true, false, Option, List, [], ◌∷◌, ◌++◌,
  length, inl, inr,
}
use lagrange_images.Base.Dict.{put}
use lagrange_images.Base.Result.{Result, ok, err, Result-cases}
use lagrange_images.Backend.{
  JsonHost, Stored, Event, State, Failure, inactive, stored_at, version_at, events_of, with_stored,
  Input, encode_record, get_from, put_into, append_to, append_text, read_stream_from,
  stream_head_from,
}
use lagrange_images.Backend.Records.{put_into_cases, store_text_cases, stored_at-with_bucket}
use lagrange_images.Backend.Drafts.{draft_of_lem}
use lagrange_images.Backend.Transactions.{
  draft_of, Work, give, throw, read, write, add, read_stream, stream_head, run, settle, transaction,
  Call, put_call, append_call, transaction_call, late_call, exec, exec_all, when_active,
}

-- One step: nothing is different, one record has a new version, or one stream a new event.
pub data IsStep (s s' : State) : Type 0 where
  same :
      ((c k : String) → stored_at s' c k ≡ stored_at s c k) → s'.streams ≡ s.streams → IsStep s s'
  written :
      (c k : String) (e : Stored)
      → e.version ≡ version_at s c k + 1
      → s' ≡ with_stored s c k e
      → IsStep s s'
  appended :
      (name : String) (e : Event)
      → e.revision ≡ length (events_of s name) + 1
      → s' ≡ record s { streams = put name (events_of s name ++ e ∷ []) s.streams }
      → IsStep s s'

pub data IsReachable (s : State) : State → Type 0 where
  here : IsReachable s s
  there : {t u : State} → IsReachable s t → IsStep t u → IsReachable s u

IsReachable-trans : {s t u : State} → IsReachable s t → IsReachable t u → IsReachable s u
IsReachable-trans p here = p
IsReachable-trans p (there q step) = there (IsReachable-trans p q) step

settle-IsReachable :
    {A : Type 0} (s : State) (r : State × Result Failure A)
    → IsReachable s r.0
    → IsReachable s (settle s r).0
unfolding settle
settle-IsReachable s (draft, ok a) h = h
settle-IsReachable s (draft, err e) h = here

module _ (host : JsonHost) where
  put_into-IsStep :
      (s : State) (c k : String) (value : Input host) (expected : Option ℕ)
      → IsStep s (put_into host s c k value expected).0
  put_into-IsStep s c k value expected = elim (put_into_cases host s c k value expected) [
    | inl (e, _, h) ↦ rw h (same (λ c k. refl) refl)
    | inr (text, _, h) ↦ elim (store_text_cases host s c k text expected) [
      | inl (_, w) ↦ rw (h ∙ w) (same (stored_at-with_bucket s c) refl)
      | inr (_, w) ↦ rw (h ∙ w) (written c k _ refl refl)
    ]
  ]

  append_to-IsStep :
      (s : State) (name : String) (event : Input host) → IsStep s (append_to host s name event).0
  unfolding append_text append_to
  append_to-IsStep s name event = elim (Result-cases (encode_record host event "revision")) [
    | inl (text, h) ↦ rw (h, append_to) (appended name _ refl refl)
    | inr (e, h) ↦ rw (h, append_to) (same (λ c k. refl) refl)
  ]

  after_step :
      {A : Type 0} {s t : State} (w : Work host A)
      → IsStep s t
      → IsReachable t (run host true t w).0
      → IsReachable s (run host true t w).0
  after_step w step rest = IsReachable-trans (there here step) rest

  pub run-IsReachable :
      {A : Type 0} (active : Bool) (s : State) (w : Work host A)
      → IsReachable s (run host active s w).0
  unfolding run
  run-IsReachable active s (give a) = here
  run-IsReachable active s (throw e) = here
  run-IsReachable active s (read c k next) =
      run-IsReachable active s (next (when_active active (get_from host s c k)))
  run-IsReachable true s (write c k value expected next) =
      let after = put_into host s c k value expected in
      after_step (next after.1) (put_into-IsStep s c k value expected)
        (run-IsReachable true after.0 (next after.1))
  run-IsReachable false s (write c k value expected next) =
      run-IsReachable false s (next (err inactive))
  run-IsReachable true s (add name event next) =
      let after = append_to host s name event in
      after_step (next after.1) (append_to-IsStep s name event)
        (run-IsReachable true after.0 (next after.1))
  run-IsReachable false s (add name event next) = run-IsReachable false s (next (err inactive))
  run-IsReachable active s (read_stream name n next) =
      run-IsReachable active s (next (when_active active (read_stream_from host s name n)))
  run-IsReachable active s (stream_head name next) =
      run-IsReachable active s (next (when_active active (stream_head_from s name)))

  exec-IsReachable : (s : State) (call : Call host) → IsReachable s (exec host s call)
  unfolding exec transaction
  exec-IsReachable s (put_call c k value expected) =
      there here (put_into-IsStep s c k value expected)
  exec-IsReachable s (append_call name event) = there here (append_to-IsStep s name event)
  exec-IsReachable s (transaction_call A w) = settle-IsReachable s (run host true (draft_of s) w) (
      subst (λ d. IsReachable s (run host true d w).0) (sym (draft_of_lem s))
        (run-IsReachable true s w))
  exec-IsReachable s (late_call A w) = run-IsReachable false s w

  pub exec_all-IsReachable :
      (s : State) (calls : List (Call host)) → IsReachable s (exec_all host s calls)
  unfolding exec_all
  exec_all-IsReachable s [] = here
  exec_all-IsReachable s (call ∷ calls) =
      IsReachable-trans (exec-IsReachable s call) (exec_all-IsReachable (exec host s call) calls)
