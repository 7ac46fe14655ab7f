-- ===== src/Backend/History.antt =====
-- Whole executions of the backend of src/backend/mock-backend.js: what any sequence of calls,
-- transactions and failures included, keeps of what was stored.
use lagrange_images.Base.{
  String, ◌+◌, ◌≤◌, ◌≡◌, refl, sym, ap, ◌∙◌, subst, true, some, List, [], ◌∷◌, ◌++◌, if◌then◌else◌,
  or_else, arith, Bool-cases, inl, inr, str_eq, eq_iff,
}
use mathlib.Core.List.{append_assoc, append-nil}
use lagrange_images.Base.Dict.{get, put, get-put}
use lagrange_images.Base.Result.{is_ok}
use lagrange_images.Backend.{
  JsonHost, Stored, Event, State, stored_at, version_in, version_at, events_of, Input, put_into,
  with_stored,
}
use lagrange_images.Backend.Records.{put_into_expecting, stored_at-with_stored}
use lagrange_images.Backend.Steps.{
  IsStep, same, written, appended, IsReachable, here, there, exec_all-IsReachable,
}
use lagrange_images.Backend.Transactions.{Call, exec_all}

-- Later states: versions never go back, a version names one content, and events stay where they are.
pub record IsLater (s s' : State) : Type 0 where
  pub versions : (c k : String) → version_at s c k ≤ version_at s' c k
  pub contents :
      (c k : String) → version_at s' c k ≡ version_at s c k → stored_at s' c k ≡ stored_at s c k
  pub streams :
      (name : String) → (more : List Event) × (events_of s' name ≡ events_of s name ++ more)

pub IsLater-refl : (s : State) → IsLater s s
IsLater-refl s = record {
  versions = λ c k. omega arith;
  contents = λ c k _. refl;
  streams = λ name. ([], sym (append-nil _));
}

pub IsLater-trans : {a b c : State} → IsLater a b → IsLater b c → IsLater a c
IsLater-trans {a} {b} {c} p q = record {
  versions = λ n k. omega (arith, p.versions n k, q.versions n k);
  contents = λ n k e.
      let low = p.versions n k in
      let high = q.versions n k in q.contents n k (omega arith) ∙ p.contents n k (omega arith);
  streams = λ name.
      let (more, h) = p.streams name in
      let (rest, h') = q.streams name in
      (more ++ rest, h' ∙ ap (λ l. l ++ rest) h ∙ append_assoc (events_of a name) more rest);
}

module _ (s : State) (c k : String) (e : Stored) (next : e.version ≡ version_at s c k + 1) where
  version_at-with_stored :
      (c' k' : String) → version_at s c' k' ≤ version_at (with_stored s c k e) c' k'
  version_at-with_stored c' k' =
      ground (arith, stored_at-with_stored s c k e c' k', eq_iff c c', eq_iff k k', next)

  content-with_stored :
      (c' k' : String)
      → version_at (with_stored s c k e) c' k' ≡ version_at s c' k'
      → stored_at (with_stored s c k e) c' k' ≡ stored_at s c' k'
  content-with_stored c' k' h =
      ground (arith, stored_at-with_stored s c k e c' k', eq_iff c c', eq_iff k k', next, h)

  with_stored-IsLater : IsLater s (with_stored s c k e)
  with_stored-IsLater = record {
    versions = version_at-with_stored;
    contents = content-with_stored;
    streams = λ name. ([], sym (append-nil _));
  }

module _ (s : State) (name : String) (e : Event) where
  -- An event is appended to one stream.
  pub events_of-appended :
      (other : String)
      → or_else (get other (put name (events_of s name ++ e ∷ []) s.streams)) []
        ≡ (if str_eq name other then events_of s name ++ e ∷ [] else events_of s other)
  events_of-appended other =
      ground (arith, get-put name other (events_of s name ++ e ∷ []) s.streams)

  more_events :
      (other : String)
      → (more : List Event) × (or_else
            (get other (put name (events_of s name ++ e ∷ []) s.streams))
            []
          ≡ events_of s other ++ more)
  more_events other = elim (Bool-cases (str_eq name other)) [
    | inl h ↦ (e ∷ [], ground (arith, events_of-appended other, eq_iff name other, h))
    | inr h ↦ ([], ground (arith, events_of-appended other, append-nil (events_of s other), h))
  ]

  appended-IsLater :
      IsLater s record s { streams = put name (events_of s name ++ e ∷ []) s.streams }
  unfolding stored_at
  appended-IsLater = record {
    versions = λ c k. omega arith;
    contents = λ c k _. refl;
    streams = more_events;
  }

step-IsLater : {s s' : State} → IsStep s s' → IsLater s s'
step-IsLater {s} {s'} (same h e) = record {
  versions = λ c k. omega (arith, ap version_in (h c k));
  contents = λ c k _. h c k;
  streams = λ name. ([], ap (λ m. or_else (get name m) []) e ∙ sym (append-nil _));
}
step-IsLater {s} {s'} (written c k e next made) =
    subst (λ x. IsLater s x) (sym made) (with_stored-IsLater s c k e next)
step-IsLater {s} {s'} (appended name e _ made) =
    subst (λ x. IsLater s x) (sym made) (appended-IsLater s name e)

pub reachable-IsLater : {s t : State} → IsReachable s t → IsLater s t
reachable-IsLater {s} here = IsLater-refl s
reachable-IsLater (there p step) = IsLater-trans (reachable-IsLater p) (step-IsLater step)

module _ (host : JsonHost) where
  -- Any calls, transactions and failing calls included, lead to a later state: no record's version
  -- goes back, a record whose version is as before is as before, and every stream keeps its events
  -- and has at most new ones after them.
  pub exec_all-IsLater : (s : State) (calls : List (Call host)) → IsLater s (exec_all host s calls)
  exec_all-IsLater s calls = reachable-IsLater (exec_all-IsReachable host s calls)

  -- A write that expects the version that a caller once read returns, whatever calls came between,
  -- only if the record is still the one that was read, and then its version is the next one.
  pub put_into_at_version_read :
      (s : State) (calls : List (Call host)) (c k : String) (value : Input host)
      → let now = exec_all host s calls in
        let after = put_into host now c k value (some (version_at s c k)) in
        is_ok after.1 ≡ true
        → (stored_at now c k ≡ stored_at s c k) × (version_at after.0 c k ≡ version_at s c k + 1)
  put_into_at_version_read s calls c k value h =
      let now = exec_all host s calls in
      let (e, next) = put_into_expecting host now c k value (version_at s c k) h in
      ((exec_all-IsLater s calls).contents c k e, next ∙ ap (λ n. n + 1) e)
