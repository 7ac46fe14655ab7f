-- ===== src/Backend/Streams.antt =====
-- The events of the streams of src/backend/mock-backend.js: their revisions, and what a reader who
-- polls from a head gets.
use lagrange_images.Base.{
  ℕ, String, suc, ◌+◌, ◌≤◌, ◌≡◌, refl, sym, ap, ◌∙◌, subst, List, [], ◌∷◌, ◌++◌, length, or_else,
  arith, Bool-cases, inl, inr, str_eq,
}
use lagrange_images.Base.Dict.{get, put}
use lagrange_images.Backend.{
  JsonHost, Event, State, events_of, events_after, head_of, stream_head_from,
}
use lagrange_images.Backend.Steps.{
  IsStep, same, written, appended, IsReachable, here, there, exec_all-IsReachable,
}
use lagrange_images.Backend.History.{events_of-appended, exec_all-IsLater}
use lagrange_images.Backend.Transactions.{Call, exec_all}

-- The revisions are the numbers after a given one.
abbrev pub IsNumbered : ℕ → List Event → Type 0
IsNumbered n [] = Unit
IsNumbered n (e ∷ es) = (e.revision ≡ suc n) × IsNumbered (suc n) es

IsNumbered-append :
    (n : ℕ) (es : List Event) (e : Event)
    → IsNumbered n es
    → e.revision ≡ n + length es + 1
    → IsNumbered n (es ++ e ∷ [])
IsNumbered-append n [] e h next = (omega arith, tt)
IsNumbered-append n (x ∷ es) e h next = (h.0, IsNumbered-append (suc n) es e h.1 (omega arith))

head_of_numbered :
    (n : ℕ) (e : Event) (es : List Event)
    → IsNumbered n (e ∷ es)
    → head_of (e ∷ es) ≡ n + length (e ∷ es)
unfolding head_of
head_of_numbered n e [] h = omega (arith, h.0)
head_of_numbered n e (e' ∷ es) h = omega (arith, head_of_numbered (suc n) e' es h.1)

head_of-eq-length : (es : List Event) → IsNumbered 0 es → head_of es ≡ length es
unfolding head_of
head_of-eq-length [] h = refl
head_of-eq-length (e ∷ es) h = omega (arith, head_of_numbered 0 e es h)

events_after_all : (n m : ℕ) (es : List Event) → IsNumbered n es → m ≤ n → events_after m es ≡ es
unfolding events_after
events_after_all n m [] h le = refl
events_after_all n m (e ∷ es) h le = ground (arith, events_after_all (suc n) m es)

events_after-append :
    (n m : ℕ) (es more : List Event)
    → m ≡ n + length es
    → IsNumbered n (es ++ more)
    → events_after m (es ++ more) ≡ more
unfolding events_after
events_after-append n m [] more e h = events_after_all n m more h (omega arith)
events_after-append n m (x ∷ es) more e h = ground (arith, events_after-append (suc n) m es more)

-- Every stream has the revisions from 1 on.
abbrev pub IsWellNumbered : State → Type 0
IsWellNumbered s = (name : String) → IsNumbered 0 (events_of s name)

append-IsWellNumbered :
    (s : State) (name : String) (e : Event)
    → e.revision ≡ length (events_of s name) + 1
    → IsWellNumbered s
    → IsWellNumbered record s { streams = put name (events_of s name ++ e ∷ []) s.streams }
append-IsWellNumbered s name e next h other =
    rw (events_of-appended s name e other) (elim (Bool-cases (str_eq name other)) [
      | inl q ↦ rw q (IsNumbered-append 0 (events_of s name) e (h name) (omega arith))
      | inr q ↦ rw q (h other)
    ])

step-IsWellNumbered : {s t : State} → IsStep s t → IsWellNumbered s → IsWellNumbered t
step-IsWellNumbered {s} {t} (same _ e) h =
    λ name. subst (λ m. IsNumbered 0 (or_else (get name m) [])) (sym e) (h name)
step-IsWellNumbered {s} {t} (written c k e _ made) h = subst (λ x. IsWellNumbered x) (sym made) h
step-IsWellNumbered {s} {t} (appended name e next made) h =
    subst (λ x. IsWellNumbered x) (sym made) (append-IsWellNumbered s name e next h)

reachable-IsWellNumbered : {s t : State} → IsReachable s t → IsWellNumbered s → IsWellNumbered t
reachable-IsWellNumbered here h = h
reachable-IsWellNumbered (there p step) h = step-IsWellNumbered step (reachable-IsWellNumbered p h)

module _ (host : JsonHost) where
  -- If the events of every stream have the revisions 1, 2, 3 and so on, then after any calls those
  -- of a stream have them too, and its head is their number.
  pub exec_all-IsWellNumbered :
      (s : State) (calls : List (Call host)) (name : String)
      → IsWellNumbered s
      → let now = exec_all host s calls in
        IsNumbered 0 (events_of now name)
        × (stream_head_from now name ≡ length (events_of now name))
  unfolding stream_head_from
  exec_all-IsWellNumbered s calls name h =
      let numbered = reachable-IsWellNumbered (exec_all-IsReachable host s calls) h name in
      (numbered, head_of-eq-length _ numbered)

  -- If the events of every stream have the revisions 1, 2, 3 and so on, a reader who asks for the
  -- events after the head it once read gets, whatever calls came between, each event appended
  -- since, once and in order.
  pub poll_lem :
      (s : State) (calls : List (Call host)) (name : String)
      → IsWellNumbered s
      → let now = events_of (exec_all host s calls) name in
        now ≡ events_of s name ++ events_after (stream_head_from s name) now
  unfolding stream_head_from
  poll_lem s calls name h =
      let (more, e) = (exec_all-IsLater host s calls).streams name in
      let numbered = (exec_all-IsWellNumbered s calls name h).0 in
      let new =
        events_after-append 0 (head_of (events_of s name)) (events_of s name) more
          (omega (arith, head_of-eq-length (events_of s name) (h name)))
          (subst (λ es. IsNumbered 0 es) e numbered) in
      e
      ∙ ap (λ es. events_of s name ++ es)
          (sym (ap (λ es. events_after (head_of (events_of s name)) es) e ∙ new))
