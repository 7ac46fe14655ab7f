-- ===== src/Backend/Tests.antt =====
-- Runs of the backend of src/backend/mock-backend.js, with a host whose JSON holds one text.
use lagrange_images.Base.{
  ℕ, String, ◌≡◌, refl, false, Option, none, some, List, [], ◌∷◌, ◌++◌, length, Bool-cases, inl,
  inr, str_eq,
}
use lagrange_images.Base.Dict.{Dict, get, put, remove}
use lagrange_images.Backend.{
  JsonHost, State, thrown, Input, properties, stored_at, version_at, events_of, events_after,
  stream_head_from, put_into, encode_record, store_text, is_stale, append_to, append_text,
}
use lagrange_images.Backend.History.{IsLater, exec_all-IsLater, put_into_at_version_read}
use lagrange_images.Backend.Streams.{IsWellNumbered, IsNumbered, exec_all-IsWellNumbered, poll_lem}
use lagrange_images.Backend.{no_state}
use lagrange_images.Backend.Drafts.{late_view_is_dead}
use lagrange_images.Backend.Transactions.{
  Work, give, throw, write, add, run, settle, draft_of, copy_collections, copy_streams, copy_list,
  transaction, Call, append_call, transaction_call, late_call, exec, exec_all,
}

-- Every record holds one text under "text", and its JSON is that text.
data Leaf : Type 0 where
  number : ℕ → Leaf
  words : String → Leaf

abbrev text_of : Dict Leaf → Option String
text_of [] = none
text_of ((k, words w) ∷ _) = some w
text_of ((k, number n) ∷ _) = none

abbrev one_text_host : JsonHost
one_text_host = record {
  Value = Leaf;
  number = number;
  stringify = text_of;
  parse = λ w. ("text", words w) ∷ [];
}

abbrev note : String → Input one_text_host
note w = properties (("text", words w) ∷ [])

abbrev stored_twice : State
stored_twice = record {
  collections = ("notes", ("a", record { version = 2; text = "first" }) ∷ []) ∷ ("empty", []) ∷ [];
  streams = ("log", record { revision = 1; text = "e1" } ∷ []) ∷ [];
}

-- It writes and appends, and then throws.
abbrev failing_work : Work one_text_host ℕ
failing_work =
    write "notes" "a" (note "draft") none
      λ _. add "log" (note "e-lost") (λ _. throw (thrown "stop"))

abbrev working_work : Work one_text_host ℕ
working_work = add "log" (note "e2") (λ _. give 7)

abbrev some_calls : List (Call one_text_host)
some_calls =
    append_call "log" (note "e2")
    ∷ transaction_call ℕ failing_work
    ∷ transaction_call ℕ working_work
    ∷ late_call ℕ working_work
    ∷ []

stored_twice-IsWellNumbered : IsWellNumbered stored_twice
unfolding get
stored_twice-IsWellNumbered name = elim (Bool-cases (str_eq "log" name)) [
  | inl h ↦ rw h (refl, tt)
  | inr h ↦ rw h tt
]

exec_all-IsLater_example : IsLater stored_twice (exec_all one_text_host stored_twice some_calls)
exec_all-IsLater_example = exec_all-IsLater one_text_host stored_twice some_calls

put_into_at_version_read_example :
    (stored_at (exec_all one_text_host stored_twice some_calls) "notes" "a"
      ≡ stored_at stored_twice "notes" "a")
    × (version_at
          (put_into one_text_host
            (exec_all one_text_host stored_twice some_calls)
            "notes"
            "a"
            (note "second")
            (some 2)).0
          "notes"
          "a"
        ≡ 3)
unfolding exec_all exec append_to append_text encode_record transaction draft_of copy_collections
    copy_streams copy_list run settle put_into store_text is_stale stored_at get put remove
put_into_at_version_read_example =
    put_into_at_version_read one_text_host stored_twice some_calls "notes" "a" (note "second") refl

exec_all-IsWellNumbered_example :
    IsNumbered 0 (events_of (exec_all one_text_host stored_twice some_calls) "log")
    × (stream_head_from (exec_all one_text_host stored_twice some_calls) "log"
        ≡ length (events_of (exec_all one_text_host stored_twice some_calls) "log"))
exec_all-IsWellNumbered_example =
    exec_all-IsWellNumbered one_text_host stored_twice some_calls "log" stored_twice-IsWellNumbered

poll_lem_example :
    events_of (exec_all one_text_host stored_twice some_calls) "log"
    ≡ events_of stored_twice "log"
      ++ events_after
          (stream_head_from stored_twice "log")
          (events_of (exec_all one_text_host stored_twice some_calls) "log")
poll_lem_example = poll_lem one_text_host stored_twice some_calls "log" stored_twice-IsWellNumbered

late_view_is_dead_example :
    ((run one_text_host false stored_twice working_work).0 ≡ stored_twice)
    × ((run one_text_host false stored_twice working_work).1
        ≡ (run one_text_host false no_state working_work).1)
late_view_is_dead_example = late_view_is_dead one_text_host stored_twice no_state working_work
