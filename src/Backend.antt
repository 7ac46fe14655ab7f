-- ===== src/Backend.antt =====
-- src/backend/mock-backend.js: the storage of records and events, kept as JSON text. The proofs are in
-- the modules below.
pub mod Records
pub mod Transactions
pub mod Steps
pub mod History
pub mod Streams
pub mod Drafts
mod Tests
use lagrange_images.Base.{
  ℕ, String, ◌+◌, Bool, true, false, not, Option, none, some, List, [], ◌∷◌, ◌++◌, map, length,
  ◌==◌, ltb, if◌then◌else◌, or_else,
}
use lagrange_images.Base.Dict.{Dict, get, put, remove}
use lagrange_images.Base.Result.{Result, ok, err}

-- JavaScript values and the host's `JSON`, which the backend calls. `stringify` gives nothing where
-- the host's gives `undefined`; the records are those that it does not refuse by throwing.
pub record JsonHost : Type 1 where
  pub Value : Type 0
  pub number : ℕ → Value
  pub stringify : Dict Value → Option String
  pub parse : String → Dict Value

-- A stored record, and a stored event.
pub record Stored : Type 0 where
  pub version : ℕ
  pub text : String

pub record Event : Type 0 where
  pub revision : ℕ
  pub text : String

abbrev pub Bucket : Type 0
Bucket = Dict Stored

pub record State : Type 0 where
  pub collections : Dict Bucket
  pub streams : Dict (List Event)

abbrev pub no_state : State
no_state = record { collections = []; streams = [] }

-- `VersionConflictError` and the two refusals of `encodeRecord`; `inactive` is that of a transaction
-- that is over, and `thrown` an error of the work in a transaction.
pub data Failure : Type 0 where
  not_record not_encodable inactive : Failure
  version_conflict : String → String → ℕ → ℕ → Failure
  thrown : String → Failure

-- `state.collections.get(collection) ?? nothing`
abbrev pub bucket_of : State → String → Bucket
bucket_of s c = or_else (get c s.collections) []

unfoldable pub stored_at : State → String → String → Option Stored
stored_at s c k = get k (bucket_of s c)

-- `current?.version ?? 0`
abbrev pub version_in : Option Stored → ℕ
version_in none = 0
version_in (some e) = e.version

abbrev pub version_at : State → String → String → ℕ
version_at s c k = version_in (stored_at s c k)

abbrev pub events_of : State → String → List Event
events_of s name = or_else (get name s.streams) []

-- `expectedVersion !== undefined && expectedVersion !== actualVersion`
unfoldable pub is_stale : Option ℕ → ℕ → Bool
is_stale none actual = false
is_stale (some expected) actual = not (expected == actual)

-- The text is written to the bucket, which is made when it is not there.
abbrev pub with_stored : State → String → String → Stored → State
with_stored s c k e = record s { collections = put c (put k e (bucket_of s c)) s.collections }

-- The bucket that `putInto` makes before it compares versions.
abbrev pub with_bucket : State → String → State
with_bucket s c = record s { collections = put c (bucket_of s c) s.collections }

unfoldable pub events_after : ℕ → List Event → List Event
events_after n [] = []
events_after n (e ∷ es) =
    let rest = events_after n es in if ltb n e.revision then e ∷ rest else rest

-- `events[events.length - 1].revision`, and 0 for no events.
unfoldable pub head_of : List Event → ℕ
head_of [] = 0
head_of (e ∷ []) = e.revision
head_of (e ∷ e' ∷ es) = head_of (e' ∷ es)

unfoldable pub stream_head_from : State → String → ℕ
stream_head_from s name = head_of (events_of s name)

module _ (host : JsonHost) where
  -- What a caller hands over to be stored: a record, or another value.
  pub data Input : Type 0 where
    other_value : Input
    properties : Dict host.Value → Input

  unfoldable pub encode_record : Input → String → Result Failure String
  encode_record other_value field = err not_record
  encode_record (properties value) field = elim (host.stringify (remove field value)) [
    | none ↦ err not_encodable
    | some text ↦ ok text
  ]

  unfoldable pub decode_record : Stored → Dict host.Value
  decode_record e = put "_version" (host.number e.version) (host.parse e.text)

  unfoldable pub decode_event : Event → Dict host.Value
  decode_event e = put "revision" (host.number e.revision) (host.parse e.text)

  unfoldable pub get_from : State → String → String → Option (Dict host.Value)
  get_from s c k = elim (stored_at s c k) [ none ↦ none | some e ↦ some (decode_record e) ]

  unfoldable pub store_text :
      State → String → String → String → Option ℕ → State × Result Failure (Dict host.Value)
  store_text s c k text expected =
      let actual = version_at s c k in
      let stored : Stored = record { version = actual + 1; text = text } in
      if is_stale expected actual
      then (with_bucket s c, err (version_conflict c k (or_else expected 0) actual))
      else (with_stored s c k stored, ok (decode_record stored))

  -- `putInto`
  unfoldable pub put_into :
      State → String → String → Input → Option ℕ → State × Result Failure (Dict host.Value)
  put_into s c k value expected = elim (encode_record value "_version") [
    | err e ↦ (s, err e)
    | ok text ↦ store_text s c k text expected
  ]

  unfoldable pub append_text : State → String → String → State × Result Failure (Dict host.Value)
  append_text s name text =
      let events = events_of s name in
      let stored : Event = record { revision = length events + 1; text = text } in
      (record s { streams = put name (events ++ stored ∷ []) s.streams }, ok (decode_event stored))

  -- `appendTo`
  unfoldable pub append_to : State → String → Input → State × Result Failure (Dict host.Value)
  append_to s name event = elim (encode_record event "revision") [
    | err e ↦ (s, err e)
    | ok text ↦ append_text s name text
  ]

  unfoldable pub read_stream_from : State → String → ℕ → List (Dict host.Value)
  read_stream_from s name after = map decode_event (events_after after (events_of s name))
