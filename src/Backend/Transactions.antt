-- ===== src/Backend/Transactions.antt =====
-- Transactions of src/backend/mock-backend.js: work on a draft of the state, which is kept if the work
-- returns, and the view that refuses calls when its transaction is over.
use lagrange_images.Base.{ℕ, String, Bool, true, false, Option, List, [], ◌∷◌}
use lagrange_images.Base.Dict.{Dict}
use lagrange_images.Base.Result.{Result, ok, err}
use lagrange_images.Backend.{
  JsonHost, State, Bucket, Event, Failure, inactive, Input, get_from, put_into, append_to,
  read_stream_from, stream_head_from,
}

-- `active()` and then the call.
abbrev pub when_active : {A : Type 0} → Bool → A → Result Failure A
when_active active a = elim active [ true ↦ ok a | false ↦ err inactive ]

abbrev pub update_when_active :
    {A : Type 0} → Bool → State → State × Result Failure A → State × Result Failure A
update_when_active active s update = elim active [ true ↦ update | false ↦ (s, err inactive) ]

-- `copyCollections` and `copyStreams`: a new map with a new bucket, or a new list, at every name.
unfoldable pub copy_list {ℓ} : {A : Type ℓ} → List A → List A
copy_list [] = []
copy_list (x ∷ xs) = x ∷ copy_list xs

unfoldable pub copy_collections : Dict Bucket → Dict Bucket
copy_collections [] = []
copy_collections ((name, bucket) ∷ collections) =
    (name, copy_list bucket) ∷ copy_collections collections

unfoldable pub copy_streams : Dict (List Event) → Dict (List Event)
copy_streams [] = []
copy_streams ((name, events) ∷ streams) = (name, copy_list events) ∷ copy_streams streams

unfoldable pub draft_of : State → State
draft_of s = record {
  collections = copy_collections s.collections;
  streams = copy_streams s.streams;
}

-- The draft is kept if the work returns.
unfoldable pub settle : {A : Type 0} → State → State × Result Failure A → State × Result Failure A
settle s (draft, ok a) = (draft, ok a)
settle s (draft, err e) = (s, err e)

module _ (host : JsonHost) where
  -- The work of a transaction: what it does next depends on what the calls before it gave, errors
  -- included, which it may catch.
  pub data Work (A : Type 0) : Type 0 where
    give : A → Work A
    throw : Failure → Work A
    read : String → String → (Result Failure (Option (Dict host.Value)) → Work A) → Work A
    write :
        String
        → String
        → Input host
        → Option ℕ
        → (Result Failure (Dict host.Value) → Work A)
        → Work A
    add : String → Input host → (Result Failure (Dict host.Value) → Work A) → Work A
    read_stream : String → ℕ → (Result Failure (List (Dict host.Value)) → Work A) → Work A
    stream_head : String → (Result Failure ℕ → Work A) → Work A

  -- The work on the view of a state, which is active or over.
  unfoldable pub run : {A : Type 0} → Bool → State → Work A → State × Result Failure A
  run active s (give a) = (s, ok a)
  run active s (throw e) = (s, err e)
  run active s (read c k next) = run active s (next (when_active active (get_from host s c k)))
  run active s (write c k value expected next) =
      let after = update_when_active active s (put_into host s c k value expected) in
      run active after.0 (next after.1)
  run active s (add name event next) =
      let after = update_when_active active s (append_to host s name event) in
      run active after.0 (next after.1)
  run active s (read_stream name n next) =
      run active s (next (when_active active (read_stream_from host s name n)))
  run active s (stream_head name next) =
      run active s (next (when_active active (stream_head_from s name)))

  unfoldable pub transaction : {A : Type 0} → State → Work A → State × Result Failure A
  transaction s work = settle s (run true (draft_of s) work)

  -- The calls that change the state. `exclusive` runs them one after the other, whether or not the
  -- one before failed.
  pub data Call : Type 1 where
    put_call : String → String → Input host → Option ℕ → Call
    append_call : String → Input host → Call
    transaction_call : (A : Type 0) → Work A → Call
    -- Work that goes on with a view after its transaction is over.
    late_call : (A : Type 0) → Work A → Call

  unfoldable pub exec : State → Call → State
  exec s (put_call c k value expected) = (put_into host s c k value expected).0
  exec s (append_call name event) = (append_to host s name event).0
  exec s (transaction_call A work) = (transaction s work).0
  exec s (late_call A work) = (run false s work).0

  unfoldable pub exec_all : State → List Call → State
  exec_all s [] = s
  exec_all s (call ∷ calls) = exec_all (exec s call) calls
