-- ===== src/Backend/Drafts.antt =====
-- Drafts of src/backend/mock-backend.js, and views that are used when their transaction is over.
use lagrange_images.Base.{◌≡◌, refl, ap, false, List, [], ◌∷◌}
use lagrange_images.Base.Dict.{Dict}
use lagrange_images.Base.Result.{err}
use lagrange_images.Backend.{JsonHost, State, Bucket, Event, inactive}
use lagrange_images.Backend.Transactions.{
  Work, give, throw, read, write, add, read_stream, stream_head, run, copy_list, copy_collections,
  copy_streams, draft_of,
}

copy_list_lem {ℓ} : {A : Type ℓ} (xs : List A) → copy_list xs ≡ xs
unfolding copy_list
copy_list_lem [] = refl
copy_list_lem (x ∷ xs) = ap (λ ys. x ∷ ys) (copy_list_lem xs)

copy_collections_lem : (collections : Dict Bucket) → copy_collections collections ≡ collections
unfolding copy_collections
copy_collections_lem [] = refl
copy_collections_lem ((name, bucket) ∷ collections) =
    rw (copy_list_lem bucket, copy_collections_lem collections, copy_collections) refl

copy_streams_lem : (streams : Dict (List Event)) → copy_streams streams ≡ streams
unfolding copy_streams
copy_streams_lem [] = refl
copy_streams_lem ((name, events) ∷ streams) =
    rw (copy_list_lem events, copy_streams_lem streams, copy_streams) refl

-- A draft begins with what the state holds.
pub draft_of_lem : (s : State) → draft_of s ≡ s
unfolding draft_of
draft_of_lem s = rw (copy_collections_lem s.collections, copy_streams_lem s.streams, draft_of) refl

module _ (host : JsonHost) where
  -- Work with a view whose transaction is over changes nothing, and learns nothing: whatever it does,
  -- the state stays as it is, and its result is the same in any other state.
  pub late_view_is_dead :
      {A : Type 0} (s other : State) (w : Work host A)
      → ((run host false s w).0 ≡ s) × ((run host false s w).1 ≡ (run host false other w).1)
  unfolding run
  late_view_is_dead s other (give a) = (refl, refl)
  late_view_is_dead s other (throw e) = (refl, refl)
  late_view_is_dead s other (read c k next) = late_view_is_dead s other (next (err inactive))
  late_view_is_dead s other (write c k value expected next) =
      late_view_is_dead s other (next (err inactive))
  late_view_is_dead s other (add name event next) = late_view_is_dead s other (next (err inactive))
  late_view_is_dead s other (read_stream name n next) =
      late_view_is_dead s other (next (err inactive))
  late_view_is_dead s other (stream_head name next) =
      late_view_is_dead s other (next (err inactive))
