-- ===== src/Graph/Diff/Replay/Latest.antt =====
-- The replay of src/graph/diff.js gives each record as the last event that touches it left it.
use lagrange_images.Base.{
  ℕ, String, ◌≤◌, ◌<◌, ◌≡◌, refl, sym, ap, ◌∙◌, Option, none, some, List, [], ◌∷◌, if◌then◌else◌,
  str_eq, eq_iff, ltb, leb, ltb→lt, arith, Bool-cases, Option-cases, inl, inr,
}
use lagrange_images.Base.Dict.{Dict, get, get-put, get-remove}
use lagrange_images.Base.Json.{Json, property}
use lagrange_images.Base.TextOrder.{text_leb_refl}
use lagrange_images.Graph.Diff.Replay.{
  Change, stored, relocated, swept, other_change, HistoryEvent, revision_of, name_of, remove_named,
  put_named, apply_change, replay_from, insert_entry, sort_entries, replay,
}

-- What becomes of the record of an identity: nothing, if it is not the one named.
abbrev pub touch_named : Option String → Option Json → String → Option (Option Json)
touch_named none r k = none
touch_named (some j) r k = if str_eq j k then some r else none

abbrev pub touch_removed : Option String → String → Option (Option Json)
touch_removed none k = none
touch_removed (some j) k = if str_eq j "" then none else if str_eq j k then some none else none

-- What a change makes of the record: stored, removed (`some none`), or left alone.
abbrev pub touch : Change → String → Option (Option Json)
touch (stored r) k = touch_named (name_of (property "id" r)) (some r) k
touch (relocated object_id record_id) k = elim (touch_removed record_id k) [
  | some r ↦ some r
  | none ↦ touch_removed object_id k
]
touch (swept record_id) k = touch_removed record_id k
touch other_change k = none

abbrev resolve : Option (Option Json) → Option Json → Option Json
resolve none r = r
resolve (some r') r = r'

get-remove_named :
    (n : Option String) (k : String) (m : Dict Json)
    → get k (remove_named n m) ≡ resolve (touch_removed n k) (get k m)
unfolding remove_named
get-remove_named none k m = refl
get-remove_named (some j) k m = ground (arith, get-remove j k m)

get-put_named :
    (n : Option String) (r : Json) (k : String) (m : Dict Json)
    → get k (put_named n r m) ≡ resolve (touch_named n (some r) k) (get k m)
unfolding put_named
get-put_named none r k m = refl
get-put_named (some j) r k m = ground (arith, get-put j k r m)

get-apply_change :
    (c : Change) (k : String) (m : Dict Json)
    → get k (apply_change c m) ≡ resolve (touch c k) (get k m)
unfolding apply_change
get-apply_change (stored r) k m = get-put_named (name_of (property "id" r)) r k m
get-apply_change (relocated o r) k m = elim (Option-cases (touch_removed r k)) [
  | inl e ↦
      get-remove_named r k (remove_named o m)
      ∙ ap (λ t. resolve t (get k (remove_named o m))) e
      ∙ get-remove_named o k m
      ∙ ap (λ t. resolve (elim t [ some r ↦ some r | none ↦ touch_removed o k ]) (get k m)) (sym e)
  | inr (t, e) ↦
      get-remove_named r k (remove_named o m)
      ∙ ap (λ t. resolve t (get k (remove_named o m))) e
      ∙ ap (λ t. resolve (elim t [ some r ↦ some r | none ↦ touch_removed o k ]) (get k m)) (sym e)
]
get-apply_change (swept r) k m = get-remove_named r k m
get-apply_change other_change k m = refl

-- The last change that touches an identity, among the events up to a frontier wherever they stand.
unfoldable pub latest : List HistoryEvent → ℕ → String → Option (Option Json)
latest [] frontier k = none
latest (e ∷ es) frontier k = elim (latest es frontier k) [
  | some r ↦ some r
  | none ↦ if leb (revision_of e) frontier then touch e.change k else none
]

-- The revisions do not go down.
abbrev pub IsOrderedFrom : ℕ → List HistoryEvent → Type 0
IsOrderedFrom n [] = Unit
IsOrderedFrom n (e ∷ es) = (n ≤ revision_of e) × IsOrderedFrom (revision_of e) es

latest_beyond :
    (n frontier : ℕ) (es : List HistoryEvent) (k : String)
    → frontier < n
    → IsOrderedFrom n es
    → latest es frontier k ≡ none
unfolding latest
latest_beyond n frontier [] k lt o = refl
latest_beyond n frontier (e ∷ es) k lt o =
    ground (arith, latest_beyond (revision_of e) frontier es k, o.0)

get-replay_from :
    (n frontier : ℕ) (es : List HistoryEvent) (m : Dict Json) (k : String)
    → IsOrderedFrom n es
    → get k (replay_from m es frontier) ≡ resolve (latest es frontier k) (get k m)
unfolding replay_from latest
get-replay_from n frontier [] m k o = refl
get-replay_from n frontier (e ∷ es) m k o = elim (Bool-cases (ltb frontier (revision_of e))) [
  | inl beyond ↦ ground (
    arith,
    beyond,
    latest_beyond (revision_of e) frontier es k (ltb→lt frontier (revision_of e) beyond) o.1,
  )
  | inr within ↦ ground (
    arith,
    within,
    get-replay_from (revision_of e) frontier es (apply_change e.change m) k o.1,
    get-apply_change e.change k m,
  )
]

get-insert_entry :
    (j k : String) (v : Json) (m : Dict Json)
    → get j (insert_entry k v m) ≡ (if str_eq k j then some v else get j m)
unfolding get insert_entry
get-insert_entry j k v [] = refl
get-insert_entry j k v ((i, w) ∷ m) =
    ground
      (arith, get-insert_entry j k v m, eq_iff k j, eq_iff i j, text_leb_refl k, text_leb_refl j)

get-sort_entries : (k : String) (m : Dict Json) → get k (sort_entries m) ≡ get k m
unfolding get sort_entries
get-sort_entries k [] = refl
get-sort_entries k ((j, v) ∷ m) =
    get-insert_entry k j v (sort_entries m)
    ∙ ap (λ o. if str_eq j k then some v else o) (get-sort_entries k m)

-- In a history whose revisions do not go down, the replay to a frontier holds of each identity the
-- record that the last event up to the frontier that touches the identity stored, and none if that
-- event removed it or there is no such event.
pub get-replay :
    (events : List HistoryEvent) (frontier : ℕ) (k : String)
    → IsOrderedFrom 0 events
    → get k (replay events frontier) ≡ elim (latest events frontier k) [ none ↦ none | some r ↦ r ]
unfolding replay get
get-replay events frontier k o =
    get-sort_entries k (replay_from [] events frontier)
    ∙ get-replay_from 0 frontier events [] k o
    ∙ elim (Option-cases (latest events frontier k)) [ inl e ↦ rw e refl | inr (r, e) ↦ rw e refl ]
