-- ===== src/Graph/Queries.antt =====
-- src/graph/reachability.js: the references from and to a record, direct or along any number of steps.
pub mod Inverse
pub mod Transitive
mod Tests
use lagrange_images.Base.{
  ℕ, String, suc, Bool, true, false, Option, none, some, or_else, List, [], ◌∷◌, if◌then◌else◌,
  str_eq, length,
}
use lagrange_images.Base.Dict.{Dict, get}
use lagrange_images.Base.Result.{Result, ok, err}
use lagrange_images.Graph.Reachability.{
  IndexError, bad_id, Index, dedupe_sorted, add_dependents, walk, iterate,
}
use lagrange_images.Graph.References.{own_list, missing, inherited, literal_at}

-- `incomingLocalSets.get(target).add(id)`, for every local target of every record.
unfoldable pub incoming_entries : Dict (List String) → Dict (List String) → Dict (List String)
incoming_entries [] sets = sets
incoming_entries ((id, targets) ∷ outgoing) sets =
    incoming_entries outgoing (add_dependents id targets sets)

-- `incomingLocalIdsById`, which has a list for every record.
unfoldable pub incoming_lists : Dict (List String) → List String → Dict (List String)
incoming_lists sets [] = []
incoming_lists sets (id ∷ ids) =
    (id, dedupe_sorted (or_else (get id sets) [])) ∷ incoming_lists sets ids

unfoldable pub incoming_local_ids : Index → Dict (List String)
incoming_local_ids index =
    incoming_lists (incoming_entries index.outgoing_local_ids []) index.record_ids

-- What a search answers: a list, or what an object literal inherits under the name.
pub data Answer : Type 0 where
  listed : List String → Answer
  inherited_member : String → Answer

-- `literal[id] ?? []`
unfoldable pub read_direct : Dict (List String) → String → Answer
read_direct d id = elim (literal_at id d) [
  | own_list ids ↦ listed ids
  | missing ↦ listed []
  | inherited name ↦ inherited_member name
]

-- `getNeighbors(current) ?? []`, as a loop reads it.
unfoldable pub neighbors : Dict (List String) → String → Result IndexError (List String)
neighbors d id = iterate (literal_at id d)

-- `traverseAdjacency`, with fuel.
unfoldable pub traverse_adjacency :
    ℕ → (String → Result IndexError (List String)) → List String → Result IndexError (List String)
traverse_adjacency n next starts = elim (walk n next starts []) [
  | err e ↦ err e
  | ok seen ↦ ok (dedupe_sorted seen)
]

unfoldable pub find_references :
    Index → Dict (List String) → String → Bool → Result IndexError Answer
find_references index d id transitive = if str_eq id "" then err bad_id else elim transitive [
  | false ↦ ok (read_direct d id)
  | true ↦ elim (traverse_adjacency (suc (length index.record_ids)) (neighbors d) (id ∷ [])) [
    | err e ↦ err e
    | ok ids ↦ ok (listed ids)
  ]
]

unfoldable pub find_outgoing_references : Index → String → Bool → Result IndexError Answer
find_outgoing_references index id transitive =
    find_references index index.outgoing_local_ids id transitive

unfoldable pub find_incoming_references : Index → String → Bool → Result IndexError Answer
find_incoming_references index id transitive =
    find_references index (incoming_local_ids index) id transitive
