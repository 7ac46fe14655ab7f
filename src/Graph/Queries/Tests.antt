-- ===== src/Graph/Queries/Tests.antt =====
-- The searches of src/graph/reachability.js among three objects in a row.
use lagrange_images.Base.{String, ◌≡◌, ◌↔◌, refl, true, false, some, List, [], ◌∷◌}
use lagrange_images.Base.Dict.{get, put}
use lagrange_images.Base.Json.{end}
use lagrange_images.Base.TextOrder.{
  member, sort_texts, insert_text, text_leb, units_leb, code_units,
}
use lagrange_images.Base.Result.{ok, err}
use lagrange_images.Graph.References.{Ref, is_inherited_name, literal_at}
use lagrange_images.Graph.Reachability.{
  Node, Index, index_of, build_image_graph_index, checked_index, names_prototype, index_nodes,
  index_node, live_records, is_tombstone_kind, is_durable_kind, dependent_entries, ids_of,
  outgoing_entries, iterate, walk, not_iterable,
}
use lagrange_images.Graph.Queries.{
  listed, inherited_member, find_incoming_references, find_outgoing_references, find_references,
  read_direct, neighbors, traverse_adjacency,
}
use lagrange_images.Graph.Queries.Transitive.{is_readable, find_references_inverse}

abbrev object_with : String → List Ref → Node
object_with id references = record {
  id = id;
  kind = "object";
  image_id = some "i";
  references = references;
  derived_from = [];
  content = end;
}

abbrev a_row : List Node
a_row =
    object_with "a" (record { kind = "ref"; image_id = "i"; object_id = "b" } ∷ [])
    ∷ object_with "b" (record { kind = "ref"; image_id = "i"; object_id = "c" } ∷ [])
    ∷ object_with "c" []
    ∷ []

abbrev row_index : Index
row_index = index_of (some "i") (
    ("a", object_with "a" (record { kind = "ref"; image_id = "i"; object_id = "b" } ∷ []))
    ∷ ("b", object_with "b" (record { kind = "ref"; image_id = "i"; object_id = "c" } ∷ []))
    ∷ ("c", object_with "c" [])
    ∷ [])

row_is_built : build_image_graph_index a_row (some "i") ≡ ok row_index
unfolding build_image_graph_index checked_index names_prototype index_nodes index_node live_records
    is_tombstone_kind is_durable_kind get put index_of dependent_entries ids_of sort_texts
    insert_text text_leb units_leb code_units
row_is_built = refl

a_is_readable : is_readable row_index "a" ≡ true
unfolding get index_of is_inherited_name member
a_is_readable = refl

c_is_readable : is_readable row_index "c" ≡ true
unfolding get index_of is_inherited_name member
c_is_readable = refl

find_references_inverse_example :
    (froms tos : List String) × (find_incoming_references row_index "c" true ≡ ok (listed froms))
    × (find_outgoing_references row_index "a" true ≡ ok (listed tos))
    × ((member "a" froms ≡ true) ↔ (member "c" tos ≡ true))
find_references_inverse_example =
    find_references_inverse a_row (some "i") row_index row_is_built "a" "c" true refl refl
      a_is_readable c_is_readable

-- A name that an object literal inherits answers no list, and stops a transitive search.
inherited_is_no_list :
    (find_outgoing_references row_index "constructor" false ≡ ok (inherited_member "constructor"))
    × (find_outgoing_references row_index "constructor" true ≡ err not_iterable)
unfolding find_outgoing_references find_references read_direct neighbors traverse_adjacency walk
    iterate literal_at is_inherited_name index_of outgoing_entries member get ids_of sort_texts
    insert_text text_leb units_leb code_units
inherited_is_no_list = (refl, refl)
