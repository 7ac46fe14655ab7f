-- ===== src/Support/TupleMap/Tests.antt =====
-- Runs of tuple maps, and the theorems at concrete maps.
use lagrange_images.Base.{◌≡◌, refl, none, [], ◌∷◌, ℕ, length}
use lagrange_images.Support.TupleMap.{
  Key, TupleMap, empty, set, delete, lookup, contains, entries, level_set, level_get, level_delete,
  key_eq, assert_parts,
}
use lagrange_images.Base.Dict.{get, put}
use lagrange_images.Support.TupleMap.Sizes.{IsValid, set-IsValid, empty-IsValid}
use lagrange_images.Support.TupleMap.Entries.{find, entries_lem}

abbrev a_1 : Key 1
a_1 = ("a", "1")

abbrev b_1 : Key 1
b_1 = ("b", "1")

abbrev two_keys : TupleMap 1 ℕ
two_keys = set ℕ 1 b_1 8 (set ℕ 1 a_1 7 (empty ℕ 1))

two_keys-IsValid : IsValid ℕ 1 two_keys
two_keys-IsValid =
    set-IsValid ℕ 1 b_1 8 (set ℕ 1 a_1 7 (empty ℕ 1))
      (set-IsValid ℕ 1 a_1 7 (empty ℕ 1) (empty-IsValid ℕ 1))

-- Joined by any separator these two keys could meet.
no_collision : lookup ℕ 1 ("a", "b/c") (set ℕ 1 ("a/b", "c") 1 (empty ℕ 1)) ≡ none
unfolding lookup set level_set level_get get put
no_collision = refl

wrong_arity : assert_parts 1 ("a" ∷ []) ≡ none
unfolding assert_parts
wrong_arity = refl

grouped :
    entries ℕ 1 (set ℕ 1 ("a", "2") 3 two_keys).root
    ≡ (("a", "1"), 7) ∷ (("a", "2"), 3) ∷ (("b", "1"), 8) ∷ []
unfolding entries set level_set get put lagrange_images.Support.TupleMap.walk_with
    lagrange_images.Support.TupleMap.prefixed
grouped = refl

entries_lem_example :
    (find ℕ 1 a_1 (entries ℕ 1 two_keys.root) ≡ lookup ℕ 1 a_1 two_keys)
    × (length (entries ℕ 1 two_keys.root) ≡ two_keys.size)
entries_lem_example = entries_lem ℕ 1 a_1 two_keys two_keys-IsValid
