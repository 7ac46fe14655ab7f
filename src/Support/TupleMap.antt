-- ===== src/Support/TupleMap.antt =====
-- src/support/tuple-map.js: a map keyed by a tuple of texts, one level of `Map` for each part.
-- The proofs are in the modules below.
pub mod Laws
pub mod Sizes
pub mod Entries
mod Tests
use lagrange_images.Base.{
  ℕ, zero, suc, ◌+◌, ◌-◌, ◌<◌, String, ◌≡◌, Bool, true, false, Option, none, some, List, [], ◌∷◌,
  ◌++◌, map, length, All, or_else, is_some, str_eq, ◌&&◌, if◌then◌else◌,
}
use lagrange_images.Base.Dict
use lagrange_images.Base.Dict.{Dict, get, put, remove}

-- A key of a map of arity `n + 1`: its parts, the outermost level's first.
abbrev pub Key : ℕ → Type 0
Key zero = String
Key (suc n) = String × Key n

-- `#assertParts`: exactly `arity` parts. `none` is the TypeError.
unfoldable pub assert_parts : (n : ℕ) → List String → Option (Key n)
assert_parts n [] = none
assert_parts zero (p ∷ []) = some p
assert_parts zero (p ∷ q ∷ r) = none
assert_parts (suc n) (p ∷ ps) = elim (assert_parts n ps) [ none ↦ none | some k ↦ some (p, k) ]

-- The nested maps of `#root`: a leaf level holds values, every other one holds levels.
abbrev pub Level {ℓ} : ℕ → Type ℓ → Type ℓ
Level zero V = Dict V
Level (suc n) V = Dict (Level n V)

module _ {ℓ} (V : Type ℓ) where
  abbrev pub no_entries : (n : ℕ) → Level n V
  no_entries zero = []
  no_entries (suc n) = []

  -- `level.size`, the number of keys of one `Map`.
  abbrev pub level_size : (n : ℕ) → Level n V → ℕ
  level_size zero m = length m
  level_size (suc n) m = length m

  -- `#resolve` with `create`, and the `set` on the leaf that it answers.
  unfoldable pub level_set : (n : ℕ) → Key n → V → Level n V → Level n V
  level_set zero p v m = put p v m
  level_set (suc n) (p, k) v m = put p (level_set n k v (or_else (get p m) (no_entries n))) m

  -- `#resolve` without `create`, and the `get` on the leaf.
  unfoldable pub level_get : (n : ℕ) → Key n → Level n V → Option V
  level_get zero p m = get p m
  level_get (suc n) (p, k) m = elim (get p m) [ none ↦ none | some next ↦ level_get n k next ]

  -- On the way back from the leaf: a level that the deletion emptied is taken out of its parent.
  unfoldable pub prune : (n : ℕ) → String → Level n V → Dict (Level n V) → Dict (Level n V)
  prune n p next m = elim (level_size n next) [ zero ↦ remove p m | suc s ↦ put p next m ]

  -- The walk of `delete`. `none`: the key is not there, and nothing changes.
  unfoldable pub level_delete : (n : ℕ) → Key n → Level n V → Option (Level n V)
  level_delete zero p m = elim (get p m) [ none ↦ none | some v ↦ some (remove p m) ]
  level_delete (suc n) (p, k) m = elim (get p m) [
    | none ↦ none
    | some next ↦ elim (level_delete n k next) [
      | none ↦ none
      | some next' ↦ some (prune n p next' m)
    ]
  ]

  -- `walk` for one level: the entries of each sublevel in turn, its part put in front.
  unfoldable pub prefixed : (n : ℕ) → String → List (Key n × V) → List (Key (suc n) × V)
  prefixed n p [] = []
  prefixed n p ((k, v) ∷ es) = ((p, k), v) ∷ prefixed n p es

  unfoldable pub walk_with :
      (n : ℕ) → (Level n V → List (Key n × V)) → Dict (Level n V) → List (Key (suc n) × V)
  walk_with n walk [] = []
  walk_with n walk ((p, next) ∷ m) = prefixed n p (walk next) ++ walk_with n walk m

  unfoldable pub entries : (n : ℕ) → Level n V → List (Key n × V)
  entries zero m = m
  entries (suc n) m = walk_with n (entries n) m

pub record TupleMap {ℓ} (n : ℕ) (V : Type ℓ) : Type ℓ where
  pub root : Level n V
  pub size : ℕ

module _ {ℓ} (V : Type ℓ) (n : ℕ) where
  -- `new TupleMap(n + 1)`, and `clear`.
  abbrev pub empty : TupleMap n V
  empty = record { root = no_entries V n; size = 0 }

  unfoldable pub lookup : Key n → TupleMap n V → Option V
  lookup k t = level_get V n k t.root

  unfoldable pub contains : Key n → TupleMap n V → Bool
  contains k t = is_some (level_get V n k t.root)

  unfoldable pub set : Key n → V → TupleMap n V → TupleMap n V
  set k v t = record {
    root = level_set V n k v t.root;
    size = if is_some (level_get V n k t.root) then t.size else t.size + 1;
  }

  unfoldable pub delete : Key n → TupleMap n V → TupleMap n V × Bool
  delete k t = elim (level_delete V n k t.root) [
    | none ↦ (t, false)
    | some root' ↦ (record { root = root'; size = t.size - 1 }, true)
  ]

-- Two keys agree in every part.
unfoldable pub key_eq : (n : ℕ) → Key n → Key n → Bool
key_eq zero p q = str_eq p q
key_eq (suc n) (p, k) (q, l) = str_eq p q && key_eq n k l
