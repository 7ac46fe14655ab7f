-- ===== src/Graph/Rounds.antt =====
-- Loops of src/graph over sorted keys, each round of which lists at most one entry.
use lagrange_images.Base.{
  String, ◌≡◌, refl, sym, Bool, true, false, ◌||◌, Option, none, some, List, [], ◌∷◌, ◌++◌,
  if◌then◌else◌, str_eq, eq_iff, arith, length, ◌==◌, Option-cases, inl, inr,
}
use lagrange_images.Base.Dict.{Dict, get}
use lagrange_images.Base.TextOrder.{member}

-- An entry before a dictionary, if there is one.
abbrev pub before {ℓ} : {A : Type ℓ} → String → Option A → String → Option A → Option A
before id none k rest = rest
before id (some a) k rest = if str_eq id k then some a else rest

-- The entry of the identity itself is what any later round would list again.
pub before_member {ℓ} :
    {A : Type ℓ} (f : String → Option A) (id k : String) (ids : Bool)
    → before id (f id) k (if ids then f k else none) ≡ (if str_eq id k || ids then f k else none)
before_member f id k true = elim (Option-cases (f id)) [
  | inl e ↦ ground (arith, eq_iff id k, e)
  | inr (a, e) ↦ ground (arith, eq_iff id k, e)
]
before_member f id k false = elim (Option-cases (f id)) [
  | inl e ↦ ground (arith, eq_iff id k, e)
  | inr (a, e) ↦ ground (arith, eq_iff id k, e)
]

pub member-append :
    (k : String) (xs ys : List String) → member k (xs ++ ys) ≡ (member k xs || member k ys)
unfolding member
member-append k [] ys = refl
member-append k (x ∷ xs) ys = ground (arith, member-append k xs ys)

pub listed {ℓ} :
    {A : Type ℓ} {ids : Bool} (b : Bool) (r : Option A)
    → ids ≡ b
    → (b ≡ false → r ≡ none)
    → (if ids then r else none) ≡ r
listed true r e h = rw e refl
listed false r e h = rw e (sym (h refl))

pub no_entries {ℓ} : {A : Type ℓ} (m : Dict A) → ((k : String) → get k m ≡ none) → m ≡ []
unfolding get
no_entries [] h = refl
no_entries ((k, a) ∷ m) h = absurd (ground (arith, h k, eq_iff k k))

pub no_length {ℓ} : {A : Type ℓ} (m : List A) → (length m == 0) ≡ true → m ≡ []
no_length [] h = refl
no_length (x ∷ m) h = absurd (ground (arith, h))
