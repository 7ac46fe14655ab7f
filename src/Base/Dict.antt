-- ===== src/Base/Dict.antt =====
-- JavaScript's `Map` with text keys, as its entries in insertion order: `put` keeps the place of a
-- key that is there, and adds a new one at the end.
use Prim.Native.Nat.{ℕ, ◌+◌}
use Prim.Native.String.{String}
use mathlib.Core.Path.{◌≡◌, refl}
use mathlib.Core.Bool.{Bool}
use mathlib.Core.Option.{Option, none, some}
use mathlib.Core.List.{List, [], ◌∷◌}
use native.Mathlib.Omega.{arith}
use text.Mathlib.Text.{◌==◌}
use text.Mathlib.TextEquality.{eq_iff}
use text.Mathlib.TextPositions.{eq_refl}
use lagrange_images.Base.Tests.{if◌then◌else◌}
use lagrange_images.Base.Lists.{length, All}
use lagrange_images.Base.Options.{is_some}

abbrev pub Dict {ℓ} : Type ℓ → Type ℓ
Dict V = List (String × V)

module _ {ℓ} {V : Type ℓ} where
  unfoldable pub get : String → Dict V → Option V
  get k [] = none
  get k ((j, v) ∷ m) = if j == k then some v else get k m

  unfoldable pub put : String → V → Dict V → Dict V
  put k v [] = (k, v) ∷ []
  put k v ((j, w) ∷ m) = if j == k then (j, v) ∷ m else (j, w) ∷ put k v m

  unfoldable pub remove : String → Dict V → Dict V
  remove k [] = []
  remove k ((j, v) ∷ m) = let rest = remove k m in if j == k then rest else (j, v) ∷ rest

  abbrev pub has : String → Dict V → Bool
  has k m = is_some (get k m)

  -- No key stands twice.
  abbrev pub IsDistinct : Dict V → Type ℓ
  IsDistinct [] = Unit
  IsDistinct ((k, v) ∷ m) = (get k m ≡ none) × IsDistinct m

module _ {ℓ} {V : Type ℓ} where
  pub get-put :
      (k j : String) (v : V) (m : Dict V) → get j (put k v m) ≡ (if k == j then some v else get j m)
  unfolding get put
  get-put k j v [] = refl
  get-put k j v ((i, w) ∷ m) = ground (arith, eq_iff k j, eq_iff i k, eq_iff i j, get-put k j v m)

  pub get-remove :
      (k j : String) (m : Dict V) → get j (remove k m) ≡ (if k == j then none else get j m)
  unfolding get remove
  get-remove k j [] = ground arith
  get-remove k j ((i, v) ∷ m) = ground (arith, get-remove k j m, eq_iff i k, eq_iff i j, eq_iff k j)

module _ {ℓ} {V : Type ℓ} where
  pub get-put_self : (k : String) (v : V) (m : Dict V) → get k (put k v m) ≡ some v
  get-put_self k v m = rw (get-put, eq_refl)

  pub put-IsDistinct : (k : String) (v : V) (m : Dict V) → IsDistinct m → IsDistinct (put k v m)
  unfolding put get
  put-IsDistinct k v [] h = (refl, tt)
  put-IsDistinct k v ((i, w) ∷ m) h =
      ground (arith, put-IsDistinct k v m, get-put k i v m, eq_iff i k, eq_iff k i)

  pub remove-IsDistinct : (k : String) (m : Dict V) → IsDistinct m → IsDistinct (remove k m)
  unfolding remove
  remove-IsDistinct k [] h = tt
  remove-IsDistinct k ((i, w) ∷ m) h =
      ground (arith, remove-IsDistinct k m, get-remove k i m, eq_iff k i)

  pub remove_absent : (k : String) (m : Dict V) → get k m ≡ none → remove k m ≡ m
  unfolding get remove
  remove_absent k [] h = refl
  remove_absent k ((i, w) ∷ m) h = ground (arith, remove_absent k m)

  pub length-put :
      (k : String) (v : V) (m : Dict V)
      → length (put k v m) ≡ (if is_some (get k m) then length m else length m + 1)
  unfolding get put
  length-put k v [] = omega arith
  length-put k v ((i, w) ∷ m) = ground (arith, length-put k v m)

  pub length-remove :
      (k : String) (v : V) (m : Dict V)
      → IsDistinct m
      → get k m ≡ some v
      → length (remove k m) + 1 ≡ length m
  unfolding get remove
  length-remove k v [] d h = cc
  length-remove k v ((i, w) ∷ m) d h =
      ground (arith, length-remove k v m, remove_absent k m, eq_iff i k)

  -- A value that is found satisfies what all values satisfy.
  pub All-get {κ} :
      (P : V → Type κ) (k : String) (m : Dict V) (v : V)
      → All (λ (e : String × V). P e.1) m
      → get k m ≡ some v
      → P v
  unfolding get
  All-get P k [] v a h = cc
  All-get P k ((i, w) ∷ m) v a h = ground (arith, All-get P k m v)

module _ {ℓ} {V : Type ℓ} where
  -- The sum of a count over the values.
  unfoldable pub sum_values : (V → ℕ) → Dict V → ℕ
  sum_values c [] = 0
  sum_values c ((k, v) ∷ m) = c v + sum_values c m

  pub sum_values-put :
      (c : V → ℕ) (k : String) (v : V) (m : Dict V)
      → sum_values c (put k v m) + elim (get k m) [ none ↦ 0 | some w ↦ c w ] ≡ sum_values c m + c v
  unfolding sum_values put get
  sum_values-put c k v [] = omega arith
  sum_values-put c k v ((i, w) ∷ m) = ground (arith, sum_values-put c k v m)

  pub sum_values-remove :
      (c : V → ℕ) (k : String) (v : V) (m : Dict V)
      → IsDistinct m
      → get k m ≡ some v
      → sum_values c (remove k m) + c v ≡ sum_values c m
  unfolding sum_values remove get
  sum_values-remove c k v [] d h = cc
  sum_values-remove c k v ((i, w) ∷ m) d h =
      ground (arith, sum_values-remove c k v m, remove_absent k m, eq_iff i k)

  pub All-put {κ} :
      (P : V → Type κ) (k : String) (v : V) (m : Dict V)
      → P v
      → All (λ (e : String × V). P e.1) m
      → All (λ (e : String × V). P e.1) (put k v m)
  unfolding put
  All-put P k v [] h a = (h, tt)
  All-put P k v ((i, w) ∷ m) h a = ground (arith, All-put P k v m)

  pub All-remove {κ} :
      (P : V → Type κ) (k : String) (m : Dict V)
      → All (λ (e : String × V). P e.1) m
      → All (λ (e : String × V). P e.1) (remove k m)
  unfolding remove
  All-remove P k [] a = tt
  All-remove P k ((i, w) ∷ m) a = ground (arith, All-remove P k m)
