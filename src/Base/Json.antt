-- ===== src/Base/Json.antt =====
-- JSON values, as records hold them. A number other than a natural one is its text. The order of the
-- fields of an object is the one in which they were added.
use Prim.Native.Nat.{ℕ}
use Prim.Native.String.{String}
use mathlib.Core.Path.{◌≡◌, refl, ap}
use mathlib.Core.Bool.{Bool, true, false, not, ◌&&◌}
use mathlib.Core.List.{List, [], ◌∷◌}
use mathlib.Core.Option.{Option, none, some}
use native.Mathlib.Omega.{arith}
use text.Mathlib.Text.{◌==◌ as str_eq}
use text.Mathlib.TextEquality.{eq_iff}
use text.Mathlib.TextPositions.{eq_refl}
use lagrange_images.Base.Tests.{both_true, ◌==◌, ==_iff, if◌then◌else◌}

mutual
  pub data Json : Type 0 where
    null : Json
    bool : Bool → Json
    num : ℕ → Json
    other_num : String → Json
    str : String → Json
    arr : Items → Json
    obj : Fields → Json

  pub data Items : Type 0 where
    nil : Items
    cons : Json → Items → Items

  pub data Fields : Type 0 where
    end : Fields
    field : String → Json → Fields → Fields

abbrev pub bool_eq : Bool → Bool → Bool
bool_eq true true = true
bool_eq false false = true
bool_eq _ _ = false

-- The same value, with the fields of each object in the same order.
unfoldable mutual
  pub json_eq : Json → Json → Bool
  json_eq null null = true
  json_eq (bool a) (bool b) = bool_eq a b
  json_eq (num a) (num b) = a == b
  json_eq (other_num a) (other_num b) = str_eq a b
  json_eq (str a) (str b) = str_eq a b
  json_eq (arr a) (arr b) = items_eq a b
  json_eq (obj a) (obj b) = fields_eq a b
  json_eq _ _ = false

  pub items_eq : Items → Items → Bool
  items_eq nil nil = true
  items_eq (cons a xs) (cons b ys) = json_eq a b && items_eq xs ys
  items_eq _ _ = false

  pub fields_eq : Fields → Fields → Bool
  fields_eq end end = true
  fields_eq (field j a xs) (field k b ys) = str_eq j k && (json_eq a b && fields_eq xs ys)
  fields_eq _ _ = false

mutual
  unfolding json_eq

  json_refl : (a : Json) → json_eq a a ≡ true
  json_refl null = refl
  json_refl (bool true) = refl
  json_refl (bool false) = refl
  json_refl (num a) = ground arith
  json_refl (other_num a) = eq_refl a
  json_refl (str a) = eq_refl a
  json_refl (arr xs) = items_refl xs
  json_refl (obj fs) = fields_refl fs

  items_refl : (xs : Items) → items_eq xs xs ≡ true
  items_refl nil = refl
  items_refl (cons a xs) = ground (arith, json_refl a, items_refl xs)

  fields_refl : (fs : Fields) → fields_eq fs fs ≡ true
  fields_refl end = refl
  fields_refl (field k a fs) = ground (arith, eq_refl k, json_refl a, fields_refl fs)

mutual
  unfolding json_eq

  json_path : (a b : Json) → json_eq a b ≡ true → a ≡ b
  json_path null null h = refl
  json_path (bool true) (bool true) h = refl
  json_path (bool false) (bool false) h = refl
  json_path (bool true) (bool false) h = cc
  json_path (bool false) (bool true) h = cc
  json_path (num a) (num b) h = ap num ((==_iff a b).0 h)
  json_path (other_num a) (other_num b) h = ap other_num ((eq_iff a b).0 h)
  json_path (str a) (str b) h = ap str ((eq_iff a b).0 h)
  json_path (arr xs) (arr ys) h = ap arr (items_path xs ys h)
  json_path (obj xs) (obj ys) h = ap obj (fields_path xs ys h)
  json_path _ _ h = cc

  items_path : (xs ys : Items) → items_eq xs ys ≡ true → xs ≡ ys
  items_path nil nil h = refl
  items_path (cons a xs) (cons b ys) h =
      let (first, rest) = both_true (json_eq a b) (items_eq xs ys) h in
      let p = json_path a b first in let q = items_path xs ys rest in λ i. cons (p i) (q i)
  items_path nil (cons b ys) h = cc
  items_path (cons a xs) nil h = cc

  fields_path : (xs ys : Fields) → fields_eq xs ys ≡ true → xs ≡ ys
  fields_path end end h = refl
  fields_path (field j a xs) (field k b ys) h =
      let (name, more) = both_true (str_eq j k) (json_eq a b && fields_eq xs ys) h in
      let (first, rest) = both_true (json_eq a b) (fields_eq xs ys) more in
      let p = (eq_iff j k).0 name in
      let q = json_path a b first in let r = fields_path xs ys rest in λ i. field (p i) (q i) (r i)
  fields_path end (field k b ys) h = cc
  fields_path (field k a xs) end h = cc

pub json_eq_refl : (a : Json) → json_eq a a ≡ true
json_eq_refl a = json_refl a

pub eq_of_json_eq : (a b : Json) → json_eq a b ≡ true → a ≡ b
eq_of_json_eq a b h = json_path a b h

-- `object[key]` of an object, and nothing of another value.
unfoldable pub get_field : String → Fields → Option Json
get_field k end = none
get_field k (field j v fs) = if str_eq j k then some v else get_field k fs

unfoldable pub set_field : String → Json → Fields → Fields
set_field k v end = field k v end
set_field k v (field j w fs) = if str_eq j k then field j v fs else field j w (set_field k v fs)

unfoldable pub property : String → Json → Option Json
property k (obj fs) = get_field k fs
property k _ = none

unfoldable pub field_names : Fields → List String
field_names end = []
field_names (field k v fs) = k ∷ field_names fs

unfoldable pub list_of : Items → List Json
list_of nil = []
list_of (cons x xs) = x ∷ list_of xs

unfoldable pub items_of : List Json → Items
items_of [] = nil
items_of (x ∷ xs) = cons x (items_of xs)

-- `if (value)`
unfoldable pub truthy : Json → Bool
truthy null = false
truthy (bool b) = b
truthy (num n) = not (n == 0)
truthy (str t) = not (str_eq t "")
truthy _ = true

unfoldable pub drop_field : String → Fields → Fields
drop_field k end = end
drop_field k (field j v fs) =
    let rest = drop_field k fs in if str_eq j k then rest else field j v rest

-- `{...object, [key]: value}`, where `undefined` is what a later clone leaves out.
unfoldable pub set_option : String → Option Json → Fields → Fields
set_option k none fs = drop_field k fs
set_option k (some v) fs = set_field k v fs

-- `value ?? null`
abbrev pub or_null : Option Json → Json
or_null none = null
or_null (some v) = v
