-- ===== src/Graph/Canonical/Laws.antt =====
-- The canonical form of src/graph/diff.js: it is fixed by a second canonicalization, holds what the
-- value holds, and decides sameness.
use lagrange_images.Base.{
  String, ◌≡◌, refl, sym, ap, ◌∙◌, subst, true, false, Option, none, some, if◌then◌else◌, str_eq,
  eq_iff, arith, Bool-cases, inl, inr, ◌↔◌, not_true, eq_of_some,
}
use lagrange_images.Base.Json.{
  Json, Items, Fields, null, bool, num, other_num, str, arr, obj, nil, cons, end, field, json_eq,
  get_field, json_eq_refl, eq_of_json_eq,
}
use lagrange_images.Base.TextOrder.{text_leb, text_leb_refl, text_leb_total}
use lagrange_images.Graph.Canonical.{
  insert_field, canonical_clone, clone_items, clone_fields, same, same_option, clone_option,
}

true_not_false : ¬ (true ≡ false)
true_not_false h = cc

-- The key may stand before the fields.
abbrev pub Leads : String → Fields → Type 0
Leads k end = Unit
Leads k (field j w fs) = text_leb k j ≡ true

mutual
  pub IsCanonical : Json → Type 0
  IsCanonical (arr xs) = AreCanonical xs
  IsCanonical (obj fs) = IsSortedCanonical fs
  IsCanonical _ = Unit

  pub AreCanonical : Items → Type 0
  AreCanonical nil = Unit
  AreCanonical (cons x xs) = IsCanonical x × AreCanonical xs

  pub IsSortedCanonical : Fields → Type 0
  IsSortedCanonical end = Unit
  IsSortedCanonical (field k v fs) = IsCanonical v × (Leads k fs × IsSortedCanonical fs)

insert_field-Leads :
    (j k : String) (v : Json) (fs : Fields)
    → text_leb j k ≡ true
    → Leads j fs
    → Leads j (insert_field k v fs)
unfolding insert_field
insert_field-Leads j k v end h l = h
insert_field-Leads j k v (field i w fs) h l = elim (Bool-cases (text_leb k i)) [
  | inl front ↦ rw front h
  | inr later ↦ rw later l
]

insert_field-IsSortedCanonical :
    (k : String) (v : Json) (fs : Fields)
    → IsCanonical v
    → IsSortedCanonical fs
    → IsSortedCanonical (insert_field k v fs)
unfolding IsCanonical insert_field
insert_field-IsSortedCanonical k v end c s = (c, (tt, tt))
insert_field-IsSortedCanonical k v (field j w fs) c s = elim (Bool-cases (text_leb k j)) [
  | inl front ↦ rw front (c, (front, s))
  | inr later ↦ rw later (
    s.0,
    (
      insert_field-Leads j k v fs (text_leb_total k j later) s.1.0,
      insert_field-IsSortedCanonical k v fs c s.1.1,
    ),
  )
]

mutual
  unfolding canonical_clone IsCanonical

  canonical_clone-IsCanonical : (a : Json) → IsCanonical (canonical_clone a)
  canonical_clone-IsCanonical null = tt
  canonical_clone-IsCanonical (bool b) = tt
  canonical_clone-IsCanonical (num n) = tt
  canonical_clone-IsCanonical (other_num t) = tt
  canonical_clone-IsCanonical (str t) = tt
  canonical_clone-IsCanonical (arr xs) = clone_items-AreCanonical xs
  canonical_clone-IsCanonical (obj fs) = clone_fields-IsSortedCanonical fs

  clone_items-AreCanonical : (xs : Items) → AreCanonical (clone_items xs)
  clone_items-AreCanonical nil = tt
  clone_items-AreCanonical (cons x xs) =
      (canonical_clone-IsCanonical x, clone_items-AreCanonical xs)

  clone_fields-IsSortedCanonical : (fs : Fields) → IsSortedCanonical (clone_fields fs)
  clone_fields-IsSortedCanonical end = tt
  clone_fields-IsSortedCanonical (field k v fs) =
      insert_field-IsSortedCanonical k (canonical_clone v) (clone_fields fs)
        (canonical_clone-IsCanonical v) (clone_fields-IsSortedCanonical fs)

insert_leading :
    (k : String) (v : Json) (fs : Fields) → Leads k fs → insert_field k v fs ≡ field k v fs
unfolding insert_field
insert_leading k v end l = refl
insert_leading k v (field j w fs) l = rw l refl

mutual
  unfolding canonical_clone IsCanonical

  clone_fixed : (a : Json) → IsCanonical a → canonical_clone a ≡ a
  clone_fixed null c = refl
  clone_fixed (bool b) c = refl
  clone_fixed (num n) c = refl
  clone_fixed (other_num t) c = refl
  clone_fixed (str t) c = refl
  clone_fixed (arr xs) c = ap arr (clone_items_fixed xs c)
  clone_fixed (obj fs) c = ap obj (clone_fields_fixed fs c)

  clone_items_fixed : (xs : Items) → AreCanonical xs → clone_items xs ≡ xs
  clone_items_fixed nil c = refl
  clone_items_fixed (cons x xs) c =
      let p = clone_fixed x c.0 in let q = clone_items_fixed xs c.1 in λ i. cons (p i) (q i)

  clone_fields_fixed : (fs : Fields) → IsSortedCanonical fs → clone_fields fs ≡ fs
  clone_fields_fixed end c = refl
  clone_fields_fixed (field k v fs) c =
      let p = clone_fixed v c.0 in
      let q = clone_fields_fixed fs c.1.1 in
      (λ i. insert_field k (p i) (q i)) ∙ insert_leading k v fs c.1.0

-- A canonical value is its own canonical form.
pub canonical_clone-idempotent :
    (a : Json) → canonical_clone (canonical_clone a) ≡ canonical_clone a
canonical_clone-idempotent a = clone_fixed (canonical_clone a) (canonical_clone-IsCanonical a)

pub clone_fields-idempotent : (fs : Fields) → clone_fields (clone_fields fs) ≡ clone_fields fs
clone_fields-idempotent fs =
    clone_fields_fixed (clone_fields fs) (clone_fields-IsSortedCanonical fs)

get_field-insert_field :
    (j k : String) (v : Json) (fs : Fields)
    → get_field j (insert_field k v fs) ≡ (if str_eq k j then some v else get_field j fs)
unfolding get_field insert_field
get_field-insert_field j k v end = refl
get_field-insert_field j k v (field i w fs) = ground (
  arith,
  get_field-insert_field j k v fs,
  eq_iff k j,
  eq_iff i j,
  text_leb_refl k,
  text_leb_refl j,
)

-- Each field of the canonical form is the canonical form of that field.
pub get_field-clone_fields :
    (k : String) (fs : Fields) → get_field k (clone_fields fs) ≡ clone_option (get_field k fs)
unfolding get_field canonical_clone clone_option
get_field-clone_fields k end = refl
get_field-clone_fields k (field j v fs) =
    get_field-insert_field k j (canonical_clone v) (clone_fields fs)
    ∙ ap (λ o. if str_eq j k then some (canonical_clone v) else o) (get_field-clone_fields k fs)
    ∙ elim (Bool-cases (str_eq j k)) [ inl here ↦ rw here refl | inr apart ↦ rw apart refl ]

-- Sameness is equality of canonical forms.
pub same_iff : (a b : Json) → (same a b ≡ true) ↔ (canonical_clone a ≡ canonical_clone b)
unfolding same
same_iff a b = (
  λ h. eq_of_json_eq (canonical_clone a) (canonical_clone b) h,
  λ h. subst (λ c. json_eq (canonical_clone a) c ≡ true) h (json_eq_refl (canonical_clone a)),
)

pub same_self : (a : Json) → same a a ≡ true
same_self a = (same_iff a a).1 refl

pub same_sym : (a b : Json) → same a b ≡ same b a
same_sym a b = elim (Bool-cases (same a b)) [
  | inl h ↦ h ∙ sym ((same_iff b a).1 (sym ((same_iff a b).0 h)))
  | inr h ↦
      h
      ∙ sym (not_true (λ q. true_not_false (sym ((same_iff a b).1 (sym ((same_iff b a).0 q))) ∙ h)))
]

-- A value and its canonical form are the same.
pub same-canonical_clone : (a : Json) → same (canonical_clone a) a ≡ true
same-canonical_clone a = (same_iff (canonical_clone a) a).1 (canonical_clone-idempotent a)

-- Sameness of values that may be missing, by their canonical forms.
pub same_option_iff :
    (a b : Option Json) → (same_option a b ≡ true) ↔ (clone_option a ≡ clone_option b)
unfolding same_option clone_option
same_option_iff none none = (λ _. refl, λ _. refl)
same_option_iff (some a) (some b) =
    (λ h. ap some ((same_iff a b).0 h), λ h. (same_iff a b).1 (eq_of_some h))
same_option_iff none (some b) = (λ h. cc, λ h. cc)
same_option_iff (some a) none = (λ h. cc, λ h. cc)
