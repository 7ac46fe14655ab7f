-- ===== src/Base/TextOrder.antt =====
-- JavaScript's order of texts, `<` on UTF-16 code units, and texts sorted by it.
use Prim.Native.Nat.{ℕ, ◌+◌, ◌-◌, ◌/◌, ◌%◌}
use Prim.Native.String.{String}
use mathlib.Core.Path.{◌≡◌, refl, ap, ◌∙◌}
use mathlib.Core.Bool.{Bool, true, false, ◌||◌}
use mathlib.Core.List.{List, [], ◌∷◌}
use native.Mathlib.Omega.{arith}
use text.Mathlib.Text.{◌==◌ as str_eq}
use text.Mathlib.TextEquality.{eq_iff}
use lagrange_images.Base.Tests.{ltb, if◌then◌else◌}
use lagrange_images.Base.Text.{codes}

-- A code point above 0xFFFF is two code units.
unfoldable pub code_units : List ℕ → List ℕ
code_units [] = []
code_units (c ∷ cs) =
    let rest = code_units cs in
    if ltb c 65536
    then c ∷ rest
    else (55296 + (c - 65536) / 1024) ∷ (56320 + (c - 65536) % 1024) ∷ rest

unfoldable pub units_leb : List ℕ → List ℕ → Bool
units_leb [] ys = true
units_leb (x ∷ xs) [] = false
units_leb (x ∷ xs) (y ∷ ys) =
    let rest = units_leb xs ys in if ltb x y then true else if ltb y x then false else rest

-- `compareText(a, b) <= 0`
unfoldable pub text_leb : String → String → Bool
text_leb a b = units_leb (code_units (codes a)) (code_units (codes b))

units_leb_refl : (xs : List ℕ) → units_leb xs xs ≡ true
unfolding units_leb
units_leb_refl [] = refl
units_leb_refl (x ∷ xs) = ground (arith, units_leb_refl xs)

units_leb_total : (xs ys : List ℕ) → units_leb xs ys ≡ false → units_leb ys xs ≡ true
unfolding units_leb
units_leb_total [] ys h = cc
units_leb_total (x ∷ xs) [] h = refl
units_leb_total (x ∷ xs) (y ∷ ys) h = ground (arith, h, units_leb_total xs ys)

pub text_leb_refl : (a : String) → text_leb a a ≡ true
unfolding text_leb
text_leb_refl a = units_leb_refl (code_units (codes a))

pub text_leb_total : (a b : String) → text_leb a b ≡ false → text_leb b a ≡ true
unfolding text_leb
text_leb_total a b h = units_leb_total (code_units (codes a)) (code_units (codes b)) h

unfoldable pub member : String → List String → Bool
member k [] = false
member k (j ∷ js) = str_eq j k || member k js

unfoldable pub insert_text : String → List String → List String
insert_text k [] = k ∷ []
insert_text k (j ∷ js) =
    let rest = insert_text k js in if text_leb k j then k ∷ j ∷ js else j ∷ rest

unfoldable pub sort_texts : List String → List String
sort_texts [] = []
sort_texts (k ∷ ks) = insert_text k (sort_texts ks)

-- `[...new Set(texts)]`, whose order does not matter to those who sort it.
unfoldable pub distinct : List String → List String
distinct [] = []
distinct (k ∷ ks) = let rest = distinct ks in if member k ks then rest else k ∷ rest

member-insert_text :
    (j k : String) (ks : List String) → member j (insert_text k ks) ≡ (str_eq k j || member j ks)
unfolding member insert_text
member-insert_text j k [] = refl
member-insert_text j k (i ∷ ks) = ground (arith, member-insert_text j k ks)

pub member-sort_texts : (j : String) (ks : List String) → member j (sort_texts ks) ≡ member j ks
unfolding member sort_texts
member-sort_texts j [] = refl
member-sort_texts j (k ∷ ks) =
    member-insert_text j k (sort_texts ks) ∙ ap (λ b. str_eq k j || b) (member-sort_texts j ks)

pub member-distinct : (j : String) (ks : List String) → member j (distinct ks) ≡ member j ks
unfolding member distinct
member-distinct j [] = refl
member-distinct j (k ∷ ks) = ground (arith, member-distinct j ks, eq_iff k j)
