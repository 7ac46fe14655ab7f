-- ===== src/Authority/Grants.antt =====
-- Sets of grants: what a list of grants puts in, and what the narrowing check of `attenuate` lets
-- through.
use lagrange_images.Base.{
  String, ◌≡◌, ◌↔◌, ◌⊎◌, ⊎_elim, subst, refl, sym, ap, ◌∙◌, true, false, ◌||◌, List, [], ◌∷◌, arith,
  is_some, inl, inr,
}
use lagrange_images.Base.Result.{ok, err, Result-cases, eq_of_ok}
use lagrange_images.Support.TupleMap
use lagrange_images.Support.TupleMap.Laws.{lookup-set, key_eq_iff, level_get-no_entries}
use lagrange_images.Support.TupleMap.Sizes.{IsValid, set-IsValid, empty-IsValid}
use lagrange_images.Support.TupleMap.Entries.{find, entries_lem}
use lagrange_images.Authority.{
  Grants, GrantInput, GrantsInput, not_array, array, Failure, no_grants, add, holds,
  normalize_grant, collect, normalize_grants, check_narrow,
}
use lagrange_images.Authority.Chain.{IsWithin}

-- The grant stands in the list that the caller handed over.
abbrev pub IsListed : String × String → List GrantInput → Type 0
IsListed g [] = ⊥
IsListed g (v ∷ vs) = (normalize_grant v ≡ ok g) ⊎ IsListed g vs

abbrev pub IsRequested : String × String → GrantsInput → Type 0
IsRequested g not_array = ⊥
IsRequested g (array vs) = IsListed g vs

pub holds-add :
    (g h : String × String) (gs : Grants)
    → holds (add g gs) h ≡ (TupleMap.key_eq 1 g h || holds gs h)
unfolding TupleMap.contains TupleMap.lookup
holds-add g h gs = ground (arith, lookup-set (Unit {0}) 1 g h tt gs)

pub holds-no_grants : (h : String × String) → holds no_grants h ≡ false
unfolding TupleMap.contains
holds-no_grants h = rw (level_get-no_entries (Unit {0}) 1 h, is_some)

collect_cons :
    (gs : Grants) (v : GrantInput) (vs : List GrantInput) (g : String × String)
    → normalize_grant v ≡ ok g
    → collect gs (v ∷ vs) ≡ collect (add g gs) vs
unfolding collect
collect_cons gs v vs g n = rw (n, collect)

collect_fails :
    (gs r : Grants) (v : GrantInput) (vs : List GrantInput) (f : Failure)
    → normalize_grant v ≡ err f
    → ¬ (collect gs (v ∷ vs) ≡ ok r)
unfolding collect
collect_fails gs r v vs f n e = ground arith

collect_iff :
    (gs r : Grants) (vs : List GrantInput) (h : String × String)
    → collect gs vs ≡ ok r
    → (holds r h ≡ true) ↔ ((holds gs h ≡ true) ⊎ IsListed h vs)
unfolding collect
collect_iff gs r [] h e = rw (sym (eq_of_ok e)) (inl, ⊎_elim (λ x. x) absurd)
collect_iff gs r (v ∷ vs) h e = elim (Result-cases (normalize_grant v)) [
  | inl (g, n) ↦ ground (
    arith,
    collect_iff (add g gs) r vs h (sym (collect_cons gs v vs g n) ∙ e),
    holds-add g h gs,
    key_eq_iff 1 g h,
  )
  | inr (f, n) ↦ absurd (collect_fails gs r v vs f n e)
]

collect-IsValid :
    (gs r : Grants) (vs : List GrantInput)
    → IsValid (Unit {0}) 1 gs
    → collect gs vs ≡ ok r
    → IsValid (Unit {0}) 1 r
unfolding collect
collect-IsValid gs r [] h e = subst (IsValid (Unit {0}) 1) (eq_of_ok e) h
collect-IsValid gs r (v ∷ vs) h e = elim (Result-cases (normalize_grant v)) [
  | inl (g, n) ↦
      collect-IsValid (add g gs) r vs (set-IsValid (Unit {0}) 1 g tt gs h)
        (sym (collect_cons gs v vs g n) ∙ e)
  | inr (f, n) ↦ absurd (collect_fails gs r v vs f n e)
]

check_narrow_iff :
    (held : Grants) (es : List ((String × String) × Unit {0}))
    → (check_narrow held es ≡ ok tt)
      ↔ ((g : String × String) → is_some (find (Unit {0}) 1 g es) ≡ true → holds held g ≡ true)
unfolding check_narrow find
check_narrow_iff held [] = (λ _ g h. cc, λ _. refl)
check_narrow_iff held ((g, u) ∷ es) = (
  λ e h. ground (arith, key_eq_iff 1 g h, (check_narrow_iff held es).0 (all_ok e) h),
  λ w. rw (first w) ((check_narrow_iff held es).1 (λ h f. ground (arith, w h))),
)
  where
    all_ok : check_narrow held ((g, u) ∷ es) ≡ ok tt → check_narrow held es ≡ ok tt
    all_ok e = ground arith

    first :
        ((h : String × String)
          → is_some (find (Unit {0}) 1 h ((g, u) ∷ es)) ≡ true
          → holds held h ≡ true)
        → holds held g ≡ true
    first w = ground (arith, w g, key_eq_iff 1 g g)

-- The set that a list of grants makes holds exactly the grants that the list names.
pub holds-normalize_grants :
    (v : GrantsInput) (gs : Grants) (g : String × String)
    → normalize_grants v ≡ ok gs
    → (holds gs g ≡ true) ↔ IsRequested g v
unfolding normalize_grants
holds-normalize_grants not_array gs g e = absurd (ground arith)
holds-normalize_grants (array vs) gs g e =
    ground (arith, collect_iff no_grants gs vs g e, holds-no_grants g)

pub normalize_grants-IsValid :
    (v : GrantsInput) (gs : Grants) → normalize_grants v ≡ ok gs → IsValid (Unit {0}) 1 gs
unfolding normalize_grants
normalize_grants-IsValid not_array gs e = absurd (ground arith)
normalize_grants-IsValid (array vs) gs e =
    collect-IsValid no_grants gs vs (empty-IsValid (Unit {0}) 1) e

-- The check lets a set through exactly if every grant in it is held.
pub check_narrow-IsWithin :
    (held gs : Grants)
    → IsValid (Unit {0}) 1 gs
    → (check_narrow held (TupleMap.entries (Unit {0}) 1 gs.root) ≡ ok tt) ↔ IsWithin gs held
unfolding TupleMap.contains TupleMap.lookup
check_narrow-IsWithin held gs v =
    let found = λ (g : String × String). (entries_lem (Unit {0}) 1 g gs v).0 in
    let iff = check_narrow_iff held (TupleMap.entries (Unit {0}) 1 gs.root) in
    (
      λ e g h. iff.0 e g (ap is_some (found g) ∙ h),
      λ w. iff.1 (λ g h. w g (sym (ap is_some (found g)) ∙ h)),
    )
