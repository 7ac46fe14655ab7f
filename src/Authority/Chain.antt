-- ===== src/Authority/Chain.antt =====
-- The chain of parents that a revocation walks, and what holds along it.
use lagrange_images.Base.{
  ℕ, ◌<◌, String, ◌≡◌, ◌↔◌, refl, ap, ◌∙◌, sym, subst, ◌⊎◌, eq_of_some, Bool, true, false, ◌||◌,
  Option, none, some, [], ◌∷◌, arith, length, ◌==◌, Bool-cases, Option-cases, inl, inr,
}
use lagrange_images.Authority.{Entry, Table, Grants, entry_of, revoked_ancestor, holds}

-- `a` is `c` or stands above it: derived contexts, whatever the order in which a walk meets them.
pub data Ancestor (t : Table) : ℕ → ℕ → Type 0 where
  self : {c : ℕ} (e : Entry) → entry_of t c ≡ some e → Ancestor t c c
  above :
      {c a : ℕ} (e : Entry) (p : ℕ)
      → entry_of t c ≡ some e
      → e.parent ≡ some p
      → Ancestor t p a
      → Ancestor t c a

-- Every grant of the one is a grant of the other.
abbrev pub IsWithin : Grants → Grants → Type 0
IsWithin gs hs = (g : String × String) → holds gs g ≡ true → holds hs g ≡ true

-- A parent is in the table, older than its child, and holds whatever the child holds.
abbrev pub IsDerived : Table → Entry → Option ℕ → Type 0
IsDerived older e none = Unit
IsDerived older e (some p) = (q : Entry) × (entry_of older p ≡ some q) × IsWithin e.grants q.grants

abbrev pub IsNarrowing : Table → Type 0
IsNarrowing [] = Unit
IsNarrowing (e ∷ older) = IsDerived older e e.parent × IsNarrowing older

pub lt-length_of_entry_of : (t : Table) (c : ℕ) (e : Entry) → entry_of t c ≡ some e → c < length t
unfolding entry_of
lt-length_of_entry_of [] c e h = cc
lt-length_of_entry_of (d ∷ older) c e h = ground (arith, lt-length_of_entry_of older c e)

-- An older context has the record that it had.
pub entry_of_older :
    (d : Entry) (older : Table) (c : ℕ)
    → c < length older
    → entry_of (d ∷ older) c ≡ entry_of older c
unfolding entry_of
entry_of_older d older c h = ground arith

pub entry_of_newest : (d : Entry) (older : Table) → entry_of (d ∷ older) (length older) ≡ some d
unfolding entry_of
entry_of_newest d older = ground arith

-- A new context changes no chain.
pub Ancestor-grow :
    (d : Entry) (older : Table) {c a : ℕ} → Ancestor older c a → Ancestor (d ∷ older) c a
Ancestor-grow d older (self {c} e h) =
    self e (entry_of_older d older c (lt-length_of_entry_of older c e h) ∙ h)
Ancestor-grow d older (above {c} e p h up rest) =
    above e p (entry_of_older d older c (lt-length_of_entry_of older c e h) ∙ h) up
      (Ancestor-grow d older rest)

-- The newest context, or an older one.
entry_of_cases :
    (d : Entry) (older : Table) (c : ℕ) (e : Entry)
    → entry_of (d ∷ older) c ≡ some e
    → ((c ≡ length older) × (d ≡ e)) ⊎ ((c < length older) × (entry_of older c ≡ some e))
unfolding entry_of
entry_of_cases d older c e h = elim (Bool-cases (length older == c)) [
  | inl new ↦ inl (ground arith, ground arith)
  | inr old ↦ inr (lt-length_of_entry_of older c e (ground arith), ground arith)
]

abbrev DerivedFrom : Table → Entry → ℕ → Type 0
DerivedFrom t e p = (q : Entry) × (entry_of t p ≡ some q) × IsWithin e.grants q.grants

DerivedFrom-grow :
    (d : Entry) (older : Table) (e : Entry) (p : ℕ)
    → DerivedFrom older e p
    → DerivedFrom (d ∷ older) e p
DerivedFrom-grow d older e p (q, h, w) =
    (q, entry_of_older d older p (lt-length_of_entry_of older p q h) ∙ h, w)

-- The parent that a record names holds what the record holds.
entry_DerivedFrom :
    (t : Table) (c : ℕ) (e : Entry) (p : ℕ)
    → IsNarrowing t
    → entry_of t c ≡ some e
    → e.parent ≡ some p
    → DerivedFrom t e p
unfolding entry_of
entry_DerivedFrom [] c e p n h up = cc
entry_DerivedFrom (d ∷ older) c e p n h up = elim (entry_of_cases d older c e h) [
  | inl (_, same) ↦
      DerivedFrom-grow d older e p
        (subst (IsDerived older e) up (subst (λ (x : Entry). IsDerived older x x.parent) same n.0))
  | inr (_, old) ↦ DerivedFrom-grow d older e p (entry_DerivedFrom older c e p n.1 old up)
]

-- A context holds no grant that a context above it does not hold.
pub Ancestor-IsWithin :
    (t : Table) {c a : ℕ} (e r : Entry)
    → IsNarrowing t
    → Ancestor t c a
    → entry_of t c ≡ some e
    → entry_of t a ≡ some r
    → IsWithin e.grants r.grants
Ancestor-IsWithin t e r n (self d h) he hr g held =
    subst (λ (x : Entry). holds x.grants g ≡ true) (eq_of_some (sym he ∙ hr)) held
Ancestor-IsWithin t e r n (above {c} {a} d p h up rest) he hr g held =
    let (q, hq, w) = entry_DerivedFrom t c d p n h up in
    Ancestor-IsWithin t q r n rest hq hr g
      (w g (subst (λ (x : Entry). holds x.grants g ≡ true) (eq_of_some (sym he ∙ h)) held))

pub revoked_older :
    (d : Entry) (older : Table) (c : ℕ)
    → c < length older
    → revoked_ancestor (d ∷ older) c ≡ revoked_ancestor older c
unfolding revoked_ancestor
revoked_older d older c h = ground arith

abbrev above_revoked : Table → Option ℕ → Bool
above_revoked t none = false
above_revoked t (some p) = revoked_ancestor t p

above_revoked-grow :
    (d : Entry) (older : Table) (e : Entry) (o : Option ℕ)
    → IsDerived older e o
    → above_revoked (d ∷ older) o ≡ above_revoked older o
above_revoked-grow d older e none h = refl
above_revoked-grow d older e (some p) (q, h, w) =
    revoked_older d older p (lt-length_of_entry_of older p q h)

-- A record of an older table is derived within that table.
entry_IsDerived :
    (t : Table) (c : ℕ) (e : Entry) → IsNarrowing t → entry_of t c ≡ some e → IsDerived t e e.parent
entry_IsDerived t c e n h = elim (Option-cases e.parent) [
  | inl root ↦ rw root tt
  | inr (p, up) ↦ rw up (entry_DerivedFrom t c e p n h up)
]

revoked_newest :
    (d : Entry) (older : Table) (c : ℕ)
    → c ≡ length older
    → revoked_ancestor (d ∷ older) c ≡ (d.revoked || above_revoked older d.parent)
unfolding revoked_ancestor
revoked_newest d older c new = elim (Option-cases d.parent) [
  | inl e ↦ ground arith
  | inr (p, e) ↦ ground arith
]

-- One step of the walk, wherever the record stands in the table.
revoked_ancestor_step :
    (t : Table) (c : ℕ) (e : Entry)
    → IsNarrowing t
    → entry_of t c ≡ some e
    → revoked_ancestor t c ≡ (e.revoked || above_revoked t e.parent)
revoked_ancestor_step [] c e n h = unfold entry_of in cc
revoked_ancestor_step (d ∷ older) c e n h = elim (entry_of_cases d older c e h) [
  | inl (new, same) ↦
      revoked_newest d older c new
      ∙ ap (λ (b : Bool). d.revoked || b) (sym (above_revoked-grow d older d d.parent n.0))
      ∙ ap (λ (x : Entry). x.revoked || above_revoked (d ∷ older) x.parent) same
  | inr (lt, old) ↦
      revoked_older d older c lt
      ∙ revoked_ancestor_step older c e n.1 old
      ∙ ap (λ (b : Bool). e.revoked || b)
          (sym (above_revoked-grow d older e e.parent (entry_IsDerived older c e n.1 old)))
]

abbrev RevokedAbove : Table → ℕ → Type 0
RevokedAbove t c =
    (a : ℕ) × (r : Entry) × Ancestor t c a × (entry_of t a ≡ some r) × (r.revoked ≡ true)

RevokedAbove-grow :
    (d : Entry) (older : Table) (c : ℕ) → RevokedAbove older c → RevokedAbove (d ∷ older) c
RevokedAbove-grow d older c (a, r, up, h, rev) = (
  a,
  r,
  Ancestor-grow d older up,
  entry_of_older d older a (lt-length_of_entry_of older a r h) ∙ h,
  rev,
)

revoked_sound :
    (t : Table) (c : ℕ) (e : Entry)
    → IsNarrowing t
    → entry_of t c ≡ some e
    → revoked_ancestor t c ≡ true
    → RevokedAbove t c
revoked_sound [] c e n h r = unfold entry_of in cc
revoked_sound (d ∷ older) c e n h r = elim (entry_of_cases d older c e h) [
  | inr (lt, old) ↦
      RevokedAbove-grow d older c
        (revoked_sound older c e n.1 old (sym (revoked_older d older c lt) ∙ r))
  | inl (new, same) ↦ elim (Bool-cases d.revoked) [
    | inl rev ↦ (c, d, self d (h ∙ ap some (sym same)), h ∙ ap some (sym same), rev)
    | inr live ↦ elim (Option-cases d.parent) [
      | inl root ↦ absurd (not_revoked live root (sym (revoked_newest d older c new) ∙ r))
      | inr (p, up) ↦
          let (q, hq, _) = subst (IsDerived older d) up n.0 in
          let (a, s, chain, hs, rev) = RevokedAbove-grow d older p (
            revoked_sound older p q n.1 hq
              (by_parent live up (sym (revoked_newest d older c new) ∙ r))) in
          (a, s, above d p (h ∙ ap some (sym same)) up chain, hs, rev)
    ]
  ]
]
  where
    not_revoked :
        {b : Bool} {o : Option ℕ} → b ≡ false → o ≡ none → (b || above_revoked older o) ≡ true → ⊥
    not_revoked {b} {o} x y z = ground arith

    by_parent :
        {b : Bool} {o : Option ℕ} {p : ℕ}
        → b ≡ false
        → o ≡ some p
        → (b || above_revoked older o) ≡ true
        → revoked_ancestor older p ≡ true
    by_parent {b} {o} {p} x y z = ground arith

revoked_complete :
    (t : Table) {c a : ℕ} (r : Entry)
    → IsNarrowing t
    → Ancestor t c a
    → entry_of t a ≡ some r
    → r.revoked ≡ true
    → revoked_ancestor t c ≡ true
revoked_complete t r n (self {c} e h) hr rev = ground (arith, revoked_ancestor_step t c r)
revoked_complete t r n (above {c} e p h up rest) hr rev =
    ground (arith, revoked_ancestor_step t c e, revoked_complete t r n rest hr rev)

-- The walk up the parents answers true exactly if some context of the chain, the context itself
-- included, is marked as revoked, in every table whose parents are older than their children.
pub revoked_ancestor_iff :
    (t : Table) (c : ℕ) (e : Entry)
    → IsNarrowing t
    → entry_of t c ≡ some e
    → (revoked_ancestor t c ≡ true)
      ↔ ((a : ℕ) × (r : Entry) × Ancestor t c a × (entry_of t a ≡ some r) × (r.revoked ≡ true))
revoked_ancestor_iff t c e n h =
    (revoked_sound t c e n h, λ (a, r, chain, hr, rev). revoked_complete t r n chain hr rev)
