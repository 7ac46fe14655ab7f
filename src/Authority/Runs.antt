-- ===== src/Authority/Runs.antt =====
-- Whole executions: what any sequence of calls, failing ones included, leaves true of the table.
use lagrange_images.Base.{
  ℕ, ◌≤◌, ◌≡◌, refl, ap, sym, ◌∙◌, subst, true, false, not, Option, none, some, List, [], ◌∷◌,
  arith, length, ◌==◌, Bool-cases, inl, inr, if◌then◌else◌,
}
use lagrange_images.Base.Result.{
  Result, ok, err, ensure, Result-cases, bind-eq-ok, eq_of_ok, ensure-not,
}
use lagrange_images.Support.TupleMap
use lagrange_images.Authority.{
  Entry, Table, Failure, Field, GrantsInput, Context, context, not_instance, entry_of,
  revoked_ancestor, mark_revoked, record_of, issue, attenuate, revoke, normalize_grants,
  check_narrow, required_text, attenuates_revoked,
}
use lagrange_images.Authority.Chain.{IsWithin, IsNarrowing, IsDerived}
use lagrange_images.Authority.Grants.{normalize_grants-IsValid, check_narrow-IsWithin}

-- A call that changes the table.
pub data Call : Type 0 where
  issue_call : Option Field → GrantsInput → Call
  attenuate_call : Context → GrantsInput → Call
  revoke_call : Context → Call

-- A call that throws leaves the table as it was.
abbrev pub minted : Table → Result Failure (Table × ℕ) → Table
minted t (ok (t', c)) = t'
minted t (err e) = t

abbrev pub changed : Table → Result Failure Table → Table
changed t (ok t') = t'
changed t (err e) = t

unfoldable pub exec : Call → Table → Table
exec (issue_call p g) t = minted t (issue p g t)
exec (attenuate_call c g) t = minted t (attenuate c g t)
exec (revoke_call c) t = changed t (revoke c t)

unfoldable pub run : List Call → Table → Table
run [] t = t
run (c ∷ cs) t = run cs (exec c t)

-- A successful `issue` adds one root context, which holds exactly what was asked for.
pub issue_inv :
    (p : Option Field) (v : GrantsInput) (t t' : Table) (c : ℕ)
    → issue p v t ≡ ok (t', c)
    → (e : Entry) × (t' ≡ e ∷ t)
      × (c ≡ length t)
      × (normalize_grants v ≡ ok e.grants)
      × (e.parent ≡ none)
      × (e.revoked ≡ false)
unfolding issue
issue_inv p v t t' c h =
    let (name, hp, h1) = bind-eq-ok (required_text p) _ h in
    let (gs, hg, h2) = bind-eq-ok (normalize_grants v) _ h1 in
    let made = eq_of_ok h2 in
    (
      record { principal = name; grants = gs; parent = none; revoked = false },
      sym (ap (λ (x : Table × ℕ). x.0) made),
      sym (ap (λ (x : Table × ℕ). x.1) made),
      hg,
      refl,
      refl,
    )

pub record_of_inv :
    (t : Table) (ctx : Context) (c : ℕ) (e : Entry)
    → record_of t ctx ≡ ok (c, e)
    → (ctx ≡ context c) × (entry_of t c ≡ some e)
unfolding record_of
record_of_inv t not_instance c e h = ground arith
record_of_inv t (context d) c e h = ground arith

-- The context that a successful `attenuate` mints.
pub record IsAttenuated (t : Table) (p : ℕ) (v : GrantsInput) (e : Entry) : Type 0 where
  pub parent_entry : Entry
  pub parent_issued : entry_of t p ≡ some parent_entry
  pub parent_live : revoked_ancestor t p ≡ false
  pub requested : normalize_grants v ≡ ok e.grants
  pub within : IsWithin e.grants parent_entry.grants
  pub under : e.parent ≡ some p
  pub live : e.revoked ≡ false

pub attenuate_inv :
    (ctx : Context) (v : GrantsInput) (t t' : Table) (c : ℕ)
    → attenuate ctx v t ≡ ok (t', c)
    → (p : ℕ) × (e : Entry) × (ctx ≡ context p)
      × (t' ≡ e ∷ t)
      × (c ≡ length t)
      × IsAttenuated t p v e
unfolding attenuate
attenuate_inv ctx v t t' c h =
    let (found, hf, h1) = bind-eq-ok (record_of t ctx) _ h in
    let (_, hl, h2) =
      bind-eq-ok (ensure (not (revoked_ancestor t found.0)) attenuates_revoked) _ h1 in
    let (gs, hg, h3) = bind-eq-ok (normalize_grants v) _ h2 in
    let (_, hn, h4) =
      bind-eq-ok (check_narrow found.1.grants (TupleMap.entries (Unit {0}) 1 gs.root)) _ h3 in
    let made = eq_of_ok h4 in
    let (is_ctx, is_entry) = record_of_inv t ctx found.0 found.1 hf in
    (
      found.0,
      record { principal = found.1.principal; grants = gs; parent = some found.0; revoked = false },
      is_ctx,
      sym (ap (λ (x : Table × ℕ). x.0) made),
      sym (ap (λ (x : Table × ℕ). x.1) made),
      record {
        parent_entry = found.1;
        parent_issued = is_entry;
        parent_live = ensure-not _ attenuates_revoked hl;
        requested = hg;
        within = (check_narrow-IsWithin found.1.grants gs (normalize_grants-IsValid v gs hg)).0 hn;
        under = refl;
        live = refl;
      },
    )

entry_of_newer : (t : Table) (a : ℕ) → length t ≤ a → entry_of t a ≡ none
unfolding entry_of
entry_of_newer [] a h = refl
entry_of_newer (e ∷ older) a h = ground (arith, entry_of_newer older a)

length-mark_revoked : (t : Table) (c : ℕ) → length (mark_revoked t c) ≡ length t
unfolding mark_revoked
length-mark_revoked [] c = refl
length-mark_revoked (e ∷ older) c = ground (arith, length-mark_revoked older c)

abbrev pub revoke_if : ℕ → ℕ → Entry → Entry
revoke_if c a e = if a == c then record e { revoked = true } else e

pub entry_of-mark_revoked :
    (t : Table) (c a : ℕ)
    → entry_of (mark_revoked t c) a
      ≡ elim (entry_of t a) [ none ↦ none | some e ↦ some (revoke_if c a e) ]
unfolding entry_of mark_revoked
entry_of-mark_revoked [] c a = refl
entry_of-mark_revoked (e ∷ older) c a =
    ground
      (arith, entry_of-mark_revoked older c a, length-mark_revoked older c, entry_of_newer older a)

grants-revoke_if : (c p : ℕ) (q : Entry) → (revoke_if c p q).grants ≡ q.grants
grants-revoke_if c p q = ground arith

mark_revoked-IsDerived :
    (older : Table) (c : ℕ) (e : Entry) (o : Option ℕ)
    → IsDerived older e o
    → IsDerived (mark_revoked older c) e o
mark_revoked-IsDerived older c e none d = tt
mark_revoked-IsDerived older c e (some p) (q, h, w) = (
  revoke_if c p q,
  entry_of-mark_revoked older c p
      ∙ ap (λ (o : Option Entry). elim o [ none ↦ none | some e ↦ some (revoke_if c p e) ]) h,
  λ g held. rw (grants-revoke_if c p q) (w g held),
)

pub mark_revoked-IsNarrowing : (t : Table) (c : ℕ) → IsNarrowing t → IsNarrowing (mark_revoked t c)
unfolding mark_revoked
mark_revoked-IsNarrowing [] c n = tt
mark_revoked-IsNarrowing (e ∷ older) c n = elim (Bool-cases (length older == c)) [
  | inl this ↦ rw (this, mark_revoked) n
  | inr other ↦
      rw (other, mark_revoked)
        (mark_revoked-IsDerived older c e e.parent n.0, mark_revoked-IsNarrowing older c n.1)
]

pub revoke_inv :
    (ctx : Context) (t t' : Table)
    → revoke ctx t ≡ ok t'
    → (c : ℕ) × (e : Entry) × (ctx ≡ context c) × (entry_of t c ≡ some e) × (t' ≡ mark_revoked t c)
unfolding revoke
revoke_inv ctx t t' h =
    let (found, hf, h1) = bind-eq-ok (record_of t ctx) _ h in
    let (is_ctx, is_entry) = record_of_inv t ctx found.0 found.1 hf in
    (found.0, found.1, is_ctx, is_entry, sym (eq_of_ok h1))

-- A call keeps the table narrowing, whether it returns or throws.
exec-IsNarrowing : (k : Call) (t : Table) → IsNarrowing t → IsNarrowing (exec k t)
unfolding exec
exec-IsNarrowing (issue_call p v) t n = elim (Result-cases (issue p v t)) [
  | inl ((t', c), h) ↦
      let (e, new, _, _, root, _) = issue_inv p v t t' c h in
      rw h (rw new (subst (IsDerived t e) (sym root) tt, n))
  | inr (f, h) ↦ rw h n
]
exec-IsNarrowing (attenuate_call ctx v) t n = elim (Result-cases (attenuate ctx v t)) [
  | inl ((t', c), h) ↦
      let (p, e, _, new, _, made) = attenuate_inv ctx v t t' c h in
      rw h (
        rw new (
          subst (IsDerived t e) (sym made.under)
              (made.parent_entry, made.parent_issued, made.within),
          n,
        ))
  | inr (f, h) ↦ rw h n
]
exec-IsNarrowing (revoke_call ctx) t n = elim (Result-cases (revoke ctx t)) [
  | inl (t', h) ↦
      let (c, _, _, _, new) = revoke_inv ctx t t' h in
      rw h (rw new (mark_revoked-IsNarrowing t c n))
  | inr (f, h) ↦ rw h n
]

pub run-IsNarrowing : (ks : List Call) (t : Table) → IsNarrowing t → IsNarrowing (run ks t)
unfolding run
run-IsNarrowing [] t n = n
run-IsNarrowing (k ∷ ks) t n = run-IsNarrowing ks (exec k t) (exec-IsNarrowing k t n)
