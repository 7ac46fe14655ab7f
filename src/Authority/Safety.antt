-- ===== src/Authority/Safety.antt =====
-- What the authority service promises to whoever relies on it.
use mathlib.Core.Bool.{false≢true}
use lagrange_images.Base.{
  ℕ, ◌<◌, String, ◌≡◌, ◌≢◌, ◌↔◌, ◌⊎◌, refl, sym, ◌∙◌, true, false, Option, some, List, [], ◌∷◌,
  ◌++◌, not_true, arith, length, Option-cases, inl, inr,
}
use lagrange_images.Base.Result.{ok, Result-cases}
use lagrange_images.Authority.{
  Entry, Table, Field, GrantInput, GrantsInput, Context, context, entry_of, revoked_ancestor,
  mark_revoked, holds, record_of, issue, attenuate, revoke, require, normalize_grant,
}
use lagrange_images.Authority.Chain.{
  Ancestor, IsWithin, IsNarrowing, Ancestor-IsWithin, revoked_ancestor_iff, entry_of_older,
  entry_of_newest, revoked_older, lt-length_of_entry_of,
}
use lagrange_images.Authority.Runs.{
  Call, issue_call, attenuate_call, revoke_call, exec, run, issue_inv, attenuate_inv, revoke_inv,
  run-IsNarrowing, entry_of-mark_revoked, revoke_if, mark_revoked-IsNarrowing,
}
use lagrange_images.Authority.Grants.{IsRequested, holds-normalize_grants}

-- After any calls, a context holds no grant that a context it is derived from does not hold.
pub derived_never_widens :
    (ks : List Call) (c a : ℕ) (e r : Entry)
    → Ancestor (run ks []) c a
    → entry_of (run ks []) c ≡ some e
    → entry_of (run ks []) a ≡ some r
    → IsWithin e.grants r.grants
derived_never_widens ks c a e r chain =
    Ancestor-IsWithin (run ks []) e r (run-IsNarrowing ks [] tt) chain

-- What a check demands of the table.
pub record IsAuthorized (t : Table) (c : ℕ) (g : String × String) : Type 0 where
  pub entry : Entry
  pub issued : entry_of t c ≡ some entry
  pub held : holds entry.grants g ≡ true
  pub unrevoked : (a : ℕ) (r : Entry) → Ancestor t c a → entry_of t a ≡ some r → r.revoked ≡ false

require_inv :
    (t : Table) (c : ℕ) (v : GrantInput)
    → require (context c) v t ≡ ok tt
    → (g : String × String) × (e : Entry) × (normalize_grant v ≡ ok g)
      × (entry_of t c ≡ some e)
      × (revoked_ancestor t c ≡ false)
      × (holds e.grants g ≡ true)
unfolding require record_of
require_inv t c v h = elim (Result-cases (normalize_grant v)) [
  | inr (f, n) ↦ absurd (ground arith)
  | inl (g, n) ↦ elim (Option-cases (entry_of t c)) [
    | inl absent ↦ absurd (ground arith)
    | inr (e, issued) ↦ (g, e, n, issued, ground arith, ground arith)
  ]
]

require_ok :
    (t : Table) (c : ℕ) (v : GrantInput) (g : String × String) (e : Entry)
    → normalize_grant v ≡ ok g
    → entry_of t c ≡ some e
    → revoked_ancestor t c ≡ false
    → holds e.grants g ≡ true
    → require (context c) v t ≡ ok tt
unfolding require record_of
require_ok t c v g e n issued live held = ground arith

-- After any calls, `require` returns for an issued context exactly if the demand names a grant that
-- the context holds and no context it is derived from, itself included, is revoked.
pub require_iff :
    (ks : List Call) (c : ℕ) (v : GrantInput)
    → (require (context c) v (run ks []) ≡ ok tt)
      ↔ ((g : String × String) × (normalize_grant v ≡ ok g) × IsAuthorized (run ks []) c g)
require_iff ks c v = (
  λ h.
      let (g, e, n, issued, live, held) = require_inv (run ks []) c v h in
      (
        g,
        n,
        record { entry = e; issued = issued; held = held; unrevoked = unrevoked e issued live },
      ),
  λ (g, n, auth).
      require_ok (run ks []) c v g auth.entry n auth.issued
        (not_true (λ r.
          let (a, s, chain, hs, rev) = (walk auth.entry auth.issued).0 r in
          false≢true (sym (auth.unrevoked a s chain hs) ∙ rev)))
        auth.held,
)
  where
    walk :
        (e : Entry)
        → entry_of (run ks []) c ≡ some e
        → (revoked_ancestor (run ks []) c ≡ true) ↔ (
            (a : ℕ) × (r : Entry) × Ancestor (run ks []) c a
            × (entry_of (run ks []) a ≡ some r)
            × (r.revoked ≡ true))
    walk e h = revoked_ancestor_iff (run ks []) c e (run-IsNarrowing ks [] tt) h

    unrevoked :
        (e : Entry)
        → entry_of (run ks []) c ≡ some e
        → revoked_ancestor (run ks []) c ≡ false
        → (a : ℕ) (r : Entry) → Ancestor (run ks []) c a
        → entry_of (run ks []) a ≡ some r
        → r.revoked ≡ false
    unrevoked e h live a r chain hr =
        not_true (λ rev. false≢true (sym live ∙ (walk e h).1 (a, r, chain, hr, rev)))

-- A context that is revoked stays revoked, whatever is called after.
exec-revoked :
    (k : Call) (t : Table) (a : ℕ) (r : Entry)
    → entry_of t a ≡ some r
    → r.revoked ≡ true
    → (s : Entry) × (entry_of (exec k t) a ≡ some s) × (s.revoked ≡ true)
unfolding exec
exec-revoked (issue_call p v) t a r h rev = elim (Result-cases (issue p v t)) [
  | inl ((t', c), e) ↦
      let (d, new, _, _, _, _) = issue_inv p v t t' c e in
      (r, rw e (rw new (entry_of_older d t a (lt-length_of_entry_of t a r h) ∙ h)), rev)
  | inr (f, e) ↦ (r, rw e h, rev)
]
exec-revoked (attenuate_call ctx v) t a r h rev = elim (Result-cases (attenuate ctx v t)) [
  | inl ((t', c), e) ↦
      let (p, d, _, new, _, _) = attenuate_inv ctx v t t' c e in
      (r, rw e (rw new (entry_of_older d t a (lt-length_of_entry_of t a r h) ∙ h)), rev)
  | inr (f, e) ↦ (r, rw e h, rev)
]
exec-revoked (revoke_call ctx) t a r h rev = elim (Result-cases (revoke ctx t)) [
  | inl (t', e) ↦
      let (c, _, _, _, new) = revoke_inv ctx t t' e in
      (revoke_if c a r, rw e (rw new (rw (entry_of-mark_revoked t c a, h))), ground arith)
  | inr (f, e) ↦ (r, rw e h, rev)
]

run-revoked :
    (ks : List Call) (t : Table) (a : ℕ) (r : Entry)
    → entry_of t a ≡ some r
    → r.revoked ≡ true
    → (s : Entry) × (entry_of (run ks t) a ≡ some s) × (s.revoked ≡ true)
unfolding run
run-revoked [] t a r h rev = (r, h, rev)
run-revoked (k ∷ ks) t a r h rev =
    let (s, hs, rs) = exec-revoked k t a r h rev in run-revoked ks (exec k t) a s hs rs

run-append : (ks ls : List Call) (t : Table) → run (ks ++ ls) t ≡ run ls (run ks t)
unfolding run
run-append [] ls t = refl
run-append (k ∷ ks) ls t = run-append ks ls (exec k t)

entry_of_revoked :
    (t t' : Table) (c a : ℕ) (e : Entry)
    → t' ≡ mark_revoked t c
    → context a ≡ context c
    → entry_of t c ≡ some e
    → entry_of t' a ≡ some (record e { revoked = true })
entry_of_revoked t t' c a e new same issued = ground (arith, entry_of-mark_revoked t c a)

revoke_revokes :
    (t t' : Table) (a : ℕ)
    → revoke (context a) t ≡ ok t'
    → (s : Entry) × (entry_of t' a ≡ some s) × (s.revoked ≡ true)
revoke_revokes t t' a h =
    let (c, e, same, issued, new) = revoke_inv (context a) t t' h in
    (record e { revoked = true }, entry_of_revoked t t' c a e new same issued, refl)

revoke-IsNarrowing :
    (t t' : Table) (ctx : Context) → revoke ctx t ≡ ok t' → IsNarrowing t → IsNarrowing t'
revoke-IsNarrowing t t' ctx h n =
    let (c, e, same, issued, new) = revoke_inv ctx t t' h in rw new (mark_revoked-IsNarrowing t c n)

-- Once `revoke` of an issued context has returned, no later sequence of calls makes `require` return
-- for it or for any context derived from it, before or after.
pub revoke_is_final :
    (ks ls : List Call) (a c : ℕ) (t : Table) (v : GrantInput)
    → revoke (context a) (run ks []) ≡ ok t
    → Ancestor (run ls t) c a
    → require (context c) v (run ls t) ≢ ok tt
revoke_is_final ks ls a c t v revoked chain granted =
    let (r, hr, rev) = revoke_revokes (run ks []) t a revoked in
    let (s, hs, rev') = run-revoked ls t a r hr rev in
    let narrow =
      run-IsNarrowing ls t
        (revoke-IsNarrowing (run ks []) t (context a) revoked (run-IsNarrowing ks [] tt)) in
    let (g, e, _, issued, live, _) = require_inv (run ls t) c v granted in
    false≢true
      (sym live ∙ (revoked_ancestor_iff (run ls t) c e narrow issued).1 (a, s, chain, hs, rev'))

-- The calls that mint a context.
abbrev pub Mints : Call → Type 0
Mints (revoke_call ctx) = ⊥
Mints (issue_call p v) = Unit
Mints (attenuate_call ctx v) = Unit

require_older :
    (d : Entry) (t : Table) (c : ℕ) (v : GrantInput)
    → c < length t
    → require (context c) v (d ∷ t) ≡ require (context c) v t
unfolding require record_of
require_older d t c v h = ground (arith, entry_of_older d t c h, revoked_older d t c h)

-- Minting a context, or failing to, changes the answer of `require` for no context issued before.
pub minting_keeps_authority :
    (k : Call) (t : Table) (c : ℕ) (v : GrantInput)
    → Mints k
    → c < length t
    → require (context c) v (exec k t) ≡ require (context c) v t
unfolding exec
minting_keeps_authority (issue_call p w) t c v m h = elim (Result-cases (issue p w t)) [
  | inl ((t', n), e) ↦
      let (d, new, _, _, _, _) = issue_inv p w t t' n e in rw e (rw new (require_older d t c v h))
  | inr (f, e) ↦ rw e
]
minting_keeps_authority (attenuate_call ctx w) t c v m h = elim (Result-cases (attenuate ctx w t)) [
  | inl ((t', n), e) ↦
      let (p, d, _, new, _, _) = attenuate_inv ctx w t t' n e in
      rw e (rw new (require_older d t c v h))
  | inr (f, e) ↦ rw e
]
minting_keeps_authority (revoke_call ctx) t c v m h = absurd m

-- A context that `issue` or `attenuate` has just minted is authorized for exactly the grants that were
-- asked for.
pub minted_grants :
    (t t' : Table) (c : ℕ) (v : GrantsInput) (g : String × String)
    → ((p : Option Field) × (issue p v t ≡ ok (t', c)))
      ⊎ ((ctx : Context) × (attenuate ctx v t ≡ ok (t', c)))
    → (e : Entry) × (entry_of t' c ≡ some e) × ((holds e.grants g ≡ true) ↔ IsRequested g v)
minted_grants t t' c v g (inl (p, h)) =
    let (e, new, at, asked, _, _) = issue_inv p v t t' c h in
    (e, rw (new, at) (entry_of_newest e t), holds-normalize_grants v e.grants g asked)
minted_grants t t' c v g (inr (ctx, h)) =
    let (p, e, _, new, at, made) = attenuate_inv ctx v t t' c h in
    (e, rw (new, at) (entry_of_newest e t), holds-normalize_grants v e.grants g made.requested)
