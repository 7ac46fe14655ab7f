-- ===== src/Authority.antt =====
-- src/authority/authority-service.js: transient execution authority. A context is an identity with a
-- record that only the service reads; what it may do is a set of exact {operation, resource} pairs.
-- The proofs are in the modules below.
pub mod Chain
pub mod Runs
pub mod Grants
pub mod Safety
mod Tests
use lagrange_images.Base.{
  ℕ, String, ◌≡◌, Bool, true, false, not, ◌&&◌, ◌||◌, Option, none, some, List, [], ◌∷◌, length,
  ◌==◌, str_eq, is_some, if◌then◌else◌,
}
use lagrange_images.Base.Dict.{Dict, get}
use lagrange_images.Base.Result.{Result, ok, err, ◌>>=◌, ◌>>◌, ensure}
use lagrange_images.Support.TupleMap
use lagrange_images.Support.TupleMap.{TupleMap}

-- What a caller may hand over as a grant: anything, and if it is a record, its properties, each a
-- text or something else.
pub data Field : Type 0 where
  text : String → Field
  other_value : Field

pub data GrantInput : Type 0 where
  not_record : GrantInput
  fields : Dict Field → GrantInput

-- The value handed over for a list of grants.
pub data GrantsInput : Type 0 where
  not_array : GrantsInput
  array : List GrantInput → GrantsInput

pub data Failure : Type 0 where
  bad_text bad_grant bad_grants : Failure
  not_context not_issued : Failure
  attenuates_revoked : Failure
  widens : String × String → Failure
  authority_revoked : String × String → Failure
  not_authorized : String × String → Failure

unfoldable pub required_text : Option Field → Result Failure String
required_text (some (text t)) = if str_eq t "" then err bad_text else ok t
required_text (some other_value) = err bad_text
required_text none = err bad_text

-- `normalizeGrant`: exactly the keys operation and resource, both non-empty texts.
unfoldable pub normalize_grant : GrantInput → Result Failure (String × String)
unfolding required_text
normalize_grant not_record = err bad_grant
normalize_grant (fields m) = do
  ensure (length m == 2 && is_some (get "operation" m) && is_some (get "resource" m)) bad_grant
  operation ← required_text (get "operation" m)
  resource ← required_text (get "resource" m)
  ok (operation, resource)

-- The tuple set of arity 2 that holds a context's grants; every member has the value `PRESENT`.
abbrev pub Grants : Type 0
Grants = TupleMap 1 (Unit {0})

abbrev pub no_grants : Grants
no_grants = TupleMap.empty (Unit {0}) 1

abbrev pub add : String × String → Grants → Grants
add g gs = TupleMap.set (Unit {0}) 1 g tt gs

abbrev pub holds : Grants → String × String → Bool
holds gs g = TupleMap.contains (Unit {0}) 1 g gs

unfoldable pub collect : Grants → List GrantInput → Result Failure Grants
collect gs [] = ok gs
collect gs (v ∷ vs) = elim (normalize_grant v) [ ok g ↦ collect (add g gs) vs | err e ↦ err e ]

unfoldable pub normalize_grants : GrantsInput → Result Failure Grants
normalize_grants not_array = err bad_grants
normalize_grants (array vs) = collect no_grants vs

-- The record of a context.
pub record Entry : Type 0 where
  pub principal : String
  pub grants : Grants
  pub parent : Option ℕ
  pub revoked : Bool

-- The private table, the newest context first. A context's identity is the number of contexts that
-- the service had minted before it.
abbrev pub Table : Type 0
Table = List Entry

unfoldable pub entry_of : Table → ℕ → Option Entry
entry_of [] c = none
entry_of (e ∷ older) c = if length older == c then some e else entry_of older c

-- `revokedAncestor`: up the parents, each of which is older than its child.
unfoldable pub revoked_ancestor : Table → ℕ → Bool
revoked_ancestor [] c = false
revoked_ancestor (e ∷ older) c = elim (length older == c) [
  | true ↦ e.revoked || elim e.parent [ none ↦ false | some p ↦ revoked_ancestor older p ]
  | false ↦ revoked_ancestor older c
]

-- What a caller may hand over as a context.
pub data Context : Type 0 where
  not_instance : Context
  context : ℕ → Context

unfoldable pub record_of : Table → Context → Result Failure (ℕ × Entry)
record_of t not_instance = err not_context
record_of t (context c) = elim (entry_of t c) [ none ↦ err not_issued | some e ↦ ok (c, e) ]

unfoldable pub issue : Option Field → GrantsInput → Table → Result Failure (Table × ℕ)
issue principal grants t = do
  name ← required_text principal
  gs ← normalize_grants grants
  ok (record { principal = name; grants = gs; parent = none; revoked = false } ∷ t, length t)

-- The first requested grant that the parent does not hold is the error.
unfoldable pub check_narrow :
    Grants → List ((String × String) × Unit {0}) → Result Failure (Unit {0})
check_narrow held [] = ok tt
check_narrow held ((g, _) ∷ gs) =
    let rest = check_narrow held gs in if holds held g then rest else err (widens g)

unfoldable pub attenuate : Context → GrantsInput → Table → Result Failure (Table × ℕ)
attenuate ctx grants t = do
  found ← record_of t ctx
  ensure (not (revoked_ancestor t found.0)) attenuates_revoked
  requested ← normalize_grants grants
  check_narrow found.1.grants (TupleMap.entries (Unit {0}) 1 requested.root)
  ok (
    record {
      principal = found.1.principal;
      grants = requested;
      parent = some found.0;
      revoked = false;
    }
        ∷ t,
    length t,
  )

unfoldable pub mark_revoked : Table → ℕ → Table
mark_revoked [] c = []
mark_revoked (e ∷ older) c =
    if length older == c then record e { revoked = true } ∷ older else e ∷ mark_revoked older c

unfoldable pub revoke : Context → Table → Result Failure Table
revoke ctx t = do found ← record_of t ctx; ok (mark_revoked t found.0)

unfoldable pub principal_of : Context → Table → Result Failure String
principal_of ctx t = do found ← record_of t ctx; ok found.1.principal

unfoldable pub require : Context → GrantInput → Table → Result Failure (Unit {0})
require ctx demand t = do
  wanted ← normalize_grant demand
  found ← record_of t ctx
  ensure (not (revoked_ancestor t found.0)) (authority_revoked wanted)
  ensure (holds found.1.grants wanted) (not_authorized wanted)
