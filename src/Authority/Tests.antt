-- ===== src/Authority/Tests.antt =====
-- A root context, one derived from it and a revocation; the theorems at this run.
use lagrange_images.Base.{◌≡◌, ◌≢◌, ◌↔◌, refl, true, false, some, none, [], ◌∷◌, String, List}
use lagrange_images.Base.Dict.{get, put}
use lagrange_images.Base.Result.{ok}
use lagrange_images.Support.TupleMap.{
  set, level_set, level_get, contains, entries, walk_with, prefixed,
}
use lagrange_images.Authority.{
  Entry, Table, GrantInput, GrantsInput, fields, array, text, context, issue, attenuate, revoke,
  require, entry_of, revoked_ancestor, mark_revoked, record_of, normalize_grant, normalize_grants,
  collect, check_narrow, Grants, no_grants, add,
}
use lagrange_images.Authority.Chain.{Ancestor, self, above, IsWithin}
use lagrange_images.Authority.Runs.{Call, issue_call, attenuate_call, exec, run}
use lagrange_images.Authority.Safety.{
  derived_never_widens, require_iff, IsAuthorized, revoke_is_final,
}

abbrev grant : String → String → GrantInput
grant operation resource = fields (("operation", text operation) ∷ ("resource", text resource) ∷ [])

abbrev read_x : GrantInput
read_x = grant "object/read" "x"

abbrev root_grants : GrantsInput
root_grants = array (read_x ∷ grant "object/write" "x" ∷ [])

abbrev calls : List Call
calls =
    issue_call (some (text "host")) root_grants
    ∷ attenuate_call (context 0) (array (read_x ∷ []))
    ∷ []

abbrev table : Table
table = run calls []

abbrev widening : List Call
widening = attenuate_call (context 1) root_grants ∷ []

abbrev both_grants : Grants
both_grants = add ("object/write", "x") (add ("object/read", "x") no_grants)

abbrev read_grant : Grants
read_grant = add ("object/read", "x") no_grants

abbrev root : Entry
root = record { principal = "host"; grants = both_grants; parent = none; revoked = false }

abbrev child : Entry
child = record { principal = "host"; grants = read_grant; parent = some 0; revoked = false }

table_lem : table ≡ child ∷ root ∷ []
unfolding run exec issue attenuate normalize_grants collect normalize_grant get set level_set
    level_get put record_of entry_of revoked_ancestor check_narrow contains entries walk_with
    prefixed
table_lem = refl

-- A derived context cannot be widened.
widening_refused : run widening table ≡ table
unfolding run exec issue attenuate normalize_grants collect normalize_grant get set level_set
    level_get put record_of entry_of revoked_ancestor check_narrow contains entries walk_with
    prefixed
widening_refused = refl

child_issued : entry_of table 1 ≡ some child
unfolding entry_of
child_issued = rw table_lem

root_issued : entry_of table 0 ≡ some root
unfolding entry_of
root_issued = rw table_lem

child_below_root : Ancestor table 1 0
child_below_root = above child 0 child_issued refl (self root root_issued)

derived_never_widens_example : IsWithin read_grant both_grants
derived_never_widens_example =
    derived_never_widens calls 1 0 child root child_below_root child_issued root_issued

require_iff_example :
    (require (context 1) read_x table ≡ ok tt)
    ↔ ((g : String × String) × (normalize_grant read_x ≡ ok g) × IsAuthorized table 1 g)
require_iff_example = require_iff calls 1 read_x

abbrev revoked_table : Table
revoked_table = mark_revoked table 0

root_revoked : revoke (context 0) (run calls []) ≡ ok revoked_table
unfolding revoke mark_revoked run exec issue attenuate normalize_grants collect normalize_grant get
    set level_set level_get put record_of entry_of revoked_ancestor check_narrow contains entries
    walk_with prefixed
root_revoked = refl

child_below_revoked : Ancestor (run [] revoked_table) 1 0
unfolding run mark_revoked entry_of
child_below_revoked =
    above child 0 (rw table_lem) refl (self (record root { revoked = true }) (rw table_lem))

revoke_is_final_example : require (context 1) read_x (run [] revoked_table) ≢ ok tt
revoke_is_final_example =
    revoke_is_final calls [] 0 1 revoked_table read_x root_revoked child_below_revoked

root_minted : issue (some (text "host")) root_grants [] ≡ ok (root ∷ [], 0)
unfolding issue normalize_grants collect normalize_grant get set level_set level_get put
root_minted = refl
