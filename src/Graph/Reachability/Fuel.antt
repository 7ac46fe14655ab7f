-- ===== src/Graph/Reachability/Fuel.antt =====
-- The walk of src/graph/reachability.js ends: whatever it visits is queued once.
use lagrange_images.Base.{
  ℕ, String, zero, suc, ◌+◌, ◌≤◌, ◌≡◌, refl, ap, true, false, some, List, [], ◌∷◌, ◌++◌,
  if◌then◌else◌, str_eq, eq_iff, arith, Bool-cases, inl, inr, length,
}
use lagrange_images.Base.TextOrder.{member}
use lagrange_images.Graph.Rounds.{member-append}
use lagrange_images.Graph.Reachability.{visit}
use lagrange_images.Graph.Reachability.Walk.{total_walk}

-- How many names of a list are not seen.
abbrev pub unseen : List String → List String → ℕ
unseen [] seen = 0
unseen (u ∷ us) seen = (if member u seen then 0 else 1) + unseen us seen

unseen_le :
    (us : List String) (t : String) (seen : List String)
    → unseen us (seen ++ (t ∷ [])) ≤ unseen us seen
unfolding member
unseen_le [] t seen = omega arith
unseen_le (u ∷ us) t seen = ground (arith, unseen_le us t seen, member-append u seen (t ∷ []))

unseen_lt :
    (us : List String) (t : String) (seen : List String)
    → member t us ≡ true
    → member t seen ≡ false
    → suc (unseen us (seen ++ (t ∷ []))) ≤ unseen us seen
unfolding member
unseen_lt [] t seen h d = cc
unseen_lt (u ∷ us) t seen h d = elim (Bool-cases (str_eq u t)) [
  | inl here ↦
      ground (arith, here, d, eq_iff u t, unseen_le us t seen, member-append u seen (t ∷ []))
  | inr apart ↦ ground (
    arith,
    apart,
    h,
    unseen_lt us t seen (ground (arith, apart, h)) d,
    member-append u seen (t ∷ []),
  )
]

length-append_one : (q : List String) (t : String) → length (q ++ (t ∷ [])) ≡ suc (length q)
length-append_one [] t = refl
length-append_one (x ∷ q) t = ap suc (length-append_one q t)

-- No visit makes more work.
visit_le :
    (us ts queue seen : List String)
    → ((k : String) → member k ts ≡ true → member k us ≡ true)
    → length (visit ts queue seen).queue + unseen us (visit ts queue seen).seen
      ≤ length queue + unseen us seen
unfolding visit member
visit_le us [] queue seen h = omega arith
visit_le us (t ∷ ts) queue seen h = elim (Bool-cases (member t seen)) [
  | inl here ↦ rw (here, visit) (visit_le us ts queue seen (λ k m. h k (ground (arith, m))))
  | inr apart ↦
      rw (apart, visit)
        (ground (
          arith,
          visit_le us ts (queue ++ (t ∷ [])) (seen ++ (t ∷ [])) (λ k m. h k (ground (arith, m))),
          length-append_one queue t,
          unseen_lt us t seen (h t (ground (arith, eq_iff t t))) apart,
        ))
]

-- A walk among the names of a list has a result if its fuel is the length of the queue and the number
-- of the names that are not seen.
pub walk-ends :
    (n : ℕ) (next : String → List String) (us queue seen : List String)
    → ((x k : String) → member k (next x) ≡ true → member k us ≡ true)
    → length queue + unseen us seen ≤ n
    → (result : List String) × (total_walk n next queue seen ≡ some result)
unfolding total_walk
walk-ends zero next us [] seen h l = (seen, refl)
walk-ends (suc n) next us [] seen h l = (seen, refl)
walk-ends zero next us (x ∷ queue) seen h l = absurd (omega arith)
walk-ends (suc n) next us (x ∷ queue) seen h l =
    let p = visit (next x) queue seen in
    walk-ends n next us p.queue p.seen h (ground (arith, l, visit_le us (next x) queue seen (h x)))

pub unseen-length : (us seen : List String) → unseen us seen ≤ length us
unseen-length [] seen = omega arith
unseen-length (u ∷ us) seen = ground (arith, unseen-length us seen)
