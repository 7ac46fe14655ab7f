-- ===== src/Graph/Reachability/Walk.antt =====
-- The walk of src/graph/reachability.js sees what is reached, and nothing else.
use lagrange_images.Base.{
  ℕ, String, zero, suc, ◌≡◌, ◌⊎◌, sym, ap, ◌∙◌, subst, true, not, ◌&&◌, ◌||◌, Option, none, some,
  List, [], ◌∷◌, ◌++◌, str_eq, eq_iff, arith, ◌↔◌, Bool-cases, inl, inr, eq_of_some,
}
use lagrange_images.Base.TextOrder.{member}
use lagrange_images.Graph.Rounds.{member-append}
use lagrange_images.Base.Result.{Result, err, ok, eq_of_ok, Result-cases}
use lagrange_images.Graph.Reachability.{IndexError, visit, walk}

-- The loop where everything can be iterated.
unfoldable pub total_walk :
    ℕ → (String → List String) → List String → List String → Option (List String)
total_walk zero next [] seen = some seen
total_walk zero next (x ∷ queue) seen = none
total_walk (suc n) next [] seen = some seen
total_walk (suc n) next (x ∷ queue) seen =
    let p = visit (next x) queue seen in total_walk n next p.queue p.seen

-- What is next, where what cannot be iterated has nothing next.
abbrev pub steps : (String → Result IndexError (List String)) → String → List String
steps next x = elim (next x) [ err e ↦ [] | ok ts ↦ ts ]

seen-visit :
    (k : String) (ts queue seen : List String)
    → member k (visit ts queue seen).seen ≡ (member k seen || member k ts)
unfolding visit member
seen-visit k [] queue seen = ground arith
seen-visit k (t ∷ ts) queue seen = elim (Bool-cases (member t seen)) [
  | inl here ↦ rw (here, visit) (ground (arith, seen-visit k ts queue seen, here, eq_iff t k))
  | inr apart ↦
      rw (apart, visit)
        (ground (
          arith,
          seen-visit k ts (queue ++ (t ∷ [])) (seen ++ (t ∷ [])),
          member-append k seen (t ∷ []),
          eq_iff t k,
        ))
]

queue-visit :
    (k : String) (ts queue seen : List String)
    → member k (visit ts queue seen).queue
      ≡ (member k queue || (member k ts && not (member k seen)))
unfolding visit member
queue-visit k [] queue seen = ground arith
queue-visit k (t ∷ ts) queue seen = elim (Bool-cases (member t seen)) [
  | inl here ↦ rw (here, visit) (ground (arith, queue-visit k ts queue seen, here, eq_iff t k))
  | inr apart ↦
      rw (apart, visit)
        (ground (
          arith,
          queue-visit k ts (queue ++ (t ∷ [])) (seen ++ (t ∷ [])),
          member-append k seen (t ∷ []),
          member-append k queue (t ∷ []),
          apart,
          eq_iff t k,
        ))
]

-- A walk with a result met nothing that cannot be iterated.
pub walk_total :
    (next : String → Result IndexError (List String)) (n : ℕ) (queue seen found : List String)
    → walk n next queue seen ≡ ok found
    → total_walk n (steps next) queue seen ≡ some found
unfolding walk total_walk
walk_total next zero [] seen found h = ap some (eq_of_ok h)
walk_total next zero (x ∷ queue) seen found h = cc
walk_total next (suc n) [] seen found h = ap some (eq_of_ok h)
walk_total next (suc n) (x ∷ queue) seen found h = elim (Result-cases (next x)) [
  | inl (ts, e) ↦
      let p = visit ts queue seen in
      rw (e, steps, total_walk) (walk_total next n p.queue p.seen found (rw (e, walk) at h))
  | inr (e, p) ↦ absurd (ground (arith, rw (p, walk) at h))
]

-- A walk among names that can be iterated gives what the walk without errors gives.
pub walk_iterable :
    (next : String → Result IndexError (List String)) (P : String → Type 0)
    → ((x : String) → P x → (ts : List String) × (next x ≡ ok ts))
    → ((x k : String) → P x → member k (steps next x) ≡ true → P k)
    → (n : ℕ) (queue seen found : List String) → ((x : String) → member x queue ≡ true → P x)
    → total_walk n (steps next) queue seen ≡ some found
    → walk n next queue seen ≡ ok found
unfolding walk total_walk member
walk_iterable next P iterable closed zero [] seen found hq h = ap ok (eq_of_some h)
walk_iterable next P iterable closed zero (x ∷ queue) seen found hq h = cc
walk_iterable next P iterable closed (suc n) [] seen found hq h = ap ok (eq_of_some h)
walk_iterable next P iterable closed (suc n) (x ∷ queue) seen found hq h =
    let here = hq x (ground (arith, eq_iff x x)) in
    let (ts, e) = iterable x here in
    let p = visit ts queue seen in
    rw (e, walk)
      (walk_iterable next P iterable closed n p.queue p.seen found
        (λ j q. elim (Bool-cases (member j queue)) [
          | inl old ↦ hq j (ground (arith, old))
          | inr new ↦
              closed x j here (rw (e, steps) (ground (arith, q, new, queue-visit j ts queue seen)))
        ])
        (rw (e, steps, total_walk) at h))

-- Reached from a start along the steps that are followed.
pub data Reaches (next : String → List String) (starts : List String) : String → Type 0 where
  start : (k : String) → member k starts ≡ true → Reaches next starts k
  step : (j k : String) → Reaches next starts j → member k (next j) ≡ true → Reaches next starts k

module _ (next : String → List String) where
  -- Each name seen is still queued, or all that follows from it is seen.
  abbrev IsOpen : List String → List String → Type 0
  IsOpen queue seen =
      (x : String)
      → member x seen ≡ true
      → (member x queue ≡ true) ⊎ ((k : String) → member k (next x) ≡ true → member k seen ≡ true)

  visit-IsOpen :
      (x : String) (queue seen : List String)
      → IsOpen (x ∷ queue) seen
      → IsOpen (visit (next x) queue seen).queue (visit (next x) queue seen).seen
  unfolding member
  visit-IsOpen x queue seen pending y h = elim (Bool-cases (member y seen)) [
    | inl old ↦ elim (pending y old) [
      | inl queued ↦ elim (Bool-cases (str_eq x y)) [
        | inl now ↦ inr (λ k n.
            let m = subst (λ z. member k (next z) ≡ true) (sym ((eq_iff x y).0 now)) n in
            ground (arith, m, seen-visit k (next x) queue seen))
        | inr apart ↦ inl (ground (arith, queued, apart, queue-visit y (next x) queue seen))
      ]
      | inr followed ↦ inr (λ k n. ground (arith, followed k n, seen-visit k (next x) queue seen))
    ]
    | inr fresh ↦ inl (
        ground
          (arith, h, fresh, seen-visit y (next x) queue seen, queue-visit y (next x) queue seen))
  ]

  walked :
      (seen result : List String)
      → some seen ≡ some result
      → IsOpen [] seen
      → ((k : String) → member k seen ≡ true → member k result ≡ true)
        × ((x k : String)
            → member x result ≡ true
            → member k (next x) ≡ true
            → member k result ≡ true)
  unfolding member
  walked seen result h pending =
      let p = eq_of_some h in
      (
        λ k s. sym (ap (member k) p) ∙ s,
        λ x k m n. elim (pending x (ap (member x) p ∙ m)) [
          | inl queued ↦ absurd (ground (arith, queued))
          | inr followed ↦ sym (ap (member k) p) ∙ followed k n
        ],
      )

  reached :
      (starts result : List String)
      → ((k : String) → member k starts ≡ true → member k result ≡ true)
      → ((x k : String)
          → member x result ≡ true
          → member k (next x) ≡ true
          → member k result ≡ true)
      → (k : String) → Reaches next starts k
      → member k result ≡ true
  reached starts result keeps closed k (start _ m) = keeps k m
  reached starts result keeps closed k (step j _ r m) =
      closed j k (reached starts result keeps closed j r) m

  -- The result holds what was seen, and all that follows from what it holds.
  walk-IsClosed :
      (n : ℕ) (queue seen result : List String)
      → total_walk n next queue seen ≡ some result
      → IsOpen queue seen
      → ((k : String) → member k seen ≡ true → member k result ≡ true)
        × ((x k : String)
            → member x result ≡ true
            → member k (next x) ≡ true
            → member k result ≡ true)
  unfolding total_walk member
  walk-IsClosed zero [] seen result h pending = walked seen result h pending
  walk-IsClosed (suc n) [] seen result h pending = walked seen result h pending
  walk-IsClosed zero (x ∷ queue) seen result h pending = cc
  walk-IsClosed (suc n) (x ∷ queue) seen result h pending =
      let p = visit (next x) queue seen in
      let (keeps, closed) =
        walk-IsClosed n p.queue p.seen result h (visit-IsOpen x queue seen pending) in
      (λ k s. keeps k (ground (arith, s, seen-visit k (next x) queue seen)), closed)

  walk-Reaches :
      (starts : List String) (n : ℕ) (queue seen result : List String)
      → total_walk n next queue seen ≡ some result
      → ((k : String) → member k queue ≡ true → Reaches next starts k)
      → ((k : String) → member k seen ≡ true → Reaches next starts k)
      → (k : String) → member k result ≡ true
      → Reaches next starts k
  unfolding total_walk member
  walk-Reaches starts zero [] seen result h hq hs k m = hs k (ap (member k) (eq_of_some h) ∙ m)
  walk-Reaches starts (suc n) [] seen result h hq hs k m = hs k (ap (member k) (eq_of_some h) ∙ m)
  walk-Reaches starts zero (x ∷ queue) seen result h hq hs k m = cc
  walk-Reaches starts (suc n) (x ∷ queue) seen result h hq hs k m =
      let p = visit (next x) queue seen in
      let head = hq x (ground (arith, eq_iff x x)) in
      walk-Reaches starts n p.queue p.seen result h
        (λ j q. elim (Bool-cases (member j queue)) [
          | inl old ↦ hq j (ground (arith, old))
          | inr new ↦ step x j head (ground (arith, q, new, queue-visit j (next x) queue seen))
        ])
        (λ j q. elim (Bool-cases (member j seen)) [
          | inl old ↦ hs j old
          | inr new ↦ step x j head (ground (arith, q, new, seen-visit j (next x) queue seen))
        ])
        k m

  -- A walk from starts that count as seen sees what is reached from them, and nothing else.
  pub walk_iff :
      (n : ℕ) (starts result : List String)
      → total_walk n next starts starts ≡ some result
      → (k : String) → (member k result ≡ true) ↔ Reaches next starts k
  walk_iff n starts result h k =
      let (keeps, closed) = walk-IsClosed n starts starts result h (λ x m. inl m) in
      (
        walk-Reaches starts n starts starts result h (λ j m. start j m) (λ j m. start j m) k,
        reached starts result keeps closed k,
      )

  -- A walk from one start that does not count as seen sees what one or more steps lead to.
  pub walk_steps_iff :
      (n : ℕ) (x : String) (result : List String)
      → total_walk n next (x ∷ []) [] ≡ some result
      → (k : String) → (member k result ≡ true) ↔ Reaches next (next x) k
  unfolding total_walk member
  walk_steps_iff zero x result h k = cc
  walk_steps_iff (suc n) x result h k =
      let p = visit (next x) [] [] in
      let (keeps, closed) =
        walk-IsClosed n p.queue p.seen result h (visit-IsOpen x [] [] (λ y m. cc)) in
      (
        walk-Reaches (next x) n p.queue p.seen result h
            (λ j q. start j (ground (arith, q, queue-visit j (next x) [] [])))
            (λ j q. start j (ground (arith, q, seen-visit j (next x) [] []))) k,
        reached (next x) result (λ j m. keeps j (ground (arith, m, seen-visit j (next x) [] [])))
            closed k,
      )
