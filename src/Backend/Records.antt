-- ===== src/Backend/Records.antt =====
-- What a write does to the records of src/backend/mock-backend.js.
use lagrange_images.Base.{
  ℕ, String, ◌+◌, ◌≡◌, ◌≢◌, refl, sym, ap, ◌∙◌, true, false, Option, some, if◌then◌else◌, or_else,
  arith, ◌&&◌, Bool-cases, inl, inr, ◌⊎◌, str_eq, eq_iff,
}
use lagrange_images.Base.Dict.{Dict, put, get-put}
use lagrange_images.Base.Result.{ok, err, Result-cases, is_ok}
use lagrange_images.Backend.{
  JsonHost, Stored, State, Failure, bucket_of, stored_at, version_at, is_stale, with_stored,
  with_bucket, Input, encode_record, decode_record, get_from, store_text, put_into,
  version_conflict,
}

-- A write to the records changes one of them.
pub stored_at-with_stored :
    (s : State) (c k : String) (e : Stored) (c' k' : String)
    → stored_at (with_stored s c k e) c' k'
      ≡ (if str_eq c c' && str_eq k k' then some e else stored_at s c' k')
unfolding stored_at
stored_at-with_stored s c k e c' k' = ground (
  arith,
  get-put c c' (put k e (bucket_of s c)) s.collections,
  get-put k k' e (bucket_of s c),
  eq_iff c c',
)

-- A bucket that is made for a write holds nothing.
pub stored_at-with_bucket :
    (s : State) (c c' k' : String) → stored_at (with_bucket s c) c' k' ≡ stored_at s c' k'
unfolding stored_at
stored_at-with_bucket s c c' k' =
    ground (arith, get-put c c' (bucket_of s c) s.collections, eq_iff c c')

module _ (host : JsonHost) where
  -- What a write with its text at hand does, by the version that is expected.
  pub put_into_cases :
      (s : State) (c k : String) (value : Input host) (expected : Option ℕ)
      → ((e : Failure) × (encode_record host value "_version" ≡ err e)
          × (put_into host s c k value expected ≡ (s, err e)))
        ⊎ ((text : String) × (encode_record host value "_version" ≡ ok text)
            × (put_into host s c k value expected ≡ store_text host s c k text expected))
  unfolding put_into
  put_into_cases s c k value expected = elim (Result-cases (encode_record host value "_version")) [
    | inl (text, h) ↦ inr (text, h, rw (h, put_into) refl)
    | inr (e, h) ↦ inl (e, h, rw (h, put_into) refl)
  ]

module _ (host : JsonHost) where
  -- Stale: an empty bucket may be made. Else: one record is written.
  pub store_text_cases :
      (s : State) (c k text : String) (expected : Option ℕ)
      → ((is_stale expected (version_at s c k) ≡ true)
          × (store_text host s c k text expected ≡ (
            with_bucket s c,
            err (version_conflict c k (or_else expected 0) (version_at s c k)),
          )))
        ⊎ ((is_stale expected (version_at s c k) ≡ false)
            × (store_text host s c k text expected ≡ (
              with_stored s c k record { version = version_at s c k + 1; text = text },
              ok (decode_record host record { version = version_at s c k + 1; text = text }),
            )))
  unfolding store_text
  store_text_cases s c k text expected = elim (Bool-cases (is_stale expected (version_at s c k))) [
    | inl h ↦ inl (h, rw (h, store_text) refl)
    | inr h ↦ inr (h, rw (h, store_text) refl)
  ]

version_at-with_stored_self :
    (s : State) (c k : String) (e : Stored) → version_at (with_stored s c k e) c k ≡ e.version
version_at-with_stored_self s c k e =
    ground (arith, stored_at-with_stored s c k e c k, eq_iff c c, eq_iff k k)

not_stale : (n actual : ℕ) → is_stale (some n) actual ≡ false → actual ≡ n
unfolding is_stale
not_stale n actual h = ground (arith, h)

module _ (host : JsonHost) where
  -- A write that expects a version returns only at that version, which it steps.
  pub put_into_expecting :
      (s : State) (c k : String) (value : Input host) (n : ℕ)
      → is_ok (put_into host s c k value (some n)).1 ≡ true
      → (version_at s c k ≡ n)
        × (version_at (put_into host s c k value (some n)).0 c k ≡ version_at s c k + 1)
  put_into_expecting s c k value n h = elim (put_into_cases host s c k value (some n)) [
    | inl (e, _, w) ↦ absurd (ground (arith, w, h))
    | inr (text, _, w) ↦ elim (store_text_cases host s c k text (some n)) [
      | inl (_, w') ↦ absurd (ground (arith, w, w', h))
      | inr (fresh, w') ↦
          let made = with_stored s c k record { version = version_at s c k + 1; text = text } in
          (
            not_stale n (version_at s c k) fresh,
            ap (λ r. version_at r.0 c k) (w ∙ w') ∙ version_at-with_stored_self s c k _,
          )
    ]
  ]

  -- A write that returns gives what a read at its key then gives, and every other record is as it
  -- was.
  pub get_from-put_into :
      (s : State) (c k : String) (value : Input host) (expected : Option ℕ) (r : Dict host.Value)
      → (put_into host s c k value expected).1 ≡ ok r
      → (get_from host (put_into host s c k value expected).0 c k ≡ some r)
        × ((c' k' : String)
            → ¬ ((c ≡ c') × (k ≡ k'))
            → get_from host (put_into host s c k value expected).0 c' k' ≡ get_from host s c' k')
  unfolding get_from
  get_from-put_into s c k value expected r h = elim (put_into_cases host s c k value expected) [
    | inl (e, _, w) ↦ absurd (ground (arith, w, h))
    | inr (text, _, w) ↦ elim (store_text_cases host s c k text expected) [
      | inl (_, w') ↦ absurd (ground (arith, w, w', h))
      | inr (_, w') ↦
          let e : Stored = record { version = version_at s c k + 1; text = text } in
          (
            ground (arith, w, w', h, stored_at-with_stored s c k e c k, eq_iff c c, eq_iff k k),
            λ c' k' apart. ground (
              arith,
              w,
              w',
              apart,
              stored_at-with_stored s c k e c' k',
              eq_iff c c',
              eq_iff k k',
            ),
          )
    ]
  ]

  -- A write of a record that can be encoded, with an expected version that is not the record's, is
  -- refused with both versions, and every record is as it was.
  pub put_into_stale :
      (s : State) (c k text : String) (value : Input host) (n : ℕ)
      → encode_record host value "_version" ≡ ok text
      → n ≢ version_at s c k
      → ((put_into host s c k value (some n)).1 ≡ err (version_conflict c k n (version_at s c k)))
        × ((c' k' : String)
            → stored_at (put_into host s c k value (some n)).0 c' k' ≡ stored_at s c' k')
  put_into_stale s c k text value n enc apart = elim (put_into_cases host s c k value (some n)) [
    | inl (e, bad, _) ↦ absurd (ground (arith, enc, bad))
    | inr (t, _, w) ↦ elim (store_text_cases host s c k t (some n)) [
      | inl (_, w') ↦ (
        ap (λ x. x.1) (w ∙ w'),
        λ c' k'. ap (λ x. stored_at x.0 c' k') (w ∙ w') ∙ stored_at-with_bucket s c c' k',
      )
      | inr (fresh, _) ↦ absurd (apart (sym (not_stale n (version_at s c k) fresh)))
    ]
  ]
