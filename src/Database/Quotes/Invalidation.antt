-- ===== src/Database/Quotes/Invalidation.antt =====
-- What an invalidation leaves payable.
use kiosk_project.Base.{
  subst, ℕ, ◌+◌, ◌≤◌, ◌≡◌, refl, String, str_eq, eq_iff, true, false, List, [], ◌∷◌, none, some,
  find, arith, Option-cases, Bool-cases, inl, inr, All, ◌==◌, length,
}
use kiosk_project.Database.Tables.{find-none, All-update_many, update_many, matching}
use kiosk_project.Database.Quotes.{
  PriceQuote, PricingStore, InvalidateInput, invalidate_session_pricing, is_active_of,
  is_retired_by, retire, clear_session, retire_found, is_active_status,
}

-- The active quotes of a session.
abbrev pub active_quotes : String → PricingStore → ℕ
active_quotes session_id s = matching (is_active_of session_id) s.quotes

none_active :
    (input : InvalidateInput) (s : PricingStore)
    → All (λ p. p.id ≡ input.session_id → p.active_quote_id ≡ none) (clear_session input s.sessions)
unfolding clear_session
none_active input s =
    All-update_many (λ p. p.id ≡ input.session_id → p.active_quote_id ≡ none)
      (λ p. str_eq p.id input.session_id) _ s.sessions (λ p e h. refl)
      (λ p e h. ground (arith, eq_iff p.id input.session_id))

-- After an invalidation the session's row names no active quote.
invalidate_session_pricing-unpriced :
    (s : PricingStore) (input : InvalidateInput)
    → All
        (λ p. p.id ≡ input.session_id → p.active_quote_id ≡ none)
        (invalidate_session_pricing s input).1.sessions
unfolding invalidate_session_pricing retire_found
invalidate_session_pricing-unpriced s input =
    elim (Option-cases (find (is_active_of input.session_id) s.quotes)) [
      | inl e ↦ rw e (none_active input s)
      | inr (q, e) ↦
          rw e (elim (Bool-cases (matching (is_retired_by input.session_id q.id) s.quotes == 1)) [
            | inl t ↦ rw t (none_active input s)
            | inr t ↦ rw t (none_active input s)
          ])
    ]

retired-active :
    (session_id quote_id : String) (q : PriceQuote)
    → is_active_of session_id q ≡ false
    → is_retired_by session_id quote_id q ≡ false
unfolding is_retired_by
retired-active session_id quote_id q e = ground (arith, e)

itself :
    (session_id : String) (q : PriceQuote)
    → is_active_of session_id q ≡ true
    → is_retired_by session_id q.id q ≡ true
unfolding is_retired_by
itself session_id q e = ground (arith, e, eq_iff q.id q.id)

no_longer :
    (input : InvalidateInput) (session_id : String) (q : PriceQuote)
    → is_active_of session_id (retire input q) ≡ false
unfolding is_active_of retire is_active_status
no_longer input session_id q = ground arith

-- A table without active quotes of the session.
idle :
    (input : InvalidateInput) (quote_id : String) (qs : List PriceQuote)
    → matching (is_active_of input.session_id) qs ≡ 0
    → (matching (is_retired_by input.session_id quote_id) qs ≡ 0)
      × (matching
            (is_active_of input.session_id)
            (update_many (is_retired_by input.session_id quote_id) (retire input) qs)
          ≡ 0)
unfolding matching update_many
idle input quote_id [] h = (refl, refl)
idle input quote_id (q ∷ qs) h =
    ground (arith, retired-active input.session_id quote_id q, idle input quote_id qs)

-- A table with one.
one_active :
    (input : InvalidateInput) (q : PriceQuote) (qs : List PriceQuote)
    → find (is_active_of input.session_id) qs ≡ some q
    → matching (is_active_of input.session_id) qs ≤ 1
    → (matching (is_active_of input.session_id) qs ≡ 1)
      × (matching (is_retired_by input.session_id q.id) qs ≡ 1)
      × (matching
            (is_active_of input.session_id)
            (update_many (is_retired_by input.session_id q.id) (retire input) qs)
          ≡ 0)
unfolding matching update_many
one_active input q [] e h = absurd (cc)
one_active input q (p ∷ qs) e h = elim (Bool-cases (is_active_of input.session_id p)) [
  | inl a ↦
      let pq : p ≡ q = ground arith in
      let zero_left : matching (is_active_of input.session_id) qs ≡ 0 = ground arith in
      let (no_hit, stays) = idle input q.id qs zero_left in
      let r : is_retired_by input.session_id q.id p ≡ true =
        subst (λ x. is_retired_by input.session_id x.id p ≡ true) pq
          (itself input.session_id p a) in
      rw (a, r, no_longer input input.session_id p)
        (omega (arith, zero_left), omega (arith, no_hit), stays)
  | inr a ↦
      rw (retired-active input.session_id q.id p a, a)
        (one_active input q qs (ground arith) (ground arith))
]

-- When a session has at most one active quote, as the database's index keeps it, an invalidation
-- leaves it none; and it writes an event and advances the sequence exactly when there was one.
pub invalidate_session_pricing-retires :
    (s : PricingStore) (input : InvalidateInput)
    → active_quotes input.session_id s ≤ 1
    → let (r, t) = invalidate_session_pricing s input in
      (active_quotes input.session_id t ≡ 0)
      × (r.next_sequence ≡ input.starting_sequence + active_quotes input.session_id s)
      × (length t.events ≡ length s.events + active_quotes input.session_id s)
unfolding invalidate_session_pricing retire_found
invalidate_session_pricing-retires s input h =
    elim (Option-cases (find (is_active_of input.session_id) s.quotes)) [
      | inl e ↦
          let z = find-none (is_active_of input.session_id) s.quotes e in
          rw e (z, omega (arith, z), omega (arith, z))
      | inr (q, e) ↦
          let (one, hit, idle_after) = one_active input q s.quotes e h in
          let t : (matching (is_retired_by input.session_id q.id) s.quotes == 1) ≡ true =
            rw hit refl in
          rw (e, t) (idle_after, omega (arith, one), omega (arith, one))
    ]
