-- ===== src/Allocator/Hints.antt =====
-- `get_new_id` with a hint, as the OVS dataplane driver calls it for group buckets: the hint is
-- granted if it is not allocated, and neither MAX nor the queue of released identifiers is
-- consulted.
use networking_bagpipe_l.Common.{
  ℕ, suc, ◌≤◌, ◌<◌, ◌≡◌, Bool, true, false, ◌||◌, none, some, List, ◌∷◌, arith, eqb, ℕ_discrete,
}
use networking_bagpipe_l.Allocator.{
  IdAllocator, ok, keys, is_allocated, put, allocate, get_unhinted, get_new_id,
}
use networking_bagpipe_l.Allocator.Counting.{next_free-first, contains-put}

module _ {D : Type 0} where
  -- The part of the invariant that hints keep: the number that comes next is free.
  abbrev pub IsReady : IdAllocator D → Type 0
  IsReady a = is_allocated a.current_id a ≡ false

  -- Where current_id is free, a hint that is not allocated is the identifier that is returned; it is allocated, all others
  -- are as before, and the number that comes next is free again, whatever the hint was.
  pub get_new_id-hint :
      (a : IdAllocator D) (d : D) (hint : ℕ)
      → IsReady a
      → is_allocated hint a ≡ false
      → (a' : IdAllocator D) × (get_new_id a d (some hint) ≡ ok (hint, a'))
        × IsReady a'
        × ((j : ℕ) → is_allocated j a' ≡ (eqb ℕ_discrete j hint || is_allocated j a))
  unfolding get_new_id ℕ_discrete
  get_new_id-hint a d hint ready free =
      let ids = put hint d a.allocated_ids in
      let (next, _, _) = next_free-first (suc a.current_id) (keys ids) in
      (
        (allocate a hint d true).1,
        rw free,
        ground (arith, next, contains-put a.current_id hint d a.allocated_ids),
        λ j. contains-put j hint d a.allocated_ids,
      )

  current_id-allocate :
      (a : IdAllocator D) (i : ℕ) (d : D) (u : Bool)
      → a.current_id ≤ (allocate a i d u).1.current_id
  unfolding allocate
  current_id-allocate a i d u =
      let (_, above, _) = next_free-first (suc a.current_id) (keys (put i d a.allocated_ids)) in
      ground (arith, above)

  get_unhinted-reuse :
      (a : IdAllocator D) (d : D) (i : ℕ) (is : List ℕ)
      → a.max_id < a.current_id
      → a.released_ids ≡ i ∷ is
      → get_unhinted a d ≡ ok (allocate (record a { released_ids = is }) i d false)
  unfolding get_unhinted
  get_unhinted-reuse a d i is full queue = ground arith

  -- A hint that was released stays in the queue of released identifiers. If it is the first there,
  -- and current_id is above MAX, the next call without a hint returns that identifier although it is allocated:
  -- two users then hold the same one.
  pub get_new_id-hint_twice :
      (a : IdAllocator D) (d₁ d₂ : D) (hint : ℕ) (is : List ℕ)
      → a.max_id < a.current_id
      → a.released_ids ≡ hint ∷ is
      → is_allocated hint a ≡ false
      → (a₁ a₂ : IdAllocator D) × (get_new_id a d₁ (some hint) ≡ ok (hint, a₁))
        × (is_allocated hint a₁ ≡ true)
        × (get_new_id a₁ d₂ none ≡ ok (hint, a₂))
  unfolding get_new_id
  get_new_id-hint_twice a d₁ d₂ hint is full queue free =
      let a₁ = (allocate a hint d₁ true).1 in
      (
        a₁,
        (allocate (record a₁ { released_ids = is }) hint d₂ false).1,
        rw free,
        ground (arith, contains-put hint hint d₁ a.allocated_ids),
        get_unhinted-reuse a₁ d₂ hint is (omega (arith, current_id-allocate a hint d₁ true)) queue,
      )
