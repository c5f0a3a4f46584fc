-- ===== src/Allocator/Invariant.antt =====
-- The allocators used without a hint (labels, route distinguishers, group identifiers): the
-- invariant that `get_new_id` and `release` keep, and what each of them does.
use networking_bagpipe_l.Common.{
  ℕ, suc, ◌≤◌, ◌<◌, ◌≡◌, refl, Bool, true, false, ◌&&◌, ◌||◌, not, none, List, [], ◌∷◌, arith, leb,
  ltb, eqb, contains, ℕ_discrete, Bool-cases, inl, inr, IsDistinct, contains-append,
  append-IsDistinct, subst,
}
use networking_bagpipe_l.Allocator.{
  IdAllocator, max_id_reached, not_allocated, Result, ok, raise, keys, is_allocated, put, init,
  allocate, reuse, get_new_id, release,
}
use networking_bagpipe_l.Allocator.Counting.{
  contains-put, contains-del, put-IsDistinct, del-IsDistinct,
}

module _ {D : Type 0} where
  abbrev pub is_released : ℕ → IdAllocator D → Bool
  is_released i a = contains ℕ_discrete i a.released_ids

  -- The numbers from MIN up to the current one are the allocated and the released identifiers, and
  -- nothing is both.
  pub record IsValid (a : IdAllocator D) : Type 0 where
    pub low : a.min_id ≤ a.current_id
    pub high : a.current_id ≤ suc a.max_id
    pub keys_distinct : IsDistinct ℕ_discrete (keys a.allocated_ids)
    pub released_distinct : IsDistinct ℕ_discrete a.released_ids
    pub covered :
        (i : ℕ) → (is_allocated i a || is_released i a) ≡ (leb a.min_id i && ltb i a.current_id)
    pub disjoint : (i : ℕ) → (is_allocated i a && is_released i a) ≡ false

  pub init-IsValid : (lo hi : ℕ) → lo ≤ suc hi → IsValid (init lo hi)
  unfolding init is_allocated
  init-IsValid lo hi h = record {
    low = omega arith;
    high = h;
    keys_distinct = tt;
    released_distinct = tt;
    covered = λ i. ground arith;
    disjoint = λ i. refl;
  }

  allocate-is_allocated :
      (a : IdAllocator D) (i : ℕ) (d : D) (u : Bool) (j : ℕ)
      → is_allocated j (allocate a i d u).1 ≡ (eqb ℕ_discrete j i || is_allocated j a)
  unfolding allocate is_allocated
  allocate-is_allocated a i d u j = contains-put j i d a.allocated_ids

  -- After the current number has been taken, the next one is the number after it.
  fresh-current :
      (a : IdAllocator D) (d : D)
      → IsValid a
      → (allocate a a.current_id d true).1.current_id ≡ suc a.current_id
  unfolding allocate is_allocated
  fresh-current a d v =
      let c = a.current_id in
      let ks = keys (put c d a.allocated_ids) in
      let new : contains ℕ_discrete (suc c) ks ≡ false =
        ground (arith, contains-put (suc c) c d a.allocated_ids, v.covered (suc c)) in
      rw new (ground arith)

  -- what `get_new_id` does to the set of allocated identifiers
  abbrev pub Takes : IdAllocator D → D → ℕ → IdAllocator D → Type 0
  Takes a d i a' =
      IsValid a'
      × (is_allocated i a ≡ false)
      × (a.min_id ≤ i)
      × (i ≤ a.max_id)
      × ((j : ℕ) → is_allocated j a' ≡ (eqb ℕ_discrete j i || is_allocated j a))
      × (a'.min_id ≡ a.min_id)
      × (a'.max_id ≡ a.max_id)

  allocate-Takes_fresh :
      (a : IdAllocator D) (d : D)
      → IsValid a
      → a.current_id ≤ a.max_id
      → Takes a d a.current_id (allocate a a.current_id d true).1
  unfolding allocate is_allocated
  allocate-Takes_fresh a d v h =
      let c = a.current_id in
      let next = fresh-current a d v in
      (
        record {
          low = omega (arith, v.low);
          high = omega arith;
          keys_distinct = put-IsDistinct c d a.allocated_ids v.keys_distinct;
          released_distinct = v.released_distinct;
          covered =
              λ i. ground (arith, next, contains-put i c d a.allocated_ids, v.covered i, v.low);
          disjoint =
              λ i. ground (arith, contains-put i c d a.allocated_ids, v.covered i, v.disjoint i);
        },
        ground (arith, v.covered c),
        v.low,
        h,
        λ j. contains-put j c d a.allocated_ids,
        refl,
        refl,
      )

  released_split :
      (a : IdAllocator D) (i : ℕ) (is : List ℕ)
      → a.released_ids ≡ i ∷ is
      → (j : ℕ) → is_released j a ≡ (eqb ℕ_discrete j i || contains ℕ_discrete j is)
  unfolding contains
  released_split a i is e j = rw e

  reuse-Takes :
      (a : IdAllocator D) (d : D) (i : ℕ) (is : List ℕ)
      → IsValid a
      → a.released_ids ≡ i ∷ is
      → Takes a d i (allocate (record a { released_ids = is }) i d false).1
  unfolding allocate is_allocated ℕ_discrete
  reuse-Takes a d i is v e =
      let m = released_split a i is e in
      let rd = subst (IsDistinct ℕ_discrete) e v.released_distinct in
      (
        record {
          low = v.low;
          high = v.high;
          keys_distinct = put-IsDistinct i d a.allocated_ids v.keys_distinct;
          released_distinct = rd.1;
          covered = λ j. ground (arith, contains-put j i d a.allocated_ids, m j, v.covered j);
          disjoint =
              λ j. ground (arith, contains-put j i d a.allocated_ids, m j, v.disjoint j, rd.0);
        },
        ground (arith, m i, v.disjoint i),
        ground (arith, m i, v.covered i),
        ground (arith, m i, v.covered i, v.high),
        λ j. contains-put j i d a.allocated_ids,
        refl,
        refl,
      )

  -- what a call of `get_new_id` may do, with the new state on success
  abbrev pub GetOutcome : IdAllocator D → D → Result (ℕ × IdAllocator D) → Type 0
  GetOutcome a d (ok (i, a')) = Takes a d i a'
  GetOutcome a d (raise e) =
      (e ≡ max_id_reached a.max_id)
      × ((i : ℕ) → a.min_id ≤ i → i ≤ a.max_id → is_allocated i a ≡ true)

  reuse-GetOutcome :
      (a : IdAllocator D) (d : D) (is : List ℕ)
      → IsValid a
      → a.max_id < a.current_id
      → a.released_ids ≡ is
      → GetOutcome a d (reuse a d is)
  unfolding reuse contains
  reuse-GetOutcome a d [] v h e = (
    refl,
    λ i lo hi.
        let none_released : is_released i a ≡ false = rw e in
        ground (arith, v.covered i, none_released),
  )
  reuse-GetOutcome a d (i ∷ is) v h e = reuse-Takes a d i is v e

  -- In a valid state, a call without a hint keeps the invariant and hands out an identifier between MIN and MAX that
  -- was not allocated, allocates that one and no other; it raises `MaxIDReached` only if every
  -- identifier between MIN and MAX is allocated.
  pub get_new_id-GetOutcome :
      (a : IdAllocator D) (d : D) → IsValid a → GetOutcome a d (get_new_id a d none)
  unfolding get_new_id
  get_new_id-GetOutcome a d v = elim (Bool-cases (ltb a.max_id a.current_id)) [
    | inl full ↦ rw full (reuse-GetOutcome a d a.released_ids v (ground arith) refl)
    | inr room ↦ rw room (allocate-Takes_fresh a d v (ground arith))
  ]

  -- what a call of `release` may do
  abbrev pub ReleaseOutcome : IdAllocator D → ℕ → Result (IdAllocator D) → Type 0
  ReleaseOutcome a i (ok a') =
      IsValid a'
      × (is_allocated i a ≡ true)
      × ((j : ℕ) → is_allocated j a' ≡ (is_allocated j a && not (eqb ℕ_discrete j i)))
      × (a'.min_id ≡ a.min_id)
      × (a'.max_id ≡ a.max_id)
  ReleaseOutcome a i (raise e) = (e ≡ not_allocated i) × (is_allocated i a ≡ false)

  -- In a valid state, `release` keeps the invariant and frees that identifier and no other; it raises exactly for an
  -- identifier that is not allocated.
  pub release-ReleaseOutcome :
      (a : IdAllocator D) (i : ℕ) → IsValid a → ReleaseOutcome a i (release a i)
  unfolding release contains ℕ_discrete
  release-ReleaseOutcome a i v = elim (Bool-cases (is_allocated i a)) [
    | inr free ↦ rw free (refl, free)
    | inl taken ↦
        let m = λ (j : ℕ). contains-del j i a.allocated_ids v.keys_distinct in
        let q = λ (j : ℕ). contains-append ℕ_discrete j a.released_ids (i ∷ []) in
        rw taken (
          record {
            low = v.low;
            high = v.high;
            keys_distinct = del-IsDistinct i a.allocated_ids v.keys_distinct;
            released_distinct =
                append-IsDistinct ℕ_discrete a.released_ids i v.released_distinct
                  (ground (arith, v.disjoint i));
            covered = λ j. ground (arith, m j, q j, v.covered j);
            disjoint = λ j. ground (arith, m j, q j, v.disjoint j);
          },
          taken,
          m,
          refl,
          refl,
        )
  ]
