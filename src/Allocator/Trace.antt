-- ===== src/Allocator/Trace.antt =====
-- Sequences of calls of an allocator: what its users hold, and the order in which identifiers are
-- given out again.
use networking_bagpipe_l.Common.{
  ℕ, zero, suc, ◌≤◌, ◌<◌, ◌≡◌, refl, false, none, List, [], ◌∷◌, ◌++◌, arith, length, contains,
  contains-remove_first, remove_first, remove_first-IsDistinct, ℕ_discrete, IsDistinct, subst,
  append-nil, append_assoc,
}
use networking_bagpipe_l.Allocator.{
  IdAllocator, Result, ok, raise, is_allocated, init, allocate, get_new_id, release,
}
use networking_bagpipe_l.Allocator.Invariant.{
  IsValid, GetOutcome, ReleaseOutcome, init-IsValid, get_new_id-GetOutcome, release-ReleaseOutcome,
}

-- The states that calls without a hint can reach, with the identifiers that the users hold: those
-- that `get_new_id` returned and that have not been released since.
pub data Reach {D : Type 0} (lo hi : ℕ) : IdAllocator D → List ℕ → Type 0 where
  start : Reach lo hi (init lo hi) []
  got :
      {a : IdAllocator D} {held : List ℕ} (d : D) (i : ℕ) (a' : IdAllocator D)
      → Reach lo hi a held
      → get_new_id a d none ≡ ok (i, a')
      → Reach lo hi a' (i ∷ held)
  freed :
      {a : IdAllocator D} {held : List ℕ} (i : ℕ) (a' : IdAllocator D)
      → Reach lo hi a held
      → release a i ≡ ok a'
      → Reach lo hi a' (remove_first ℕ_discrete i held)

-- what holds of every reachable state
pub record IsFair {D : Type 0} (lo hi : ℕ) (a : IdAllocator D) (held : List ℕ) : Type 0 where
  pub valid : IsValid a
  pub low_bound : a.min_id ≡ lo
  pub high_bound : a.max_id ≡ hi
  pub distinct : IsDistinct ℕ_discrete held
  pub exact : (i : ℕ) → contains ℕ_discrete i held ≡ is_allocated i a

module _ {D : Type 0} (lo hi : ℕ) (ordered : lo ≤ suc hi) where
  start-IsFair : IsFair {D = D} lo hi (init lo hi) []
  unfolding init is_allocated contains
  start-IsFair = record {
    valid = init-IsValid lo hi ordered;
    low_bound = refl;
    high_bound = refl;
    distinct = tt;
    exact = λ i. refl;
  }

  got-IsFair :
      (a : IdAllocator D) (held : List ℕ) (d : D) (i : ℕ) (a' : IdAllocator D)
      → IsFair lo hi a held
      → get_new_id a d none ≡ ok (i, a')
      → IsFair lo hi a' (i ∷ held)
  unfolding contains
  got-IsFair a held d i a' f e =
      let (v, free, _, _, more, mn, mx) =
        subst (GetOutcome a d) e (get_new_id-GetOutcome a d f.valid) in
      record {
        valid = v;
        low_bound = omega (arith, f.low_bound);
        high_bound = omega (arith, f.high_bound);
        distinct = ground (arith, f.exact i, f.distinct);
        exact = λ j. ground (arith, f.exact j, more j);
      }

  freed-IsFair :
      (a : IdAllocator D) (held : List ℕ) (i : ℕ) (a' : IdAllocator D)
      → IsFair lo hi a held
      → release a i ≡ ok a'
      → IsFair lo hi a' (remove_first ℕ_discrete i held)
  freed-IsFair a held i a' f e =
      let (v, _, less, mn, mx) =
        subst (ReleaseOutcome a i) e (release-ReleaseOutcome a i f.valid) in
      record {
        valid = v;
        low_bound = omega (arith, f.low_bound);
        high_bound = omega (arith, f.high_bound);
        distinct = remove_first-IsDistinct ℕ_discrete i held f.distinct;
        exact = λ j.
            ground (arith, f.exact j, less j, contains-remove_first ℕ_discrete j i held f.distinct);
      }

-- In every state that calls without hints and releases reach, the identifiers that are held are
-- distinct, and they are exactly the
-- allocated ones; the invariant holds, and MIN and MAX are those of the start.
pub Reach-IsFair :
    {D : Type 0} {lo hi : ℕ} {a : IdAllocator D} {held : List ℕ}
    → lo ≤ suc hi
    → Reach lo hi a held
    → IsFair lo hi a held
Reach-IsFair {lo = lo} {hi = hi} o start = start-IsFair lo hi o
Reach-IsFair {lo = lo} {hi = hi} o (got {a = a} {held = held} d i a' r e) =
    got-IsFair lo hi o a held d i a' (Reach-IsFair o r) e
Reach-IsFair {lo = lo} {hi = hi} o (freed {a = a} {held = held} i a' r e) =
    freed-IsFair lo hi o a held i a' (Reach-IsFair o r) e

module _ {D : Type 0} where
  -- `release` of each identifier in turn
  unfoldable pub release_all : List ℕ → IdAllocator D → Result (IdAllocator D)
  release_all [] a = ok a
  release_all (i ∷ is) a = elim (release a i) [ ok a' ↦ release_all is a' | raise e ↦ raise e ]

  -- as many calls of `get_new_id` as the first argument says, and the identifiers in order
  unfoldable pub get_many : ℕ → D → IdAllocator D → Result (List ℕ)
  get_many zero d a = ok []
  get_many (suc n) d a = elim (get_new_id a d none) [
    | ok (i, a') ↦ elim (get_many n d a') [ ok is ↦ ok (i ∷ is) | raise e ↦ raise e ]
    | raise e ↦ raise e
  ]

  -- The identifiers that were released last are at the end of the queue.
  release-released_ids :
      (i : ℕ) (a a' : IdAllocator D)
      → release a i ≡ ok a'
      → (a'.released_ids ≡ a.released_ids ++ i ∷ [])
        × (a'.current_id ≡ a.current_id)
        × (a'.max_id ≡ a.max_id)
  unfolding release
  release-released_ids i a a' e = ground arith

  release_all-first :
      (i : ℕ) (is : List ℕ) (a a' : IdAllocator D)
      → release_all (i ∷ is) a ≡ ok a'
      → (b : IdAllocator D) × (release a i ≡ ok b) × (release_all is b ≡ ok a')
  unfolding release_all
  release_all-first i is a a' e = go (release a i) refl e
    where
      go :
          (r : Result (IdAllocator D))
          → release a i ≡ r
          → (elim r [ ok b ↦ release_all is b | raise x ↦ raise x ]) ≡ ok a'
          → (b : IdAllocator D) × (release a i ≡ ok b) × (release_all is b ≡ ok a')
      go (ok b) p q = (b, p, q)
      go (raise x) p q = cc

  release_all-released_ids :
      (is : List ℕ) (a a' : IdAllocator D)
      → release_all is a ≡ ok a'
      → (a'.released_ids ≡ a.released_ids ++ is)
        × (a'.current_id ≡ a.current_id)
        × (a'.max_id ≡ a.max_id)
  unfolding release_all
  release_all-released_ids [] a a' e = ground (arith, append-nil a.released_ids)
  release_all-released_ids (i ∷ is) a a' e =
      let (b, p, q) = release_all-first i is a a' e in
      ground (
        arith,
        release-released_ids i a b p,
        release_all-released_ids is b a' q,
        append_assoc a.released_ids (i ∷ []) is,
      )

  get_many-released_ids :
      (is : List ℕ) (d : D) (a : IdAllocator D)
      → a.max_id < a.current_id
      → a.released_ids ≡ is
      → get_many (length is) d a ≡ ok is
  unfolding get_many get_new_id
  get_many-released_ids [] d a h e = refl
  get_many-released_ids (i ∷ is) d a h e =
      ground
        (arith, get_many-released_ids is d (allocate (record a { released_ids = is }) i d false).1)

  -- First in, first out: once the numbers up to MAX have all been handed out, the identifiers that
  -- are then released are given out again in the order of their release, after those that were
  -- waiting already.
  pub get_many-release_all :
      (is : List ℕ) (d : D) (a a' : IdAllocator D)
      → a.max_id < a.current_id
      → release_all is a ≡ ok a'
      → get_many (length (a.released_ids ++ is)) d a' ≡ ok (a.released_ids ++ is)
  get_many-release_all is d a a' h e =
      let (r, c, m) = release_all-released_ids is a a' e in
      get_many-released_ids (a.released_ids ++ is) d a' (omega arith) r
