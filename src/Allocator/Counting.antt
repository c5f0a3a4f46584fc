-- ===== src/Allocator/Counting.antt =====
-- The loop of `_allocate` ends, on the first free number; and what the dict operations keep.
use networking_bagpipe_l.Common.{
  ℕ, zero, suc, ◌≤◌, ◌<◌, ◌≡◌, refl, true, false, ◌&&◌, ◌||◌, not, List, [], ◌∷◌, arith, length,
  leb, eqb, if◌then◌else◌, contains, ℕ_discrete, Bool-cases, inl, inr, IsDistinct,
}
use networking_bagpipe_l.Allocator.{next_free, put, del, keys}

-- How many of the numbers are at least `i`.
abbrev count_from : ℕ → List ℕ → ℕ
count_from i [] = 0
count_from i (k ∷ ks) = if leb i k then suc (count_from i ks) else count_from i ks

count_from-le-length : (i : ℕ) (ks : List ℕ) → count_from i ks ≤ length ks
count_from-le-length i [] = omega arith
count_from-le-length i (k ∷ ks) = ground (arith, count_from-le-length i ks)

count_from_mono : (i : ℕ) (ks : List ℕ) → count_from (suc i) ks ≤ count_from i ks
count_from_mono i [] = omega arith
count_from_mono i (k ∷ ks) = ground (arith, count_from_mono i ks)

count_from-lt :
    (i : ℕ) (ks : List ℕ)
    → contains ℕ_discrete i ks ≡ true
    → count_from (suc i) ks < count_from i ks
unfolding contains ℕ_discrete
count_from-lt i [] h = ground arith
count_from-lt i (k ∷ ks) h = ground (arith, count_from-lt i ks, count_from_mono i ks)

-- With more fuel than there are numbers at or after `i`, the loop stops at a free number, and
-- all the numbers that it passed over are taken.
next_free_lem :
    (f i : ℕ) (ks : List ℕ)
    → count_from i ks < f
    → (contains ℕ_discrete (next_free f i ks) ks ≡ false)
      × (i ≤ next_free f i ks)
      × ((j : ℕ) → i ≤ j → j < next_free f i ks → contains ℕ_discrete j ks ≡ true)
unfolding next_free
next_free_lem zero i ks h = absurd (omega arith)
next_free_lem (suc f) i ks h = elim (Bool-cases (contains ℕ_discrete i ks)) [
  | inr free ↦ rw free (free, omega arith, λ j lo hi. absurd (omega arith))
  | inl taken ↦
      let less = count_from-lt i ks taken in
      let (a, b, c) = next_free_lem f (suc i) ks (omega arith) in
      rw taken (
        a,
        omega arith,
        λ j lo hi. elim (ℕ_discrete i j) [ yes p ↦ rw p at taken | no p ↦ c j (omega arith) hi ],
      )
]

-- The fuel of `_allocate` is enough.
pub next_free-first :
    (i : ℕ) (ks : List ℕ)
    → (contains ℕ_discrete (next_free (suc (length ks)) i ks) ks ≡ false)
      × (i ≤ next_free (suc (length ks)) i ks)
      × ((j : ℕ) → i ≤ j → j < next_free (suc (length ks)) i ks → contains ℕ_discrete j ks ≡ true)
next_free-first i ks =
    next_free_lem (suc (length ks)) i ks (omega (arith, count_from-le-length i ks))

module _ {D : Type 0} where
  pub contains-put :
      (i k : ℕ) (v : D) (d : List (ℕ × D))
      → contains ℕ_discrete i (keys (put k v d))
        ≡ (eqb ℕ_discrete i k || contains ℕ_discrete i (keys d))
  unfolding contains put ℕ_discrete
  contains-put i k v [] = refl
  contains-put i k v (e ∷ d) = ground (arith, contains-put i k v d)

  pub contains-del :
      (i k : ℕ) (d : List (ℕ × D))
      → IsDistinct ℕ_discrete (keys d)
      → contains ℕ_discrete i (keys (del k d))
        ≡ (contains ℕ_discrete i (keys d) && not (eqb ℕ_discrete i k))
  unfolding contains del ℕ_discrete
  contains-del i k [] h = refl
  contains-del i k (e ∷ d) h = ground (arith, contains-del i k d h.1)

  pub put-IsDistinct :
      (k : ℕ) (v : D) (d : List (ℕ × D))
      → IsDistinct ℕ_discrete (keys d)
      → IsDistinct ℕ_discrete (keys (put k v d))
  unfolding put contains ℕ_discrete
  put-IsDistinct k v [] h = (refl, tt)
  put-IsDistinct k v (e ∷ d) h = ground (arith, put-IsDistinct k v d h.1, contains-put e.0 k v d)

  pub del-IsDistinct :
      (k : ℕ) (d : List (ℕ × D))
      → IsDistinct ℕ_discrete (keys d)
      → IsDistinct ℕ_discrete (keys (del k d))
  unfolding del contains ℕ_discrete
  del-IsDistinct k [] h = tt
  del-IsDistinct k (e ∷ d) h = ground (arith, del-IsDistinct k d h.1, contains-del e.0 k d h.1)
