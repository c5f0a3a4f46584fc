-- ===== src/Allocator/Tests.antt =====
-- Runs of the allocators, and the theorems about them at concrete inputs.
use networking_bagpipe_l.Common.{
  ℕ, ◌≡◌, refl, true, ◌||◌, none, some, [], ◌∷◌, arith, eqb, ℕ_discrete,
}
use networking_bagpipe_l.Allocator.{
  IdAllocator, ok, raise, max_id_reached, is_allocated, init, init_labels, get_new_id,
  get_new_label, release,
}
use networking_bagpipe_l.Allocator.Invariant.{
  IsValid, GetOutcome, ReleaseOutcome, init-IsValid, get_new_id-GetOutcome, release-ReleaseOutcome,
}
use networking_bagpipe_l.Allocator.Hints.{IsReady, get_new_id-hint, get_new_id-hint_twice}
use networking_bagpipe_l.Allocator.Trace.{
  Reach, IsFair, start, got, Reach-IsFair, release_all, get_many, get_many-release_all,
}

-- two identifiers, 1 and 2
abbrev empty : IdAllocator ℕ
empty = record { min_id = 1; max_id = 2; allocated_ids = []; released_ids = []; current_id = 1 }

-- 2 is in use and 1 has been released
abbrev worn : IdAllocator ℕ
worn = record empty { allocated_ids = (2, 8) ∷ []; released_ids = 1 ∷ []; current_id = 3 }

-- both are in use
abbrev full : IdAllocator ℕ
full = record empty { allocated_ids = (1, 7) ∷ (2, 8) ∷ []; current_id = 3 }

first_label :
    get_new_label {D = ℕ} init_labels 5
    ≡ ok (16, record init_labels { allocated_ids = (16, 5) ∷ []; current_id = 17 })
unfolding get_new_label init_labels
first_label = refl

full_raises : get_new_id full 5 none ≡ raise (max_id_reached 2)
unfolding get_new_id
full_raises = refl

empty-IsValid : IsValid empty
unfolding init
empty-IsValid = init-IsValid 1 2 (omega arith)

get_new_id-GetOutcome_example : GetOutcome empty 7 (get_new_id empty 7 none)
get_new_id-GetOutcome_example = get_new_id-GetOutcome empty 7 empty-IsValid

after_one : IsValid (record empty { allocated_ids = (1, 7) ∷ []; current_id = 2 })
unfolding get_new_id
after_one = get_new_id-GetOutcome_example.0

release-ReleaseOutcome_example : ReleaseOutcome empty 1 (release empty 1)
release-ReleaseOutcome_example = release-ReleaseOutcome empty 1 empty-IsValid

one_held : Reach 1 2 (record empty { allocated_ids = (1, 7) ∷ []; current_id = 2 }) (1 ∷ [])
unfolding get_new_id init
one_held = got 7 1 _ start refl

Reach-IsFair_example :
    IsFair 1 2 (record empty { allocated_ids = (1, 7) ∷ []; current_id = 2 }) (1 ∷ [])
Reach-IsFair_example = Reach-IsFair (omega arith) one_held

get_many-release_all_example :
    get_many 2 9 (record empty { released_ids = 2 ∷ 1 ∷ []; current_id = 3 }) ≡ ok (2 ∷ 1 ∷ [])
unfolding release_all release
get_many-release_all_example =
    get_many-release_all (2 ∷ 1 ∷ []) 9 full
      (record empty { released_ids = 2 ∷ 1 ∷ []; current_id = 3 }) (omega arith) refl

get_new_id-hint_example :
    (a' : IdAllocator ℕ) × (get_new_id empty 7 (some 1) ≡ ok (1, a'))
    × IsReady a'
    × ((j : ℕ) → is_allocated j a' ≡ (eqb ℕ_discrete j 1 || is_allocated j empty))
unfolding is_allocated
get_new_id-hint_example = get_new_id-hint empty 7 1 refl refl

get_new_id-hint_twice_example :
    (a₁ a₂ : IdAllocator ℕ) × (get_new_id worn 5 (some 1) ≡ ok (1, a₁))
    × (is_allocated 1 a₁ ≡ true)
    × (get_new_id a₁ 6 none ≡ ok (1, a₂))
unfolding is_allocated
get_new_id-hint_twice_example = get_new_id-hint_twice worn 5 6 1 [] (omega arith) refl refl
