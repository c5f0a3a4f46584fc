-- ===== src/Allocator.antt =====
-- The identifier allocators: networking_bagpipe/bagpipe_bgp/vpn/identifier_allocators.py.
-- The class constants MIN and MAX are fields, so that one definition serves `IDAllocator`,
-- `RDAllocator` and `LabelAllocator`. `@utils.synchronized` serialises the two methods, so each is
-- one step on the state. Descriptions are of any type.
pub mod Counting
pub mod Invariant
pub mod Hints
pub mod Trace
mod Tests
use networking_bagpipe_l.Common.{
  ℕ, zero, suc, ◌+◌, ◌-◌, ◌^◌, Bool, true, false, not, ◌&&◌, Option, none, some, List, [], ◌∷◌,
  ◌++◌, map, length, ltb, ◌==◌, if◌then◌else◌, contains, ℕ_discrete,
}

-- The state of an allocator. `allocated_ids` is a dict, as an association list.
pub record IdAllocator (D : Type 0) : Type 0 where
  pub min_id : ℕ
  pub max_id : ℕ
  pub allocated_ids : List (ℕ × D)
  pub released_ids : List ℕ
  pub current_id : ℕ

pub data Error : Type 0 where
  max_id_reached : ℕ → Error
  not_allocated : ℕ → Error

-- A method returns its result and the new state, or raises with the state unchanged.
pub data Result (A : Type 0) : Type 0 where
  ok : A → Result A
  raise : Error → Result A

module _ {D : Type 0} where
  abbrev pub keys : List (ℕ × D) → List ℕ
  keys = map (λ e. e.0)

  -- `id in self.allocated_ids`
  unfoldable pub is_allocated : ℕ → IdAllocator D → Bool
  unfolding contains ℕ_discrete
  is_allocated i a = contains ℕ_discrete i (keys a.allocated_ids)

  -- `d[k] = v`
  unfoldable pub put : ℕ → D → List (ℕ × D) → List (ℕ × D)
  put k v [] = (k, v) ∷ []
  put k v ((j, w) ∷ d) = if j == k then (k, v) ∷ d else (j, w) ∷ put k v d

  -- `del d[k]`
  unfoldable pub del : ℕ → List (ℕ × D) → List (ℕ × D)
  del k [] = []
  del k ((j, w) ∷ d) = if j == k then d else (j, w) ∷ del k d

-- The loop `for next_id in itertools.count(start)` that stops at the first number that is not a
-- key. The fuel is one more than the number of keys.
unfoldable pub next_free : ℕ → ℕ → List ℕ → ℕ
unfolding contains ℕ_discrete
next_free zero i ks = i
next_free (suc f) i ks =
    let rest = next_free f (suc i) ks in if contains ℕ_discrete i ks then rest else i

module _ {D : Type 0} where
  unfoldable pub init : ℕ → ℕ → IdAllocator D
  init lo hi = record {
    min_id = lo;
    max_id = hi;
    allocated_ids = [];
    released_ids = [];
    current_id = lo;
  }

  -- `_allocate`
  unfoldable pub allocate : IdAllocator D → ℕ → D → Bool → ℕ × IdAllocator D
  unfolding put next_free
  allocate a i description update_current =
      let ids = put i description a.allocated_ids in
      let next = next_free (suc (length (keys ids))) (suc a.current_id) (keys ids) in
      (
        i,
        record a {
          allocated_ids = ids;
          current_id = if update_current && (i == a.current_id) then next else a.current_id;
        },
      )

  -- the branch of `get_new_id` that takes the id that was released the earliest
  unfoldable pub reuse : IdAllocator D → D → List ℕ → Result (ℕ × IdAllocator D)
  unfolding allocate
  reuse a description [] = raise (max_id_reached a.max_id)
  reuse a description (i ∷ is) = ok (allocate (record a { released_ids = is }) i description false)

  -- the branches of `get_new_id` after the one on the hint
  unfoldable pub get_unhinted : IdAllocator D → D → Result (ℕ × IdAllocator D)
  unfolding allocate reuse
  get_unhinted a description =
      if ltb a.max_id a.current_id
      then reuse a description a.released_ids
      else ok (allocate a a.current_id description true)

  unfoldable pub get_new_id : IdAllocator D → D → Option ℕ → Result (ℕ × IdAllocator D)
  unfolding allocate get_unhinted is_allocated
  get_new_id a description none = get_unhinted a description
  get_new_id a description (some hint) =
      if not (is_allocated hint a)
      then ok (allocate a hint description true)
      else get_unhinted a description

  unfoldable pub release : IdAllocator D → ℕ → Result (IdAllocator D)
  unfolding is_allocated del
  release a i =
      if is_allocated i a
      then ok (record a {
        allocated_ids = del i a.allocated_ids;
        released_ids = a.released_ids ++ i ∷ [];
      })
      else raise (not_allocated i)

  -- `LabelAllocator()` and its `get_new_label`
  unfoldable pub init_labels : IdAllocator D
  unfolding init
  init_labels = init 16 (2 ^ 20 - 1)

  unfoldable pub get_new_label : IdAllocator D → D → Result (ℕ × IdAllocator D)
  unfolding get_new_id
  get_new_label a description = get_new_id a description none

-- `RDAllocator`, whose identifiers are the numbers of route distinguishers with one prefix. The
-- class of route distinguishers of exabgp is `Rd`: `make_rd` is `fromElements` with the prefix, and
-- `rd_number` reads the number after the colon in the text of a route distinguisher.
module _ {D : Type 0} where
  unfoldable pub init_rds : IdAllocator D
  unfolding init
  init_rds = init 0 (2 ^ 16 - 1)

module _ {D Rd : Type 0} where
  unfoldable pub get_new_rd : (ℕ → Rd) → IdAllocator D → D → Result (Rd × IdAllocator D)
  get_new_rd make_rd a description = elim (get_new_id a description none) [
    | ok (i, a') ↦ ok (make_rd i, a')
    | raise e ↦ raise e
  ]

  unfoldable pub release_rd : (Rd → ℕ) → IdAllocator D → Rd → Result (IdAllocator D)
  release_rd rd_number a rd = release a (rd_number rd)
