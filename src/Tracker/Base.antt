-- ===== src/Tracker/Base.antt =====
-- What a tracker is made with, its state and its callbacks, and its helper methods.
use networking_bagpipe_l.Common.{
  ℕ, ◌≡◌, Bool, true, false, Option, none, some, List, [], ◌∷◌, ◌++◌, map, compare, Ordering,
  if◌then◌else◌, contains, add,
}

-- the set of the items of a list, after those of `s`
unfoldable pub collect {ℓ} : {A : Type ℓ} → Discrete A → List A → List A → List A
collect dec s [] = s
collect dec s (a ∷ more) = collect dec (add dec a s) more

pub record Tracking : Type 1 where
  pub Route : Type 0
  pub route_discrete : Discrete Route
  -- `FilteredRoute(route)`
  pub Filtered : Type 0
  pub filtered_discrete : Discrete Filtered
  pub filtered : Route → Filtered
  pub Entry : Type 0
  pub entry_discrete : Discrete Entry
  pub route_to_tracked_entry : Route → Option Entry
  -- `_compare_routes`, whose sign is an `Ordering`; it compares by a rank
  pub compare_routes : Route → Route → Ordering
  pub rank : Route → ℕ
  pub compare_routes-rank : (a b : Route) → compare_routes a b ≡ compare (rank a) (rank b)
  -- `next(iter(s))` of a set that is not empty: some item of it
  pub first : Route → List Route → Route
  pub first-contains :
      (r : Route) (rs : List Route) → contains route_discrete (first r rs) (r ∷ rs) ≡ true

pub data EventType : Type 0 where
  advertise withdraw : EventType

module _ (t : Tracking) where
  open t use {
    Route, route_discrete, Filtered, filtered_discrete, filtered, Entry, entry_discrete,
    compare_routes, first,
  }

  -- A callback of the subclass; the Boolean is the flag `last`.
  pub data Callback : Type 0 where
    new_best_route : Entry → Filtered → Callback
    best_route_removed : Entry → Filtered → Bool → Callback

  pub record State : Type 0 where
    pub tracked_entry_2_routes : Entry → Option (List Route)
    pub tracked_entry_2_best_routes : Entry → Option (List Route)

  pub record RouteEvent : Type 0 where
    pub type : EventType
    pub route_entry : Route
    pub replaced_route : Option Route

  -- `setdefault(entry, [])`
  abbrev pub known : Option (List Route) → List Route
  known none = []
  known (some routes) = routes

  -- `equivalent_route_in_routes(FilteredRoute, route, routes)`
  unfoldable pub equivalent_route_in_routes : Route → List Route → Bool
  equivalent_route_in_routes route routes =
      contains filtered_discrete (filtered route) (map filtered routes)

  -- one round of the loop of `_recompute_best_routes`
  unfoldable pub recompute_step : List Route → Route → List Route
  recompute_step [] route = route ∷ []
  recompute_step (b ∷ best) route = elim (compare_routes route b) [
    | Ordering.gt ↦ route ∷ []
    | Ordering.eq ↦ (b ∷ best) ++ route ∷ []
    | Ordering.lt ↦ b ∷ best
  ]

  unfoldable pub recompute_from : List Route → List Route → List Route
  recompute_from best [] = best
  recompute_from best (route ∷ routes) = recompute_from (recompute_step best route) routes

  -- `_recompute_best_routes`: the new value of the set `best_routes`
  unfoldable pub recompute_best_routes : List Route → List Route
  recompute_best_routes all_routes = collect route_discrete [] (recompute_from [] all_routes)

  -- `_selective_best_route_removed`
  unfoldable pub selective_best_route_removed : Entry → Route → List Route → Bool → List Callback
  selective_best_route_removed entry route best last =
      if equivalent_route_in_routes route best
      then []
      else best_route_removed entry (filtered route) last ∷ []

  unfoldable pub remove_all : Entry → List Route → List Route → List Callback
  remove_all entry [] best = []
  remove_all entry (r ∷ withdrawn) best =
      selective_best_route_removed entry r best false ++ remove_all entry withdrawn best

  -- `_call_new_best_route_for_routes`
  unfoldable pub call_new_best_route_for_routes : Entry → List Route → List Callback
  call_new_best_route_for_routes entry routes =
      map (new_best_route entry) (collect filtered_discrete [] (map filtered routes))
