-- ===== src/Tracker/Calls.antt =====
-- What a subclass learns from the callbacks: for each tracked entry, the set of FilteredRoutes that
-- `new_best_route` brought and `best_route_removed` did not take away.
use networking_bagpipe_l.Common.{
  ◌≡◌, refl, Bool, true, false, not, ◌&&◌, ◌||◌, List, [], ◌∷◌, ◌++◌, map, arith, eqb, contains,
  add, discard,
}
use networking_bagpipe_l.Tracker.Base.{
  Tracking, Callback, new_best_route, best_route_removed, equivalent_route_in_routes,
  selective_best_route_removed, remove_all, call_new_best_route_for_routes, collect,
}
use networking_bagpipe_l.Tracker.Best.{contains-collect}

module _ (t : Tracking) where
  open t use {Route, route_discrete, Filtered, filtered_discrete, filtered, Entry, entry_discrete}

  -- the FilteredRoutes of some routes
  unfoldable pub names : List Route → Filtered → Bool
  names l f = contains filtered_discrete f (map filtered l)

  -- what is known of the entry `e` after a call
  unfoldable pub hear : Entry → (Filtered → Bool) → Callback t → Filtered → Bool
  hear e k (new_best_route entry g) f =
      eqb entry_discrete e entry && eqb filtered_discrete f g || k f
  hear e k (best_route_removed entry g last) f =
      not (eqb entry_discrete e entry && eqb filtered_discrete f g) && k f

  unfoldable pub hear_all : Entry → (Filtered → Bool) → List (Callback t) → Filtered → Bool
  hear_all e k [] = k
  hear_all e k (c ∷ cs) = hear_all e (hear e k c) cs

  pub hear_all-append :
      (e : Entry) (k : Filtered → Bool) (cs ds : List (Callback t))
      → hear_all e k (cs ++ ds) ≡ hear_all e (hear_all e k cs) ds
  unfolding hear_all
  hear_all-append e k [] ds = refl
  hear_all-append e k (c ∷ cs) ds = hear_all-append e (hear e k c) cs ds

  module _ (e entry : Entry) (f : Filtered) where
    hear-map :
        (k : Filtered → Bool) (fs : List Filtered)
        → hear_all e k (map (new_best_route entry) fs) f
          ≡ (eqb entry_discrete e entry && contains filtered_discrete f fs || k f)
    unfolding hear_all hear contains
    hear-map k [] = ground arith
    hear-map k (g ∷ fs) = ground (arith, hear-map (hear e k (new_best_route entry g)) fs)

    pub hear-call_new_best_route_for_routes :
        (k : Filtered → Bool) (l : List Route)
        → hear_all e k (call_new_best_route_for_routes t entry l) f
          ≡ (eqb entry_discrete e entry && names l f || k f)
    unfolding call_new_best_route_for_routes names contains
    hear-call_new_best_route_for_routes k l = ground (
      arith,
      hear-map k (collect filtered_discrete [] (map filtered l)),
      contains-collect filtered_discrete f [] (map filtered l),
    )

    pub hear-selective_best_route_removed :
        (k : Filtered → Bool) (r : Route) (best : List Route) (last : Bool)
        → hear_all e k (selective_best_route_removed t entry r best last) f ≡ (
            not (
              eqb entry_discrete e entry
              && (eqb filtered_discrete f (filtered r) && not (names best f)))
            && k f)
    unfolding selective_best_route_removed hear_all hear names equivalent_route_in_routes
    hear-selective_best_route_removed k r best last = ground arith

    pub hear-remove_all :
        (k : Filtered → Bool) (rs best : List Route)
        → hear_all e k (remove_all t entry rs best) f
          ≡ (not (eqb entry_discrete e entry && (names rs f && not (names best f))) && k f)
    unfolding remove_all hear_all names contains
    hear-remove_all k [] best = ground arith
    hear-remove_all k (r ∷ rs) best =
        let k' = hear_all e k (selective_best_route_removed t entry r best false) in
        ground (
          arith,
          hear_all-append e k (selective_best_route_removed t entry r best false)
              (remove_all t entry rs best),
          hear-remove_all k' rs best,
          hear-selective_best_route_removed k r best false,
        )

  names-there :
      (l : List Route) (r : Route)
      → contains route_discrete r l ≡ true
      → names l (filtered r) ≡ true
  unfolding names contains
  names-there [] r h = ground arith
  names-there (a ∷ l) r h = ground (arith, names-there l r)

  pub names-append :
      (l l' : List Route) (f : Filtered) → names (l ++ l') f ≡ (names l f || names l' f)
  unfolding names contains
  names-append [] l' f = ground arith
  names-append (a ∷ l) l' f = ground (arith, names-append l l' f)

  pub names-nil : (f : Filtered) → names [] f ≡ false
  unfolding names contains
  names-nil f = refl

  pub names-one :
      (r : Route) (f : Filtered) → names (r ∷ []) f ≡ eqb filtered_discrete f (filtered r)
  unfolding names contains
  names-one r f = ground arith

  pub names-add :
      (r : Route) (l : List Route) (f : Filtered)
      → names (add route_discrete r l) f ≡ (eqb filtered_discrete f (filtered r) || names l f)
  unfolding add names contains
  names-add r l f = ground (arith, names-append l (r ∷ []) f, names-there l r)

  pub names-discard :
      (r : Route) (l : List Route) (f : Filtered)
      → (names (discard route_discrete r l) f || eqb filtered_discrete f (filtered r))
        ≡ (names l f || eqb filtered_discrete f (filtered r))
  unfolding discard names contains
  names-discard r [] f = ground arith
  names-discard r (a ∷ l) f = ground (arith, names-discard r l f)

  pub names-discard_le :
      (r : Route) (l : List Route) (f : Filtered)
      → names (discard route_discrete r l) f ≡ true
      → names l f ≡ true
  unfolding discard names contains
  names-discard_le r [] f h = ground arith
  names-discard_le r (a ∷ l) f h = ground (arith, names-discard_le r l f)
