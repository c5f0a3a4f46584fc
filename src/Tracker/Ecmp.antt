-- ===== src/Tracker/Ecmp.antt =====
-- `FilteredRoute`, `compare_ecmp`, and the tracker with them. The subclass's hook that maps a route
-- to its entry, and the order of a set, are parameters here too.
use networking_bagpipe_l.Common.{
  ℕ, ◌≡◌, refl, Option, some, none, List, ◌∷◌, compare, Ordering, true, contains,
}
use networking_bagpipe_l.Engine.{Exabgp, Source, source_discrete, RouteEntry, entry_discrete, init}
use networking_bagpipe_l.RouteTable.Match.{option_discrete}
use networking_bagpipe_l.Tracker.Base.{Tracking}

module _ (x : Exabgp) where
  -- `FilteredRoute(re, keep_attributes)`; the source keeps NEXT_HOP, PMSI_TUNNEL, MED,
  -- EXTENDED_COMMUNITY and LOCAL_PREF, whose numbers are those of exabgp
  unfoldable pub filtered_route : List ℕ → RouteEntry x Source → RouteEntry x (Option Source)
  filtered_route codes re = init x re.nlri none (some (x.keep codes re.attributes)) none

  -- the LOCAL_PREF of a route, or 100
  unfoldable pub preference : RouteEntry x Source → ℕ
  preference re = elim (x.localpref re.attributes) [ some p ↦ p | none ↦ 100 ]

  unfoldable pub compare_ecmp : RouteEntry x Source → RouteEntry x Source → Ordering
  compare_ecmp a b = compare (preference a) (preference b)

  pub compare_ecmp-preference :
      (a b : RouteEntry x Source) → compare_ecmp a b ≡ compare (preference a) (preference b)
  unfolding compare_ecmp
  compare_ecmp-preference a b = refl

  abbrev pub same_route : Discrete (RouteEntry x Source)
  same_route = entry_discrete x source_discrete

  -- a tracker that is made with `compare_ecmp`
  abbrev pub ecmp :
      List ℕ
      → (Entry : Type 0) → Discrete Entry
      → (RouteEntry x Source → Option Entry)
      → (first : RouteEntry x Source → List (RouteEntry x Source) → RouteEntry x Source)
      → ((r : RouteEntry x Source) (rs : List (RouteEntry x Source))
          → contains same_route (first r rs) (r ∷ rs) ≡ true)
      → Tracking
  ecmp codes Entry d to_entry first first-contains = record {
    Route = RouteEntry x Source;
    route_discrete = same_route;
    Filtered = RouteEntry x (Option Source);
    filtered_discrete = entry_discrete x (option_discrete source_discrete);
    filtered = filtered_route codes;
    Entry = Entry;
    entry_discrete = d;
    route_to_tracked_entry = to_entry;
    compare_routes = compare_ecmp;
    rank = preference;
    compare_routes-rank = compare_ecmp-preference;
    first = first;
    first-contains = first-contains;
  }
