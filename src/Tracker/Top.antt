-- ===== src/Tracker/Top.antt =====
-- The routes of the top rank of a list.
use networking_bagpipe_l.Common.{
  ◌≡◌, refl, Bool, true, ◌&&◌, ◌||◌, List, [], ◌∷◌, ◌++◌, Ordering, arith, eqb, leb, contains,
  contains-append,
}
use networking_bagpipe_l.Tracker.Base.{Tracking}

module _ (t : Tracking) where
  open t use {Route, route_discrete, compare_routes, rank, compare_routes-rank}

  -- No route of the list has a higher rank.
  unfoldable pub is_top : List Route → Route → Bool
  is_top [] r = true
  is_top (q ∷ qs) r = leb (rank q) (rank r) && is_top qs r

  -- The list `best` has exactly the routes of the top rank of `all`.
  abbrev pub IsTop : List Route → List Route → Type 0
  IsTop best all =
      (r : Route) → contains route_discrete r best ≡ (contains route_discrete r all && is_top all r)

  is_top-append :
      (qs : List Route) (q r : Route)
      → is_top (qs ++ q ∷ []) r ≡ (is_top qs r && leb (rank q) (rank r))
  unfolding is_top
  is_top-append [] q r = ground arith
  is_top-append (p ∷ qs) q r = ground (arith, is_top-append qs q r)

  -- a route of the list is not above one of the top rank
  pub is_top-bound :
      (qs : List Route) (q r : Route)
      → contains route_discrete q qs ≡ true
      → is_top qs r ≡ true
      → leb (rank q) (rank r) ≡ true
  unfolding is_top contains
  is_top-bound [] q r h top = ground arith
  is_top-bound (p ∷ qs) q r h top = ground (arith, is_top-bound qs q r)

  -- what is not below a route of the top rank has the top rank
  pub is_top_above :
      (qs : List Route) (b r : Route)
      → is_top qs b ≡ true
      → leb (rank b) (rank r) ≡ true
      → is_top qs r ≡ true
  unfolding is_top
  is_top_above [] b r top h = refl
  is_top_above (p ∷ qs) b r top h = ground (arith, is_top_above qs b r)

  -- one more route that is above, equal to, or below those of the top rank
  module _ (best done : List Route) (b route : Route)
      (there : contains route_discrete b best ≡ true) (top : IsTop best done) where
    top_b : is_top done b ≡ true
    top_b = ground (arith, top b)

    pub IsTop-above : compare_routes route b ≡ Ordering.gt → IsTop (route ∷ []) (done ++ route ∷ [])
    unfolding contains is_top
    IsTop-above h r = ground (
      arith,
      compare_routes-rank route b,
      contains-append route_discrete r done (route ∷ []),
      is_top-append done route r,
      is_top-bound done r b,
      is_top_above done b route top_b,
      top b,
    )

    pub IsTop-equal :
        (best' : List Route)
        → compare_routes route b ≡ Ordering.eq
        → ((r : Route)
            → contains route_discrete r best'
              ≡ (contains route_discrete r best || eqb route_discrete r route))
        → IsTop best' (done ++ route ∷ [])
    unfolding contains is_top
    IsTop-equal best' h added r = ground (
      arith,
      compare_routes-rank route b,
      added r,
      top r,
      contains-append route_discrete r done (route ∷ []),
      is_top-append done route r,
      is_top-bound done b r,
      is_top_above done b route top_b,
      top b,
    )

    pub IsTop-below : compare_routes route b ≡ Ordering.lt → IsTop best (done ++ route ∷ [])
    unfolding contains is_top
    IsTop-below h r = ground (
      arith,
      compare_routes-rank route b,
      top r,
      contains-append route_discrete r done (route ∷ []),
      is_top-append done route r,
      is_top-bound done b r,
      top b,
    )
