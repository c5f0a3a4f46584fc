-- ===== src/Tracker/Best.antt =====
-- The recomputation of the best routes.
use networking_bagpipe_l.Common.{
  ◌≡◌, refl, true, ◌||◌, List, [], ◌∷◌, ◌++◌, append-nil, append_assoc, Ordering, arith, eqb,
  contains, contains-append, add, contains-add, sym, subst, inl, inr, ◌⊎◌, IsDistinct,
  add-IsDistinct,
}
use networking_bagpipe_l.Tracker.Base.{
  Tracking, recompute_step, recompute_from, recompute_best_routes, collect,
}
use networking_bagpipe_l.Tracker.Top.{is_top, IsTop, IsTop-above, IsTop-equal, IsTop-below}

pub contains-collect {ℓ} :
    {A : Type ℓ} (dec : Discrete A) (a : A) (s as' : List A)
    → contains dec a (collect dec s as') ≡ (contains dec a s || contains dec a as')
unfolding collect contains
contains-collect dec a s [] = ground arith
contains-collect dec a s (b ∷ more) =
    ground (arith, contains-collect dec a (add dec b s) more, contains-add dec a b s)

pub collect-IsDistinct {ℓ} :
    {A : Type ℓ} (dec : Discrete A) (s as' : List A)
    → IsDistinct dec s
    → IsDistinct dec (collect dec s as')
unfolding collect
collect-IsDistinct dec s [] d = d
collect-IsDistinct dec s (b ∷ more) d =
    collect-IsDistinct dec (add dec b s) more (add-IsDistinct dec b s d)

pub Ordering-cases : (o : Ordering) → (o ≡ Ordering.lt) ⊎ ((o ≡ Ordering.eq) ⊎ (o ≡ Ordering.gt))
Ordering-cases Ordering.lt = inl refl
Ordering-cases Ordering.eq = inr (inl refl)
Ordering-cases Ordering.gt = inr (inr refl)

module _ (t : Tracking) where
  open t use {Route, route_discrete, compare_routes, rank}

  contains_head : (b : Route) (best : List Route) → contains route_discrete b (b ∷ best) ≡ true
  unfolding contains
  contains_head b best = ground arith

  contains-last :
      (b : Route) (best : List Route) (route r : Route)
      → contains route_discrete r (b ∷ best ++ route ∷ [])
        ≡ (contains route_discrete r (b ∷ best) || eqb route_discrete r route)
  unfolding contains
  contains-last b best route r = ground (arith, contains-append route_discrete r best (route ∷ []))

  recompute_from-IsTop :
      (b : Route) (best done routes : List Route)
      → IsTop t (b ∷ best) done
      → IsTop t (recompute_from t (b ∷ best) routes) (done ++ routes)
  unfolding recompute_from recompute_step contains
  recompute_from-IsTop b best done [] top = subst (IsTop t (b ∷ best)) (sym (append-nil done)) top
  recompute_from-IsTop b best done (route ∷ routes) top =
      let there : contains route_discrete b (b ∷ best) ≡ true = contains_head b best in
      subst (IsTop t (recompute_from t (recompute_step t (b ∷ best) route) routes))
        (append_assoc done (route ∷ []) routes)
        (elim (Ordering-cases (compare_routes route b)) [
          | inl below ↦
              rw (below, recompute_step)
                (recompute_from-IsTop b best (done ++ route ∷ []) routes
                  (IsTop-below t (b ∷ best) done b route there top below))
          | inr (inl equal) ↦
              rw (equal, recompute_step)
                (recompute_from-IsTop b (best ++ route ∷ []) (done ++ route ∷ []) routes (
                  IsTop-equal t (b ∷ best) done b route there top (b ∷ best ++ route ∷ []) equal
                    (contains-last b best route)))
          | inr (inr above) ↦
              rw (above, recompute_step)
                (recompute_from-IsTop route [] (done ++ route ∷ []) routes
                  (IsTop-above t (b ∷ best) done b route there top above))
        ])

  -- `_recompute_best_routes` finds the routes of the top rank among those it is given, all of them
  -- and no other.
  pub recompute_best_routes-IsTop : (all : List Route) → IsTop t (recompute_best_routes t all) all
  unfolding recompute_best_routes recompute_from recompute_step is_top contains
  recompute_best_routes-IsTop [] r = contains-collect route_discrete r [] []
  recompute_best_routes-IsTop (a ∷ all) r = ground (
    arith,
    contains-collect route_discrete r [] (recompute_from t (a ∷ []) all),
    recompute_from-IsTop a [] (a ∷ []) all (λ q. ground arith) r,
  )
