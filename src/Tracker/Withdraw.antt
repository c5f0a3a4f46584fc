-- ===== src/Tracker/Withdraw.antt =====
-- What a WITHDRAW does to the lists of an entry.
use networking_bagpipe_l.Common.{
  ◌≡◌, ◌≢◌, refl, false, Option, none, some, List, [], ◌∷◌, arith, contains, discard,
  contains-discard, remove_first, remove_first-IsDistinct, IsDistinct, Bool-cases, inl, inr, subst,
  sym,
}
use networking_bagpipe_l.Tracker.Base.{Tracking, known, recompute_best_routes}
use networking_bagpipe_l.Tracker.Handler.{withdraw_best, on_withdraw}
use networking_bagpipe_l.Tracker.Top.{IsTop}
use networking_bagpipe_l.Tracker.Best.{recompute_best_routes-IsTop}
use networking_bagpipe_l.Tracker.Advertise.{IsTop-nil, remove-IsTop, discard-IsTop}

module _ (t : Tracking) where
  open t use {Route, route_discrete, Entry}

  -- What the dicts hold for an entry. Without best routes there are no routes.
  abbrev pub IsSlot : List Route → Option (List Route) → Type 0
  IsSlot all none = all ≡ []
  IsSlot all (some best) = (best ≢ []) × IsTop t best all × IsDistinct route_discrete all

  abbrev pub routes_of : Option (List Route) → List Route
  routes_of = known t

  withdraw_best-IsSlot :
      (entry : Entry) (route : Route) (all best : List Route)
      → IsDistinct route_discrete all
      → (best ≢ [] → IsTop t best all)
      → let (all', best', _) = withdraw_best t entry route all best in
        (routes_of all' ≡ all) × IsSlot (routes_of all') best'
  unfolding withdraw_best
  withdraw_best-IsSlot entry route all [] d top = from (recompute_best_routes t all) refl
    where
      from :
          (l : List Route)
          → recompute_best_routes t all ≡ l
          → let (all', best', _) = withdraw_best t entry route all [] in
            (routes_of all' ≡ all) × IsSlot (routes_of all') best'
      from [] e =
          let none_left : all ≡ [] =
            IsTop-nil t all
              (subst (λ (l : List Route). IsTop t l all) e (recompute_best_routes-IsTop t all)) in
          rw (e, withdraw_best) (sym none_left, refl)
      from (b ∷ l) e =
          rw (e, withdraw_best)
            (
              refl,
              (
                λ h. cc,
                subst (λ (l : List Route). IsTop t l all) e (recompute_best_routes-IsTop t all),
                d,
              ),
            )
  withdraw_best-IsSlot entry route all (b ∷ best) d top = (refl, (λ h. cc, top (λ h. cc), d))

  -- a route that is not among the best is removed
  remove_other-IsTop :
      (all best : List Route) (q : Route)
      → IsDistinct route_discrete all
      → IsTop t best all
      → contains route_discrete q best ≡ false
      → best ≢ []
      → IsTop t best (remove_first route_discrete q all)
  unfolding contains
  remove_other-IsTop all [] q d top other h r = absurd (h refl)
  remove_other-IsTop all (b ∷ best) q d top other h r = ground (
    arith,
    remove-IsTop t all (b ∷ best) q b d top,
    contains-discard route_discrete b q (b ∷ best),
    contains-discard route_discrete r q (b ∷ best),
    remove-IsTop t all (b ∷ best) q b d top
        (ground (arith, contains-discard route_discrete b q (b ∷ best))) r,
  )

  -- In an entry whose best routes are those of the top rank, if it has routes at all, a WITHDRAW
  -- removes its route; the best routes are then again those of the top rank, and there are best
  -- routes unless no route is left.
  pub on_withdraw-IsSlot :
      (entry : Entry) (route : Route) (all : List Route) (best : Option (List Route))
      → IsSlot all best
      → let (all', best', _) = on_withdraw t entry route all best in
        (routes_of all' ≡ remove_first route_discrete route all) × IsSlot (routes_of all') best'
  unfolding on_withdraw remove_first
  on_withdraw-IsSlot entry route all none h = (refl, rw h refl)
  on_withdraw-IsSlot entry route all (some best) (some_best, top, d) =
      let left = remove_first route_discrete route all in
      let d' = remove_first-IsDistinct route_discrete route all d in
      elim (Bool-cases (contains route_discrete route best)) [
        | inl best_one ↦ rw best_one (
            withdraw_best-IsSlot entry route left (discard route_discrete route best) d'
              (discard-IsTop t all best route (discard route_discrete route best) d top refl))
        | inr other ↦
            rw other
              (refl, (some_best, remove_other-IsTop all best route d top other some_best, d'))
      ]
