-- ===== src/RouteTable/Subscribed.antt =====
-- What the workers learn from subscriptions.
use networking_bagpipe_l.Common.{
  ◌≡◌, refl, Bool, true, false, not, ◌&&◌, ◌||◌, some, List, [], ◌∷◌, ◌++◌, arith, eqb, contains,
  contains-add, contains-discard, add, discard, Bool-cases, inl, inr, ◌∙◌, ap, if◌then◌else◌, map,
}
use networking_bagpipe_l.Engine.{
  Exabgp, Source, source_discrete, advertise, withdraw, event_for, route_targets,
}
use networking_bagpipe_l.RouteTable.Match.{Match, match_discrete, covers, contains-matches_for}
use networking_bagpipe_l.RouteTable.Defs.{
  State, Subscription, Effect, deliver, first_local_subscriber, put, Entry, same_entry,
  test_should_dispatch, intersects, had_subscription, resynthesize, synthesize_withdraws,
  WorkersAndEntries, at, add_worker, worker_subscribes,
}
use networking_bagpipe_l.RouteTable.Routes.{is_same, matches_of}
use networking_bagpipe_l.RouteTable.Table.{is_listed}
use networking_bagpipe_l.RouteTable.Consistent.{IsConsistent, is_current}
use networking_bagpipe_l.RouteTable.View.{View, apply, see, see_all, is_wanted, IsExact}

module _ (x : Exabgp) where
  intersects-add :
      (ns ms : List (Match x)) (m : Match x)
      → intersects x ns (add (match_discrete x) m ms)
        ≡ (intersects x ns ms || contains (match_discrete x) m ns)
  unfolding intersects contains
  intersects-add [] ms m = refl
  intersects-add (n ∷ ns) ms m =
      ground (arith, intersects-add ns ms m, contains-add (match_discrete x) n m ms)

  pub intersects-discard :
      (ns ms : List (Match x)) (m : Match x)
      → contains (match_discrete x) m ns ≡ false
      → intersects x ns (discard (match_discrete x) m ms) ≡ intersects x ns ms
  unfolding intersects contains
  intersects-discard [] ms m h = refl
  intersects-discard (n ∷ ns) ms m h =
      ground (arith, intersects-discard ns ms m, contains-discard (match_discrete x) n m ms)

  pub intersects-discard_le :
      (ns ms : List (Match x)) (m : Match x)
      → intersects x ns (discard (match_discrete x) m ms) ≡ true
      → intersects x ns ms ≡ true
  unfolding intersects
  intersects-discard_le [] ms m h = h
  intersects-discard_le (n ∷ ns) ms m h =
      ground (arith, intersects-discard_le ns ms m, contains-discard (match_discrete x) n m ms)

  intersects_at :
      (ns ms : List (Match x)) (n : Match x)
      → contains (match_discrete x) n ns ≡ true
      → contains (match_discrete x) n ms ≡ true
      → intersects x ns ms ≡ true
  unfolding intersects contains
  intersects_at [] ms n h k = cc
  intersects_at (m ∷ ns) ms n h k = ground (arith, intersects_at ns ms n)

  -- the match of exactly this route and route target
  abbrev exact_match : Entry x → x.RouteTarget → Match x
  exact_match e rt = record { afi = some e.afi; safi = some e.safi; route_target = some rt }

  covers-exact :
      (e : Entry x) (rt : x.RouteTarget)
      → contains x.rt_discrete rt (route_targets x e) ≡ true
      → covers x (exact_match e rt) e ≡ true
  unfolding covers
  covers-exact e rt h = ground arith

  had_subscription-covers :
      (ms : List (Match x)) (e : Entry x) (rts : List x.RouteTarget)
      → ((rt : x.RouteTarget)
          → contains x.rt_discrete rt rts ≡ true
          → contains x.rt_discrete rt (route_targets x e) ≡ true)
      → had_subscription x ms e rts ≡ true
      → intersects x (matches_of x e) ms ≡ true
  unfolding had_subscription contains
  had_subscription-covers ms e [] k h = cc
  had_subscription-covers ms e (rt ∷ rts) k h =
      elim (Bool-cases (contains (match_discrete x) (exact_match e rt) ms)) [
        | inl found ↦
            intersects_at (matches_of x e) ms (exact_match e rt)
              (contains-matches_for x (exact_match e rt) e
                ∙ covers-exact e rt (k rt (ground arith)))
              found
        | inr other ↦ had_subscription-covers ms e rts (λ r p. k r (ground arith)) (ground arith)
      ]

  see-resynthesize :
      (v : View x) (w : Source) (ms : List (Match x)) (es : List (Entry x)) (u : Source)
      (d : Entry x)
      → see_all x v (resynthesize x w ms es) u d ≡ (
          if eqb source_discrete u w
            && (contains (same_entry x) d es
                && (test_should_dispatch x d.source w
                    && not (had_subscription x ms d (route_targets x d))))
          then true
          else v u d)
  unfolding see_all resynthesize see apply event_for is_same contains
  see-resynthesize v w ms [] u d = ground arith
  see-resynthesize v w ms (e ∷ es) u d = ground (
    arith,
    see-resynthesize v w ms es u d,
    see-resynthesize (see x v (deliver w (event_for x advertise e))) w ms es u d,
  )

  pub see-synthesize_withdraws :
      (v : View x) (w : Source) (ms : List (Match x)) (es : List (Entry x)) (u : Source)
      (d : Entry x)
      → see_all x v (synthesize_withdraws x w ms es) u d ≡ (
          if eqb source_discrete u w
            && (contains (same_entry x) d es
                && (not (intersects x (matches_of x d) ms) && test_should_dispatch x d.source w))
          then false
          else v u d)
  unfolding see_all synthesize_withdraws see apply event_for contains
  see-synthesize_withdraws v w ms [] u d = ground arith
  see-synthesize_withdraws v w ms (e ∷ es) u d = ground (
    arith,
    see-synthesize_withdraws v w ms es u d,
    see-synthesize_withdraws (see x v (deliver w (event_for x withdraw e))) w ms es u d,
  )

  -- A call of a callback reaches no worker.
  see_all-callback :
      (v : View x) (sub : Subscription x) (b : Bool) (es : List (Effect x))
      → see_all x v ((if b then first_local_subscriber sub ∷ [] else []) ++ es) ≡ see_all x v es
  unfolding see_all see
  see_all-callback v sub b es = ground arith

  entries-add_worker :
      (w : Source) (wa : WorkersAndEntries x) → (add_worker x w wa).0.entries ≡ wa.entries
  unfolding add_worker
  entries-add_worker w wa = ground arith

  -- In a consistent state in which every worker has exactly the routes that it should have, this is
  -- again so after a subscription: the worker gets those of the match that it did not have.
  pub worker_subscribes-IsExact :
      (st : State x) (v : View x) (sub : Subscription x)
      → IsConsistent x st
      → IsExact x st v
      → IsExact x (worker_subscribes x st sub).0 (see_all x v (worker_subscribes x st sub).1)
  unfolding worker_subscribes is_wanted put is_current is_listed
  worker_subscribes-IsExact st v sub c ex u d =
      let w = sub.worker in
      let m = sub.matching in
      let ms = st.rtm_matches w in
      let aw = add_worker x w (at x st m) in
      let ns = matches_of x d in
      rw see_all-callback (
        ground (
          arith,
          see-resynthesize v w ms aw.0.entries u d,
          entries-add_worker w (at x st m),
          ap (λ (es : List (Entry x)). contains (same_entry x) d es)
              (entries-add_worker w (at x st m)),
          c.listed d m,
          ex u d,
          intersects-add ns ms m,
          contains-matches_for x m d,
          had_subscription-covers ms d (route_targets x d) (λ rt h. h),
        ))

  -- the matches of the route targets of a route, with its address family
  abbrev pub exact_matches : Entry x → List x.RouteTarget → List (Match x)
  exact_matches e rts = map (exact_match e) rts

  had_subscription-intersects :
      (ms : List (Match x)) (e : Entry x) (rts : List x.RouteTarget)
      → had_subscription x ms e rts ≡ intersects x (exact_matches e rts) ms
  unfolding had_subscription intersects
  had_subscription-intersects ms e [] = refl
  had_subscription-intersects ms e (rt ∷ rts) = ground (arith, had_subscription-intersects ms e rts)

  -- a worker that has seen nothing
  abbrev pub unseen : View x
  unseen u d = false

  -- In a consistent state, a subscription advertises a route to a worker exactly if the worker is
  -- the subscriber, the match covers the route, the route is the current one of its source and
  -- NLRI, its source may send it to the worker, and the worker had no subscription to one of the
  -- route targets of the route in its address family.
  pub worker_subscribes-sent :
      (st : State x) (sub : Subscription x) (u : Source) (d : Entry x)
      → IsConsistent x st
      → see_all x unseen (worker_subscribes x st sub).1 u d ≡ (
          eqb source_discrete u sub.worker
          && (covers x sub.matching d && is_current x st d)
          && test_should_dispatch x d.source u
          && not (intersects x (exact_matches d (route_targets x d)) (st.rtm_matches u)))
  unfolding worker_subscribes is_listed
  worker_subscribes-sent st sub u d c =
      let w = sub.worker in
      let ms = st.rtm_matches w in
      let aw = add_worker x w (at x st sub.matching) in
      rw see_all-callback (
        ground (
          arith,
          see-resynthesize unseen w ms aw.0.entries u d,
          ap (λ (es : List (Entry x)). contains (same_entry x) d es)
              (entries-add_worker w (at x st sub.matching)),
          c.listed d sub.matching,
          had_subscription-intersects ms d (route_targets x d),
        ))
