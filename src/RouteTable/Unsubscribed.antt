-- ===== src/RouteTable/Unsubscribed.antt =====
-- What the workers learn from unsubscriptions.
use networking_bagpipe_l.Common.{
  ◌≡◌, refl, false, not, ◌&&◌, Option, none, some, List, [], arith, eqb, contains, discard, ap,
  update, if◌then◌else◌,
}
use networking_bagpipe_l.Engine.{Exabgp, Source, source_discrete}
use networking_bagpipe_l.RouteTable.Match.{Match, match_discrete, contains-matches_for}
use networking_bagpipe_l.RouteTable.Defs.{
  State, Subscription, Entry, same_entry, test_should_dispatch, intersects, synthesize_withdraws,
  WorkersAndEntries, at, leave, unsubscribe_from, worker_unsubscribes,
}
use networking_bagpipe_l.RouteTable.Routes.{matches_of}
use networking_bagpipe_l.RouteTable.Table.{is_listed}
use networking_bagpipe_l.RouteTable.Consistent.{IsConsistent, is_current, unsubscribe_from-Leaves}
use networking_bagpipe_l.RouteTable.View.{View, see, see_all, is_wanted, IsExact, see_all-append}
use networking_bagpipe_l.RouteTable.Subscribed.{
  intersects-discard, intersects-discard_le, see-synthesize_withdraws,
}

module _ (x : Exabgp) where
  see-leave :
      (v : View x) (st : State x) (sub : Subscription x) (wa : WorkersAndEntries x)
      → see_all x v (leave x st sub wa).1 ≡ v
  unfolding leave see_all see
  see-leave v st sub wa = ground arith

  see-unsubscribe_from :
      (v : View x) (st : State x) (sub : Subscription x) (ms : List (Match x))
      (o : Option (WorkersAndEntries x)) (u : Source) (d : Entry x)
      → see_all x v (unsubscribe_from x st sub ms o).1 u d ≡ (
          if eqb source_discrete u sub.worker
            && (contains (same_entry x) d (elim o [ none ↦ [] | some wa ↦ wa.entries ])
                && (not (intersects x (matches_of x d) ms)
                    && test_should_dispatch x d.source sub.worker))
          then false
          else v u d)
  unfolding unsubscribe_from contains see_all
  see-unsubscribe_from v st sub ms none u d = ground arith
  see-unsubscribe_from v st sub ms (some wa) u d =
      rw
        (
          see_all-append x v (synthesize_withdraws x sub.worker ms wa.entries)
              (leave x st sub wa).1,
          see-leave,
        )
        (see-synthesize_withdraws x v sub.worker ms wa.entries u d)

  -- In a consistent state in which every worker has exactly the routes that it should have, this is
  -- again so after an unsubscription: the worker loses those that match no other subscription.
  pub worker_unsubscribes-IsExact :
      (st : State x) (v : View x) (sub : Subscription x)
      → IsConsistent x st
      → IsExact x st v
      → IsExact x (worker_unsubscribes x st sub).0 (see_all x v (worker_unsubscribes x st sub).1)
  unfolding worker_unsubscribes is_wanted is_current is_listed at
  worker_unsubscribes-IsExact st v sub c ex u d =
      let w = sub.worker in
      let m = sub.matching in
      let ms = st.rtm_matches w in
      let ms' = discard (match_discrete x) m ms in
      let st' = record st { rtm_matches = update source_discrete st.rtm_matches w ms' } in
      let o = st.match_2_workers_entries m in
      let l = unsubscribe_from-Leaves x st' sub ms' o refl in
      let ns = matches_of x d in
      ground (
        arith,
        see-unsubscribe_from v st' sub ms' o u d,
        c.listed d m,
        ex u d,
        intersects-discard x ns ms m,
        intersects-discard_le x ns ms m,
        contains-matches_for x m d,
        ap (λ (f : Source → List (Match x)). f u) l.rest.rtm_matches,
        ap (λ (f : Source → x.Nlri → Option (Entry x)). f d.source d.nlri)
            l.rest.source_nlri_2_entry,
      )
