-- ===== src/RouteTable/Consistent.antt =====
-- The invariant of the route table manager, and the subscriptions and unsubscriptions.
use networking_bagpipe_l.Common.{
  ◌≡◌, refl, Bool, true, false, not, ◌&&◌, ◌||◌, Option, none, some, List, [], arith, eqb, contains,
  contains-add, contains-discard, Option-cases, inl, inr, discard, sym, ◌∙◌, ap, subst, update,
  IsDistinct, add-IsDistinct, discard-IsDistinct,
}
use networking_bagpipe_l.Engine.{Exabgp, Source, source_discrete}
use networking_bagpipe_l.RouteTable.Match.{Match, match_discrete, covers}
use networking_bagpipe_l.RouteTable.Defs.{
  State, WorkersAndEntries, Subscription, Entry, same_entry, at, put, check_cleanup, add_worker,
  del_worker, leave, unsubscribe_from, worker_subscribes, worker_unsubscribes,
}
use networking_bagpipe_l.RouteTable.Routes.{is_same}
use networking_bagpipe_l.RouteTable.Table.{
  is_subscribed, is_listed, SameRest, SameRest-refl, SameRest-trans, put-SameRest,
  check_cleanup-SameRest, is_subscribed-put, is_listed-put, is_subscribed-check_cleanup,
  is_listed-check_cleanup,
}

module _ (x : Exabgp) where
  -- The route is the one that its source advertised last for its NLRI, and has not withdrawn.
  unfoldable pub is_current : State x → Entry x → Bool
  is_current st e = is_same x (st.source_nlri_2_entry e.source e.nlri) e

  -- Every dict of the manager says the same. A route is listed under a match exactly if it is
  -- current and the match covers it; a worker is under a match exactly if the match is among the
  -- worker's own; and a source has exactly its current routes.
  pub record IsConsistent (st : State x) : Type 0 where
    pub keyed :
        (s : Source) (n : x.Nlri) (e : Entry x)
        → st.source_nlri_2_entry s n ≡ some e
        → (e.source ≡ s) × (e.nlri ≡ n)
    pub subscribed :
        (w : Source) (m : Match x)
        → is_subscribed x st w m ≡ contains (match_discrete x) m (st.rtm_matches w)
    pub listed :
        (e : Entry x) (m : Match x) → is_listed x st e m ≡ (covers x m e && is_current st e)
    pub owned :
        (s : Source) (e : Entry x)
        → contains (same_entry x) e (st.rtm_route_entries s)
          ≡ (eqb source_discrete e.source s && is_current st e)
    pub distinct : (w : Source) → IsDistinct (match_discrete x) (st.rtm_matches w)

  -- a state with no route and no subscription
  unfoldable pub initial : State x
  initial = record {
    match_2_workers_entries = λ m. none;
    workers = [];
    source_nlri_2_entry = λ s n. none;
    rtm_matches = λ w. [];
    rtm_route_entries = λ s. [];
  }

  pub initial-IsConsistent : IsConsistent initial
  unfolding initial is_subscribed is_listed is_current is_same at contains
  initial-IsConsistent = record {
    keyed = λ s n e h. cc;
    subscribed = λ w m. refl;
    listed = λ e m. ground arith;
    owned = λ s e. ground arith;
    distinct = λ w. tt;
  }

  -- what leaving a match does to the table
  pub record Leaves (w : Source) (m : Match x) (st st' : State x) : Type 0 where
    pub rest : SameRest x st st'
    pub subscribed :
        (v : Source) (n : Match x)
        → is_subscribed x st' v n
          ≡ (is_subscribed x st v n && not (eqb source_discrete v w && eqb (match_discrete x) n m))
    pub listed : (e : Entry x) (n : Match x) → is_listed x st' e n ≡ is_listed x st e n

  contains-add_worker :
      (v w : Source) (wa : WorkersAndEntries x)
      → (contains source_discrete v (add_worker x w wa).0.workers
          ≡ (eqb source_discrete v w || contains source_discrete v wa.workers))
        × ((add_worker x w wa).0.entries ≡ wa.entries)
  unfolding add_worker
  contains-add_worker v w wa = ground (arith, contains-add source_discrete v w wa.workers)

  contains-del_worker :
      (v w : Source) (wa wa' : WorkersAndEntries x) (last : Bool)
      → del_worker x w wa ≡ some (wa', last)
      → (contains source_discrete v wa'.workers
          ≡ (contains source_discrete v wa.workers && not (eqb source_discrete v w)))
        × (wa'.entries ≡ wa.entries)
  unfolding del_worker
  contains-del_worker v w wa wa' last h =
      ground (arith, contains-discard source_discrete v w wa.workers)

  pub del_worker-none :
      (w : Source) (wa : WorkersAndEntries x)
      → del_worker x w wa ≡ none
      → contains source_discrete w wa.workers ≡ false
  unfolding del_worker
  del_worker-none w wa h = ground arith

  -- the removal of the worker from what `at` reads
  put-Leaves :
      (st : State x) (w : Source) (m : Match x) (wa' : WorkersAndEntries x) (last : Bool)
      → del_worker x w (at x st m) ≡ some (wa', last)
      → Leaves w m st (put x st m wa')
  unfolding is_subscribed is_listed
  put-Leaves st w m wa' last h = record {
    rest = put-SameRest x st m wa';
    subscribed = λ v n.
        ground
          (arith, is_subscribed-put x st m wa' v n, contains-del_worker v w (at x st m) wa' last h);
    listed = λ e n.
        ground
          (arith, is_listed-put x st m wa' e n, contains-del_worker w w (at x st m) wa' last h);
  }

  pub cleaned-Leaves :
      (st : State x) (w : Source) (m : Match x) (wa' : WorkersAndEntries x) (last : Bool)
      → del_worker x w (at x st m) ≡ some (wa', last)
      → Leaves w m st (check_cleanup x (put x st m wa') m)
  cleaned-Leaves st w m wa' last h =
      let l = put-Leaves st w m wa' last h in
      let st' = put x st m wa' in
      record {
        rest = SameRest-trans x l.rest (check_cleanup-SameRest x st' m);
        subscribed = λ v n. is_subscribed-check_cleanup x st' m v n ∙ l.subscribed v n;
        listed = λ e n. is_listed-check_cleanup x st' m e n ∙ l.listed e n;
      }

  at-some :
      (st : State x) (m : Match x) (wa : WorkersAndEntries x)
      → st.match_2_workers_entries m ≡ some wa
      → at x st m ≡ wa
  unfolding at
  at-some st m wa h = rw (h, at)

  leave-Leaves :
      (st : State x) (sub : Subscription x) (wa : WorkersAndEntries x)
      → st.match_2_workers_entries sub.matching ≡ some wa
      → Leaves sub.worker sub.matching st (leave x st sub wa).0
  unfolding leave is_subscribed
  leave-Leaves st sub wa h =
      let w = sub.worker in
      let m = sub.matching in
      let e = at-some st m wa h in
      elim (Option-cases (del_worker x w wa)) [
        | inl absent ↦
            rw (absent, leave)
              (record {
                rest = SameRest-refl x st;
                subscribed = λ v n. ground (arith, e, del_worker-none w wa absent);
                listed = λ d n. refl;
              })
        | inr ((wa', true), found) ↦ rw (found, leave) (cleaned-Leaves st w m wa' true (rw e found))
        | inr ((wa', false), found) ↦ rw (found, leave) (put-Leaves st w m wa' false (rw e found))
      ]

  pub unsubscribe_from-Leaves :
      (st : State x) (sub : Subscription x) (ms : List (Match x)) (o : Option (WorkersAndEntries x))
      → st.match_2_workers_entries sub.matching ≡ o
      → Leaves sub.worker sub.matching st (unsubscribe_from x st sub ms o).0
  unfolding unsubscribe_from is_subscribed at contains
  unsubscribe_from-Leaves st sub ms none h = record {
    rest = SameRest-refl x st;
    subscribed = λ v n. ground arith;
    listed = λ d n. refl;
  }
  unsubscribe_from-Leaves st sub ms (some wa) h = leave-Leaves st sub wa h

  -- A subscription keeps the invariant.
  pub worker_subscribes-IsConsistent :
      (st : State x) (sub : Subscription x)
      → IsConsistent st
      → IsConsistent (worker_subscribes x st sub).0
  unfolding worker_subscribes put at is_subscribed is_listed is_current
  worker_subscribes-IsConsistent st sub c =
      let w = sub.worker in
      let m = sub.matching in
      let added = λ (v : Source). contains-add_worker v w (at x st m) in
      record {
        keyed = c.keyed;
        subscribed = λ v n. ground (
          arith,
          c.subscribed v n,
          added v,
          contains-add (match_discrete x) n m (st.rtm_matches w),
        );
        listed = λ e n. ground (arith, c.listed e n, added w);
        owned = c.owned;
        distinct = λ v. ground (
          arith,
          c.distinct v,
          add-IsDistinct (match_discrete x) m (st.rtm_matches w) (c.distinct w),
        );
      }

  -- `ms` are the worker's matches without `m`.
  drop_match-IsConsistent :
      (st st' : State x) (w : Source) (m : Match x) (ws : List Source)
      → IsConsistent st
      → Leaves w m
          (record st {
            rtm_matches =
                update source_discrete st.rtm_matches w
                  (discard (match_discrete x) m (st.rtm_matches w));
          })
          st'
      → IsConsistent (record st' { workers = ws })
  unfolding is_subscribed at is_listed is_current
  drop_match-IsConsistent st st' w m ws c l =
      let nlri = λ (s : Source) (n : x.Nlri).
        ap (λ (f : Source → x.Nlri → Option (Entry x)). f s n) l.rest.source_nlri_2_entry in
      let mine = λ (v : Source). ap (λ (f : Source → List (Match x)). f v) l.rest.rtm_matches in
      let own =
        λ (s : Source). ap (λ (f : Source → List (Entry x)). f s) l.rest.rtm_route_entries in
      record {
        keyed = λ s n e h. c.keyed s n e (sym (nlri s n) ∙ h);
        subscribed = λ v n. ground (
          arith,
          l.subscribed v n,
          c.subscribed v n,
          mine v,
          contains-discard (match_discrete x) n m (st.rtm_matches w),
        );
        listed = λ e n. ground (arith, l.listed e n, c.listed e n, nlri e.source e.nlri);
        owned = λ s e. ground (arith, c.owned s e, own s, nlri e.source e.nlri);
        distinct = λ v. subst (IsDistinct (match_discrete x)) (sym (mine v)) (
            ground (
              arith,
              c.distinct v,
              discard-IsDistinct (match_discrete x) m (st.rtm_matches w) (c.distinct w),
            ));
      }

  -- An unsubscription keeps the invariant.
  pub worker_unsubscribes-IsConsistent :
      (st : State x) (sub : Subscription x)
      → IsConsistent st
      → IsConsistent (worker_unsubscribes x st sub).0
  unfolding worker_unsubscribes
  worker_unsubscribes-IsConsistent st sub c =
      let w = sub.worker in
      let m = sub.matching in
      let ms = discard (match_discrete x) m (st.rtm_matches w) in
      let st' = record st { rtm_matches = update source_discrete st.rtm_matches w ms } in
      let o = st.match_2_workers_entries m in
      drop_match-IsConsistent st (unsubscribe_from x st' sub ms o).0 w m _ c
        (unsubscribe_from-Leaves st' sub ms o refl)
