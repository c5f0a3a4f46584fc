-- ===== src/RouteTable/Cleanup.antt =====
-- The cleanup of a worker, and the invariant of the route table manager.
use networking_bagpipe_l.Common.{
  ◌≡◌, refl, true, not, ◌&&◌, Option, List, [], ◌∷◌, arith, eqb, contains, Option-cases, inl, inr,
  ◌∙◌, sym, ap, subst, update, IsDistinct,
}
use networking_bagpipe_l.Engine.{Exabgp, Source, source_discrete}
use networking_bagpipe_l.RouteTable.Match.{Match, match_discrete}
use networking_bagpipe_l.RouteTable.Defs.{State, Entry, at, put, check_cleanup, del_worker}
use networking_bagpipe_l.RouteTable.Routes.{leave_all, cleanup_worker}
use networking_bagpipe_l.RouteTable.Table.{
  is_subscribed, is_listed, SameRest, SameRest-refl, SameRest-trans,
}
use networking_bagpipe_l.RouteTable.Consistent.{
  IsConsistent, is_current, cleaned-Leaves, del_worker-none,
}

module _ (x : Exabgp) where
  -- what leaving a list of matches does to the table
  record LeavesAll (w : Source) (ms : List (Match x)) (st st' : State x) : Type 0 where
    rest : SameRest x st st'
    subscribed :
        (v : Source) (n : Match x)
        → is_subscribed x st' v n ≡ (
            is_subscribed x st v n
            && not (eqb source_discrete v w && contains (match_discrete x) n ms))
    listed : (e : Entry x) (n : Match x) → is_listed x st' e n ≡ is_listed x st e n

  -- A worker that is subscribed to all the matches leaves all of them, with no `KeyError`.
  leave_all-LeavesAll :
      (st : State x) (w : Source) (ms : List (Match x))
      → IsDistinct (match_discrete x) ms
      → ((m : Match x) → contains (match_discrete x) m ms ≡ true → is_subscribed x st w m ≡ true)
      → LeavesAll w ms st (leave_all x st w ms).0 × ((leave_all x st w ms).2 ≡ true)
  unfolding leave_all contains is_subscribed
  leave_all-LeavesAll st w [] d s = (
    record { rest = SameRest-refl x st; subscribed = λ v n. ground arith; listed = λ e n. refl },
    refl,
  )
  leave_all-LeavesAll st w (m ∷ ms) d s = elim (Option-cases (del_worker x w (at x st m))) [
    | inl absent ↦
        absurd (ground (arith, s m (ground arith), del_worker-none x w (at x st m) absent))
    | inr ((wa, last), found) ↦
        let st' = check_cleanup x (put x st m wa) m in
        let one = cleaned-Leaves x st w m wa last found in
        let (ih, done) =
          leave_all-LeavesAll st' w ms d.1
            (λ n h. ground (arith, s n (ground arith), one.subscribed w n, d.0, h)) in
        rw (found, leave_all)
          (
            record {
              rest = SameRest-trans x one.rest ih.rest;
              subscribed = λ v n. ground (arith, ih.subscribed v n, one.subscribed v n);
              listed = λ e n. ih.listed e n ∙ one.listed e n;
            },
            done,
          )
  ]

  -- The cleanup of a worker keeps the invariant, and leaves the worker without subscriptions.
  pub cleanup_worker-IsConsistent :
      (st : State x) (w : Source) → IsConsistent x st → IsConsistent x (cleanup_worker x st w).0
  unfolding cleanup_worker is_subscribed at is_listed is_current contains
  cleanup_worker-IsConsistent st w c =
      let (l, done) =
        leave_all-LeavesAll st w (st.rtm_matches w) (c.distinct w) (λ m h. c.subscribed w m ∙ h) in
      let nlri = λ (s : Source) (n : x.Nlri).
        ap (λ (f : Source → x.Nlri → Option (Entry x)). f s n) l.rest.source_nlri_2_entry in
      let mine = λ (v : Source). ap (λ (f : Source → List (Match x)). f v) l.rest.rtm_matches in
      let own =
        λ (s : Source). ap (λ (f : Source → List (Entry x)). f s) l.rest.rtm_route_entries in
      rw done (record {
        keyed = λ s n e h. c.keyed s n e (sym (nlri s n) ∙ h);
        subscribed = λ v n. ground (arith, l.subscribed v n, c.subscribed v n, mine v);
        listed = λ e n. ground (arith, l.listed e n, c.listed e n, nlri e.source e.nlri);
        owned = λ s e. ground (arith, c.owned s e, own s, nlri e.source e.nlri);
        distinct = λ v.
            ground (arith, subst (IsDistinct (match_discrete x)) (sym (mine v)) (c.distinct v));
      })

  -- The cleanup changes no route, and no subscription of another worker.
  pub cleanup_worker_rest :
      (st : State x) (w : Source)
      → IsConsistent x st
      → ((cleanup_worker x st w).0.source_nlri_2_entry ≡ st.source_nlri_2_entry)
        × ((cleanup_worker x st w).0.rtm_matches ≡ update source_discrete st.rtm_matches w [])
  unfolding cleanup_worker
  cleanup_worker_rest st w c =
      let (l, done) =
        leave_all-LeavesAll st w (st.rtm_matches w) (c.distinct w) (λ m h. c.subscribed w m ∙ h) in
      rw done (
        l.rest.source_nlri_2_entry,
        ap (λ (f : Source → List (Match x)). update source_discrete f w []) l.rest.rtm_matches,
      )
