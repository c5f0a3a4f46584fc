-- ===== src/RouteTable/Told.antt =====
-- Subscriptions, unsubscriptions and cleanups, and what the client of the callbacks has heard; the
-- histories in which no worker subscribes to a match that it is subscribed to.
use networking_bagpipe_l.Common.{
  ◌≡◌, refl, Bool, true, false, not, ◌&&◌, ◌||◌, Option, none, some, List, [], ◌∷◌, arith, eqb,
  update, add, discard, if◌then◌else◌, Bool-cases, Option-cases, inl, inr, subst,
}
use networking_bagpipe_l.Engine.{Exabgp, Source, source_discrete}
use networking_bagpipe_l.RouteTable.Match.{Match, match_discrete}
use networking_bagpipe_l.RouteTable.Defs.{
  State, WorkersAndEntries, Subscription, Effect, first_local_subscriber, last_local_subscriber,
  Event, route, subscribe, unsubscribe, worker_cleanup, add_worker, del_worker, at, put,
  check_cleanup, resynthesize, synthesize_withdraws, leave, unsubscribe_from, worker_subscribes,
  worker_unsubscribes,
}
use networking_bagpipe_l.RouteTable.Routes.{
  receive_route_event, leave_all, cleanup_worker, on_event,
}
use networking_bagpipe_l.RouteTable.Table.{is_subscribed}
use networking_bagpipe_l.RouteTable.Consistent.{initial}
use networking_bagpipe_l.RouteTable.Callbacks.{
  count_local, hear, hear_all, Fits, IsHeard, hear_all-append, hear-enqueue, hear-resynthesize,
  hear-synthesize_withdraws, put-IsHeard, check_cleanup-IsHeard, add_worker-Fits, del_worker-Fits,
}
use networking_bagpipe_l.RouteTable.Heard.{Hears, receive-Hears}

module _ (x : Exabgp) where
  -- the set of the client after the first, or the last, local worker of a match
  abbrev tell_first : Bool → Subscription x → List (Effect x)
  tell_first b sub = if b then first_local_subscriber sub ∷ [] else []

  abbrev tell_last : Bool → Subscription x → List (Effect x)
  tell_last b sub = if b then last_local_subscriber sub ∷ [] else []

  hear-tell_first :
      (k : Match x → Bool) (b : Bool) (sub : Subscription x) (m : Match x)
      → hear_all x k (tell_first b sub) m ≡ (b && eqb (match_discrete x) m sub.matching || k m)
  unfolding hear_all hear
  hear-tell_first k b sub m = ground arith

  hear-tell_last :
      (k : Match x → Bool) (b : Bool) (sub : Subscription x) (m : Match x)
      → hear_all x k (tell_last b sub) m ≡ (not (b && eqb (match_discrete x) m sub.matching) && k m)
  unfolding hear_all hear
  hear-tell_last k b sub m = ground arith

  eqb_match : (m : Match x) → eqb (match_discrete x) m m ≡ true
  eqb_match m = ground arith

  worker_subscribes-Hears :
      (st : State x) (k : Match x → Bool) (sub : Subscription x)
      → is_subscribed x st sub.worker sub.matching ≡ false
      → IsHeard x st k
      → Hears x k (worker_subscribes x st sub)
  unfolding worker_subscribes at put is_subscribed
  worker_subscribes-Hears st k sub new h =
      let w = sub.worker in
      let m = sub.matching in
      let aw = add_worker x w (at x st m) in
      rw
        (
          hear_all-append x k (tell_first aw.1 sub)
              (resynthesize x w (st.rtm_matches w) aw.0.entries),
          hear-resynthesize,
        )
        (put-IsHeard x (record st { workers = add source_discrete w st.workers }) k
          (hear_all x k (tell_first aw.1 sub)) m aw.0 h
          (subst (Fits x aw.0) (ground (arith, hear-tell_first k aw.1 sub m, eqb_match m))
            (add_worker-Fits x w (at x st m) (k m) (h m) new))
          (λ n other. ground (arith, hear-tell_first k aw.1 sub n, other)))

  -- a worker leaves a match, and the entry of the dict is removed if it is empty
  put-Hears :
      (st : State x) (k : Match x → Bool) (m : Match x) (w : Source) (wa : WorkersAndEntries x)
      (last : Bool)
      → del_worker x w (at x st m) ≡ some (wa, last)
      → IsHeard x st k
      → IsHeard x
          (put x st m wa)
          (hear_all x k (tell_last last (record { matching = m; worker = w })))
  put-Hears st k m w wa last found h =
      let sub : Subscription x = record { matching = m; worker = w } in
      put-IsHeard x st k (hear_all x k (tell_last last sub)) m wa h
        (subst (Fits x wa) (ground (arith, hear-tell_last k last sub m, eqb_match m))
          (del_worker-Fits x w (at x st m) wa (k m) last (h m) found))
        (λ n other. ground (arith, hear-tell_last k last sub n, other))

  leave-Hears :
      (st : State x) (k : Match x → Bool) (sub : Subscription x) (wa : WorkersAndEntries x)
      → at x st sub.matching ≡ wa
      → IsHeard x st k
      → Hears x k (leave x st sub wa)
  unfolding leave hear_all
  leave-Hears st k sub wa e h =
      let m = sub.matching in
      elim (Option-cases (del_worker x sub.worker wa)) [
        | inl absent ↦ rw (absent, leave) h
        | inr ((wa', true), found) ↦
            rw (found, leave)
              (check_cleanup-IsHeard x (put x st m wa')
                (hear_all x k (last_local_subscriber sub ∷ [])) m
                (put-Hears st k m sub.worker wa' true (rw e found) h))
        | inr ((wa', false), found) ↦
            rw (found, leave) (put-Hears st k m sub.worker wa' false (rw e found) h)
      ]

  unsubscribe_from-Hears :
      (st : State x) (k : Match x → Bool) (sub : Subscription x) (ms : List (Match x))
      (o : Option (WorkersAndEntries x))
      → st.match_2_workers_entries sub.matching ≡ o
      → IsHeard x st k
      → Hears x k (unsubscribe_from x st sub ms o)
  unfolding unsubscribe_from hear_all at
  unsubscribe_from-Hears st k sub ms none e h = h
  unsubscribe_from-Hears st k sub ms (some wa) e h =
      rw
        (
          hear_all-append x k (synthesize_withdraws x sub.worker ms wa.entries)
              (leave x st sub wa).1,
          hear-synthesize_withdraws,
        )
        (leave-Hears st k sub wa (rw (e, at)) h)

  worker_unsubscribes-Hears :
      (st : State x) (k : Match x → Bool) (sub : Subscription x)
      → IsHeard x st k
      → Hears x k (worker_unsubscribes x st sub)
  unfolding worker_unsubscribes at
  worker_unsubscribes-Hears st k sub h =
      let ms = discard (match_discrete x) sub.matching (st.rtm_matches sub.worker) in
      unsubscribe_from-Hears
        (record st { rtm_matches = update source_discrete st.rtm_matches sub.worker ms }) k sub ms _
        refl h

  leave_all-Hears :
      (st : State x) (k : Match x → Bool) (w : Source) (ms : List (Match x))
      → IsHeard x st k
      → IsHeard x (leave_all x st w ms).0 (hear_all x k (leave_all x st w ms).1)
  unfolding leave_all hear_all
  leave_all-Hears st k w [] h = h
  leave_all-Hears st k w (m ∷ ms) h = elim (Option-cases (del_worker x w (at x st m))) [
    | inl absent ↦
        rw (absent, leave_all) (put-IsHeard x st k k m (at x st m) h (h m) (λ n other. refl))
    | inr ((wa, last), found) ↦
        let sub : Subscription x = record { matching = m; worker = w } in
        let st' = check_cleanup x (put x st m wa) m in
        let k' = hear_all x k (tell_last last sub) in
        rw (found, leave_all, hear_all-append x k (tell_last last sub) (leave_all x st' w ms).1)
          (leave_all-Hears st' k' w ms
            (check_cleanup-IsHeard x (put x st m wa) k' m (put-Hears st k m w wa last found h)))
  ]

  cleanup_worker-Hears :
      (st : State x) (k : Match x → Bool) (w : Source)
      → IsHeard x st k
      → Hears x k (cleanup_worker x st w)
  unfolding cleanup_worker at
  cleanup_worker-Hears st k w h =
      let l = leave_all x st w (st.rtm_matches w) in
      rw hear-enqueue (elim (Bool-cases l.2) [
        | inl done ↦ rw done (leave_all-Hears st k w (st.rtm_matches w) h)
        | inr stuck ↦ rw stuck (leave_all-Hears st k w (st.rtm_matches w) h)
      ])

  -- An event that is no repeated subscription.
  unfoldable pub is_fresh : State x → Event x → Bool
  is_fresh st (subscribe sub) = not (is_subscribed x st sub.worker sub.matching)
  is_fresh st _ = true

  -- The states that events which are no repeated subscriptions reach, with the set of the client.
  pub data Heard : State x → (Match x → Bool) → Type 0 where
    start : Heard (initial x) (λ m. false)
    next :
        {st : State x} {k : Match x → Bool} (ev : Event x)
        → Heard st k
        → is_fresh st ev ≡ true
        → Heard (on_event x st ev).0 (hear_all x k (on_event x st ev).1)

  on_event-Hears :
      (st : State x) (k : Match x → Bool) (ev : Event x)
      → is_fresh st ev ≡ true
      → IsHeard x st k
      → Hears x k (on_event x st ev)
  unfolding on_event receive_route_event is_fresh
  on_event-Hears st k (route ev) f h = receive-Hears x ev.type st k ev h
  on_event-Hears st k (subscribe sub) f h = worker_subscribes-Hears st k sub (ground arith) h
  on_event-Hears st k (unsubscribe sub) f h = worker_unsubscribes-Hears st k sub h
  on_event-Hears st k (worker_cleanup w) f h = cleanup_worker-Hears st k w h

  -- Where no worker subscribes to a match that it is subscribed to, in every reachable state the
  -- client of the callbacks has exactly the matches that have a local worker, and the count of each
  -- match is the number of its local workers, of which none is there twice.
  pub Heard-IsHeard : {st : State x} {k : Match x → Bool} → Heard st k → IsHeard x st k
  unfolding initial at count_local
  Heard-IsHeard start = λ m. record { count = refl; distinct = tt; told = refl }
  Heard-IsHeard (next ev r f) = on_event-Hears _ _ ev f (Heard-IsHeard r)
