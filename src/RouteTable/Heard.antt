-- ===== src/RouteTable/Heard.antt =====
-- The route events, and what the client of the callbacks has heard.
use networking_bagpipe_l.Common.{
  ◌≡◌, refl, Bool, Option, none, some, List, [], ◌∷◌, add, discard, Bool-cases, Option-cases, inl,
  inr, subst,
}
use networking_bagpipe_l.Engine.{
  Exabgp, Source, EventType, advertise, withdraw, RouteEvent, event_for,
}
use networking_bagpipe_l.RouteTable.Match.{Match}
use networking_bagpipe_l.RouteTable.Defs.{
  State, WorkersAndEntries, Effect, Entry, same_entry, at, put,
}
use networking_bagpipe_l.RouteTable.Routes.{
  add_targets, find_targets, propagate_route_event, matches_of, discard_from, discard_entry,
  add_entry, remove_route, remove_replaced, record_route, forget_route, is_same, receive_advertise,
  withdraw_entry, receive_withdraw, receive_as,
}
use networking_bagpipe_l.RouteTable.Callbacks.{
  hear_all, Fits, IsHeard, hear_all-append, hear-deliver_all, put-IsHeard, check_cleanup-IsHeard,
}

module _ (x : Exabgp) where
  entries-Fits :
      (wa : WorkersAndEntries x) (b : Bool) (es : List (Entry x))
      → Fits x wa b
      → Fits x (record wa { entries = es }) b
  entries-Fits wa b es f = record { count = f.count; distinct = f.distinct; told = f.told }

  put-same :
      (st : State x) (k : Match x → Bool) (m : Match x) (wa : WorkersAndEntries x)
      → IsHeard x st k
      → Fits x wa (k m)
      → IsHeard x (put x st m wa) k
  put-same st k m wa h f = put-IsHeard x st k k m wa h f (λ n e. refl)

  find_targets-IsHeard :
      (st : State x) (k : Match x → Bool) (s : Source) (except : List Source) (ms : List (Match x))
      (ts : List Source)
      → IsHeard x st k
      → IsHeard x (find_targets x st s except ms ts).0 k
  unfolding find_targets
  find_targets-IsHeard st k s except [] ts h = h
  find_targets-IsHeard st k s except (m ∷ ms) ts h =
      find_targets-IsHeard (put x st m (at x st m)) k s except ms
        (add_targets x s except (at x st m).workers ts) (put-same st k m (at x st m) h (h m))

  discard_from-IsHeard :
      (st : State x) (k : Match x → Bool) (e : Entry x) (m : Match x)
      → IsHeard x st k
      → IsHeard x (discard_from x st e m) k
  unfolding discard_from at
  discard_from-IsHeard st k e m h = elim (Option-cases (st.match_2_workers_entries m)) [
    | inl absent ↦ rw (absent, discard_from) h
    | inr (wa, found) ↦
        let es = discard (same_entry x) e wa.entries in
        let there : at x st m ≡ wa = rw (found, at) in
        rw (found, discard_from)
          (check_cleanup-IsHeard x (put x st m (record wa { entries = es })) k m (
            put-same st k m (record wa { entries = es }) h
              (entries-Fits wa (k m) es
                (subst (λ (o : WorkersAndEntries x). Fits x o (k m)) there (h m)))))
  ]

  discard_entry-IsHeard :
      (st : State x) (k : Match x → Bool) (e : Entry x) (ms : List (Match x))
      → IsHeard x st k
      → IsHeard x (discard_entry x st e ms) k
  unfolding discard_entry
  discard_entry-IsHeard st k e [] h = h
  discard_entry-IsHeard st k e (m ∷ ms) h =
      discard_entry-IsHeard (discard_from x st e m) k e ms (discard_from-IsHeard st k e m h)

  add_entry-IsHeard :
      (st : State x) (k : Match x → Bool) (e : Entry x) (ms : List (Match x))
      → IsHeard x st k
      → IsHeard x (add_entry x st e ms) k
  unfolding add_entry
  add_entry-IsHeard st k e [] h = h
  add_entry-IsHeard st k e (m ∷ ms) h =
      let wa = at x st m in
      let es = add (same_entry x) e wa.entries in
      add_entry-IsHeard (put x st m (record wa { entries = es })) k e ms
        (put-same st k m (record wa { entries = es }) h (entries-Fits wa (k m) es (h m)))

  -- what an operation does to the count, with the set of the client before it
  abbrev pub Hears : (Match x → Bool) → State x × List (Effect x) → Type 0
  Hears k (st, es) = IsHeard x st (hear_all x k es)

  propagate-Hears :
      (st : State x) (k : Match x → Bool) (ev : RouteEvent x) (except : List Source)
      → IsHeard x st k
      → Hears k ((propagate_route_event x st ev except).0, (propagate_route_event x st ev except).2)
  unfolding propagate_route_event
  propagate-Hears st k ev except h =
      rw hear-deliver_all
        (find_targets-IsHeard st k ev.route_entry.source except (matches_of x ev.route_entry) [] h)

  remove_route-Hears :
      (st : State x) (k : Match x → Bool) (s : Source) (old : Entry x) (notified : List Source)
      → IsHeard x st k
      → Hears k (remove_route x st s old notified)
  unfolding remove_route at
  remove_route-Hears st k s old notified h =
      let p = propagate_route_event x st (event_for x withdraw old) notified in
      discard_entry-IsHeard p.0 (hear_all x k p.2) old (matches_of x old)
        (propagate-Hears st k (event_for x withdraw old) notified h)

  remove_replaced-Hears :
      (st : State x) (k : Match x → Bool) (s : Source) (o : Option (Entry x))
      (notified : List Source)
      → IsHeard x st k
      → Hears k (remove_replaced x st s o notified)
  unfolding remove_replaced hear_all
  remove_replaced-Hears st k s none notified h = h
  remove_replaced-Hears st k s (some r) notified h = remove_route-Hears st k s _ notified h

  receive_advertise-Hears :
      (st : State x) (k : Match x → Bool) (ev : RouteEvent x)
      → IsHeard x st k
      → Hears k (receive_advertise x st ev)
  unfolding receive_advertise record_route at hear_all
  receive_advertise-Hears st k ev h =
      let e = ev.route_entry in
      let before = st.source_nlri_2_entry e.source e.nlri in
      let p = propagate_route_event x st (record ev { replaced_route = before }) [] in
      let r = remove_replaced x p.0 e.source before p.1 in
      elim (Bool-cases (is_same x before e)) [
        | inl same ↦ rw same h
        | inr new ↦
            rw (new, hear_all-append x k p.2 r.1)
              (add_entry-IsHeard r.0 (hear_all x (hear_all x k p.2) r.1) e (matches_of x e) (
                remove_replaced-Hears p.0 (hear_all x k p.2) e.source before p.1
                  (propagate-Hears st k (record ev { replaced_route = before }) [] h)))
      ]

  withdraw_entry-Hears :
      (st : State x) (k : Match x → Bool) (e : Entry x) (o : Option (Entry x))
      → IsHeard x st k
      → Hears k (withdraw_entry x st e o)
  unfolding withdraw_entry forget_route at hear_all
  withdraw_entry-Hears st k e none h = h
  withdraw_entry-Hears st k e (some r) h = remove_replaced-Hears st k e.source (some r) [] h

  pub receive-Hears :
      (ty : EventType) (st : State x) (k : Match x → Bool) (ev : RouteEvent x)
      → IsHeard x st k
      → Hears k (receive_as x ty st ev)
  unfolding receive_as receive_withdraw
  receive-Hears advertise st k ev h = receive_advertise-Hears st k ev h
  receive-Hears withdraw st k ev h = withdraw_entry-Hears st k ev.route_entry _ h
