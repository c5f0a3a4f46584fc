-- ===== src/RouteTable/Receive.antt =====
-- The route events, all events together, and the reachable states of the route table manager.
use networking_bagpipe_l.Common.{
  ◌≡◌, refl, Option, none, some, List, [], arith, contains-add, contains-discard, Bool-cases, inl,
  inr, ◌∙◌, ap, subst,
}
use networking_bagpipe_l.Engine.{Exabgp, Source, EventType, RouteEvent, advertise, withdraw}
use networking_bagpipe_l.RouteTable.Match.{contains-matches_for}
use networking_bagpipe_l.RouteTable.Defs.{
  State, Event, route, subscribe, unsubscribe, worker_cleanup, Entry, same_entry, at,
}
use networking_bagpipe_l.RouteTable.Routes.{
  is_same, matches_of, propagate_route_event, remove_replaced, record_route, forget_route,
  receive_advertise, receive_withdraw, withdraw_entry, receive_as, receive_route_event, on_event,
}
use networking_bagpipe_l.RouteTable.Table.{is_subscribed, is_listed}
use networking_bagpipe_l.RouteTable.Loops.{add_entry-Lists}
use networking_bagpipe_l.RouteTable.Consistent.{
  IsConsistent, is_current, worker_subscribes-IsConsistent, worker_unsubscribes-IsConsistent,
}
use networking_bagpipe_l.RouteTable.Cleanup.{cleanup_worker-IsConsistent}
use networking_bagpipe_l.RouteTable.Current.{
  Replaces, Removes, HasKey-before, Replaces-IsConsistent, Removes-SameTable, propagate-SameTable,
  remove_replaced-Removes,
}

module _ (x : Exabgp) where
  record_route-Replaces :
      (st st' : State x) (e : Entry x) (before : Option (Entry x))
      → Removes x e before st st'
      → Replaces x e before (some e) st (record_route x st' e)
  unfolding record_route is_listed is_subscribed at is_same
  record_route-Replaces st st' e before r =
      let l = add_entry-Lists x st' e (matches_of x e) in
      record {
        nlri = λ s n. ground (
          arith,
          ap (λ (f : Source → x.Nlri → Option (Entry x)). f s n)
              (l.rest.source_nlri_2_entry ∙ r.nlri),
          ap (λ (f : Source → x.Nlri → Option (Entry x)). f e.source n)
              (l.rest.source_nlri_2_entry ∙ r.nlri),
        );
        listed = λ d m. ground (arith, l.listed d m, r.listed d m, contains-matches_for x m e);
        owned = λ s d. ground (
          arith,
          r.owned s d,
          ap (λ (f : Source → List (Entry x)). f s) l.rest.rtm_route_entries,
          contains-add (same_entry x) d e (st'.rtm_route_entries e.source),
        );
        subscribed = λ w m. l.subscribed w m ∙ r.subscribed w m;
        matches = l.rest.rtm_matches ∙ r.matches;
      }

  forget_route-Replaces :
      (st st' : State x) (e : Entry x)
      → IsConsistent x st
      → Removes x e (st.source_nlri_2_entry e.source e.nlri) st st'
      → Replaces x e (st.source_nlri_2_entry e.source e.nlri) none st (forget_route x st' e)
  unfolding forget_route is_listed is_subscribed at is_current is_same
  forget_route-Replaces st st' e c r = record {
    nlri = λ s n. ground (
      arith,
      ap (λ (f : Source → x.Nlri → Option (Entry x)). f s n) r.nlri,
      ap (λ (f : Source → x.Nlri → Option (Entry x)). f e.source n) r.nlri,
    );
    listed = λ d m. ground (arith, r.listed d m);
    owned = λ s d. ground (
      arith,
      r.owned s d,
      c.owned s d,
      contains-discard (same_entry x) d e (st'.rtm_route_entries e.source),
    );
    subscribed = r.subscribed;
    matches = r.matches;
  }

  -- The state after an ADVERTISE that is not ignored.
  unfoldable pub advertised : State x → RouteEvent x → State x
  advertised st ev =
      let e = ev.route_entry in
      let before = st.source_nlri_2_entry e.source e.nlri in
      let (st₁, notified, _) =
        propagate_route_event x st (record ev { replaced_route = before }) [] in
      record_route x (remove_replaced x st₁ e.source before notified).0 e

  pub advertised-Replaces :
      (st : State x) (ev : RouteEvent x)
      → IsConsistent x st
      → let e = ev.route_entry in
        Replaces x e (st.source_nlri_2_entry e.source e.nlri) (some e) st (advertised st ev)
  unfolding advertised
  advertised-Replaces st ev c =
      let e = ev.route_entry in
      let before = st.source_nlri_2_entry e.source e.nlri in
      let ev' = record ev { replaced_route = before } in
      let p = propagate_route_event x st ev' [] in
      record_route-Replaces st (remove_replaced x p.0 e.source before p.1).0 e before (
        Removes-SameTable x e before (propagate-SameTable x st ev' [])
          (remove_replaced-Removes x e p.0 before p.1 (HasKey-before x st e c)))

  receive_advertise-IsConsistent :
      (st : State x) (ev : RouteEvent x)
      → IsConsistent x st
      → IsConsistent x (receive_advertise x st ev).0
  unfolding receive_advertise advertised
  receive_advertise-IsConsistent st ev c =
      let e = ev.route_entry in
      let before = st.source_nlri_2_entry e.source e.nlri in
      elim (Bool-cases (is_same x before e)) [
        | inl same ↦ rw same c
        | inr new ↦ rw new (
            Replaces-IsConsistent x st (advertised st ev) e (some e) c (HasKey-before x st e c)
              (refl, refl) (advertised-Replaces st ev c))
      ]

  -- The state after a WITHDRAW that is not ignored.
  pub withdrawn-Replaces :
      (st : State x) (e : Entry x)
      → IsConsistent x st
      → let before = st.source_nlri_2_entry e.source e.nlri in
        Replaces x e before none st (forget_route x (remove_replaced x st e.source before []).0 e)
  withdrawn-Replaces st e c =
      let before = st.source_nlri_2_entry e.source e.nlri in
      forget_route-Replaces st (remove_replaced x st e.source before []).0 e c
        (remove_replaced-Removes x e st before [] (HasKey-before x st e c))

  withdraw_entry-IsConsistent :
      (st : State x) (e : Entry x) (o : Option (Entry x))
      → st.source_nlri_2_entry e.source e.nlri ≡ o
      → IsConsistent x st
      → IsConsistent x (withdraw_entry x st e o).0
  unfolding withdraw_entry
  withdraw_entry-IsConsistent st e none h c = c
  withdraw_entry-IsConsistent st e (some r) h c =
      subst
        (λ (o : Option (Entry x)).
          IsConsistent x (forget_route x (remove_replaced x st e.source o []).0 e))
        h
        (Replaces-IsConsistent x st _ e none c (HasKey-before x st e c) tt
          (withdrawn-Replaces st e c))

  receive_as-IsConsistent :
      (ty : EventType) (st : State x) (ev : RouteEvent x)
      → IsConsistent x st
      → IsConsistent x (receive_as x ty st ev).0
  unfolding receive_as receive_withdraw
  receive_as-IsConsistent advertise st ev c = receive_advertise-IsConsistent st ev c
  receive_as-IsConsistent withdraw st ev c =
      let e = ev.route_entry in
      withdraw_entry-IsConsistent st e (st.source_nlri_2_entry e.source e.nlri) refl c

  -- Every event that the manager handles keeps its invariant.
  pub on_event-IsConsistent :
      (st : State x) (ev : Event x) → IsConsistent x st → IsConsistent x (on_event x st ev).0
  unfolding on_event receive_route_event
  on_event-IsConsistent st (route ev) c = receive_as-IsConsistent ev.type st ev c
  on_event-IsConsistent st (subscribe sub) c = worker_subscribes-IsConsistent x st sub c
  on_event-IsConsistent st (unsubscribe sub) c = worker_unsubscribes-IsConsistent x st sub c
  on_event-IsConsistent st (worker_cleanup w) c = cleanup_worker-IsConsistent x st w c
