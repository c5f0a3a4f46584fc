-- ===== src/RouteTable/Exact.antt =====
-- What the workers learn from the route events.
use networking_bagpipe_l.Common.{
  ◌≡◌, false, not, ◌&&◌, ◌||◌, Option, none, some, List, [], arith, eqb, contains, IsDistinct, ◌∙◌,
  sym, ap, subst, if◌then◌else◌,
}
use networking_bagpipe_l.Engine.{Exabgp, Source, source_discrete, RouteEvent, advertise}
use networking_bagpipe_l.RouteTable.Match.{Match, match_discrete}
use networking_bagpipe_l.RouteTable.Defs.{
  State, Entry, same_entry, test_should_dispatch, intersects,
}
use networking_bagpipe_l.RouteTable.Routes.{
  is_same, matches_of, propagate_route_event, remove_replaced, forget_route, receive_advertise,
  withdraw_entry,
}
use networking_bagpipe_l.RouteTable.Loops.{SameTable}
use networking_bagpipe_l.RouteTable.Consistent.{IsConsistent, is_current}
use networking_bagpipe_l.RouteTable.Current.{
  Replaces, HasKey, HasKey-before, is_same_key, is_current-Replaces, propagate-SameTable,
}
use networking_bagpipe_l.RouteTable.Receive.{advertised, advertised-Replaces, withdrawn-Replaces}
use networking_bagpipe_l.RouteTable.View.{
  View, apply, see_all, is_wanted, IsExact, see_all-append, see_all-deliver_all,
  sent-propagate_route_event, contains-targets, see-remove_replaced,
}

module _ (x : Exabgp) where
  SameTable-IsConsistent :
      (st st' : State x) → SameTable x st st' → IsConsistent x st → IsConsistent x st'
  unfolding is_current
  SameTable-IsConsistent st st' t c =
      let nlri = λ (s : Source) (n : x.Nlri).
        ap (λ (f : Source → x.Nlri → Option (Entry x)). f s n) t.same_rest.source_nlri_2_entry in
      let mine =
        λ (v : Source). ap (λ (f : Source → List (Match x)). f v) t.same_rest.rtm_matches in
      let own =
        λ (s : Source). ap (λ (f : Source → List (Entry x)). f s) t.same_rest.rtm_route_entries in
      record {
        keyed = λ s n e h. c.keyed s n e (sym (nlri s n) ∙ h);
        subscribed = λ w m. ground (arith, t.same_subscribed w m, c.subscribed w m, mine w);
        listed = λ e m. ground (arith, t.same_listed e m, c.listed e m, nlri e.source e.nlri);
        owned = λ s e. ground (arith, c.owned s e, own s, nlri e.source e.nlri);
        distinct = λ w. subst (IsDistinct (match_discrete x)) (sym (mine w)) (c.distinct w);
      }

  is_current_key :
      (st : State x) (e d : Entry x)
      → d.source ≡ e.source
      → d.nlri ≡ e.nlri
      → is_current x st d ≡ is_same x (st.source_nlri_2_entry e.source e.nlri) d
  unfolding is_current
  is_current_key st e d p q = rw (p, q)

  -- what a route is to be for each worker once the route of `e`'s key has changed
  is_wanted-Replaces :
      (st st' : State x) (e : Entry x) (before after : Option (Entry x))
      → Replaces x e before after st st'
      → (w : Source) (d : Entry x)
      → is_wanted x st' w d ≡ (
          (if eqb source_discrete d.source e.source && eqb x.nlri_discrete d.nlri e.nlri
            then is_same x after d
            else is_current x st d)
          && (test_should_dispatch x d.source w
              && intersects x (matches_of x d) (st.rtm_matches w)))
  unfolding is_wanted
  is_wanted-Replaces st st' e before after r w d = ground (
    arith,
    is_current-Replaces x st st' e d before after r,
    ap (λ (f : Source → List (Match x)). f w) r.matches,
  )

  -- the views after the first half of an ADVERTISE
  see-propagate_advertise :
      (st : State x) (v : View x) (ev : RouteEvent x) (before : Option (Entry x))
      → IsConsistent x st
      → ev.type ≡ advertise
      → (w : Source) (d : Entry x)
      → let p = propagate_route_event x st (record ev { replaced_route = before }) [] in
        see_all x v p.2 w d ≡ (
          if contains source_discrete w p.1
          then eqb (same_entry x) d ev.route_entry || v w d && not (is_same x before d)
          else v w d)
  unfolding apply
  see-propagate_advertise st v ev before c ty w d =
      let ev' = record ev { replaced_route = before } in
      let p = propagate_route_event x st ev' [] in
      ground
        (arith, ty, sent-propagate_route_event x st ev' [], see_all-deliver_all x v ev' p.1 w d)

  -- the views after both halves
  see-advertise :
      (st : State x) (v : View x) (ev : RouteEvent x)
      → IsConsistent x st
      → ev.type ≡ advertise
      → is_same x (st.source_nlri_2_entry ev.route_entry.source ev.route_entry.nlri) ev.route_entry
        ≡ false
      → (w : Source) (d : Entry x)
      → let e = ev.route_entry in
        let before = st.source_nlri_2_entry e.source e.nlri in
        let gets = λ (y : Entry x).
          intersects x (matches_of x y) (st.rtm_matches w) && test_should_dispatch x e.source w in
        see_all x v (receive_advertise x st ev).1 w d ≡ (
          if is_same x before d && (gets d && not (gets e))
          then false
          else if gets e
          then eqb (same_entry x) d e || v w d && not (is_same x before d)
          else v w d)
  unfolding receive_advertise contains
  see-advertise st v ev c ty new w d =
      let e = ev.route_entry in
      let before = st.source_nlri_2_entry e.source e.nlri in
      let ev' = record ev { replaced_route = before } in
      let p = propagate_route_event x st ev' [] in
      let t = propagate-SameTable x st ev' [] in
      let c₁ = SameTable-IsConsistent st p.0 t c in
      let v₁ = see_all x v p.2 in
      rw (new) (
        rw (see_all-append x v p.2 (remove_replaced x p.0 e.source before p.1).1) (
          ground (
            arith,
            see-propagate_advertise st v ev before c ty w d,
            see-remove_replaced x p.0 v₁ e before p.1 c₁ (HasKey-before x st e c) w d,
            contains-targets x st ev' [] w c,
            ap (λ (f : Source → List (Match x)). f w) t.same_rest.rtm_matches,
          )))

  -- An ADVERTISE that is not ignored: those that want the new route get it in place of the old one,
  -- and the others lose the old one.
  pub advertise-IsExact :
      (st : State x) (v : View x) (ev : RouteEvent x)
      → IsConsistent x st
      → ev.type ≡ advertise
      → is_same x (st.source_nlri_2_entry ev.route_entry.source ev.route_entry.nlri) ev.route_entry
        ≡ false
      → IsExact x st v
      → IsExact x (advertised x st ev) (see_all x v (receive_advertise x st ev).1)
  unfolding is_wanted is_same
  advertise-IsExact st v ev c ty new ex w d =
      let e = ev.route_entry in
      let before = st.source_nlri_2_entry e.source e.nlri in
      ground (
        arith,
        see-advertise st v ev c ty new w d,
        ex w d,
        is_wanted-Replaces st (advertised x st ev) e before (some e) (advertised-Replaces x st ev c)
            w d,
        is_current_key st e d,
        is_same_key x e d before (HasKey-before x st e c),
      )

  -- A WITHDRAW of a route that its source has: those that had it lose it.
  pub withdraw-IsExact :
      (st : State x) (v : View x) (e r : Entry x)
      → IsConsistent x st
      → st.source_nlri_2_entry e.source e.nlri ≡ some r
      → IsExact x st v
      → IsExact x
          (withdraw_entry x st e (some r)).0
          (see_all x v (withdraw_entry x st e (some r)).1)
  unfolding withdraw_entry is_wanted is_same contains
  withdraw-IsExact st v e r c h ex w d =
      let k = subst (HasKey x e) h (HasKey-before x st e c) in
      let rep =
        subst
          (λ (o : Option (Entry x)).
            Replaces x e o none st (forget_route x (remove_replaced x st e.source o []).0 e))
          h (withdrawn-Replaces x st e c) in
      ground (
        arith,
        h,
        see-remove_replaced x st v e (some r) [] c k w d,
        ex w d,
        is_wanted-Replaces st (withdraw_entry x st e (some r)).0 e (some r) none rep w d,
        is_current_key st e d,
        is_same_key x e d (some r) k,
      )
