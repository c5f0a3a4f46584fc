-- ===== src/RouteTable/View.antt =====
-- What the workers learn. The view of a worker is the set of routes that it gets by applying the
-- events in its queue in order: an ADVERTISE adds its route and removes the replaced one, a
-- WITHDRAW removes its route. A worker that is cleaned up has an empty view.
use networking_bagpipe_l.Common.{
  ◌≡◌, refl, Bool, false, not, ◌&&◌, ◌||◌, Option, none, some, List, [], ◌∷◌, ◌++◌, arith, eqb,
  contains, subst, if◌then◌else◌,
}
use networking_bagpipe_l.Engine.{
  Exabgp, Source, source_discrete, EventType, RouteEvent, advertise, withdraw, event_for,
}
use networking_bagpipe_l.RouteTable.Match.{Match}
use networking_bagpipe_l.RouteTable.Defs.{
  State, Effect, deliver, Entry, same_entry, test_should_dispatch, intersects,
}
use networking_bagpipe_l.RouteTable.Routes.{
  is_same, matches_of, deliver_all, is_target, propagate_route_event, remove_route, remove_replaced,
}
use networking_bagpipe_l.RouteTable.Current.{HasKey, with_source-same}
use networking_bagpipe_l.RouteTable.Loops.{is_interested, contains-find_targets}
use networking_bagpipe_l.RouteTable.Consistent.{IsConsistent, is_current}

module _ (x : Exabgp) where
  abbrev pub View : Type 0
  View = Source → Entry x → Bool

  -- one event, for the worker that receives it
  unfoldable pub apply : EventType → RouteEvent x → (Entry x → Bool) → Entry x → Bool
  apply advertise ev v d =
      eqb (same_entry x) d ev.route_entry || v d && not (is_same x ev.replaced_route d)
  apply withdraw ev v d = v d && not (eqb (same_entry x) d ev.route_entry)

  unfoldable pub see : View → Effect x → View
  see v (deliver w ev) u d = if eqb source_discrete u w then apply ev.type ev (v w) d else v u d
  see v _ u d = v u d

  unfoldable pub see_all : View → List (Effect x) → View
  see_all v [] = v
  see_all v (e ∷ es) = see_all (see v e) es

  -- The routes that a worker with the matches `ms` should have.
  unfoldable pub is_wanted : State x → Source → Entry x → Bool
  is_wanted st w d =
      is_current x st d
      && (test_should_dispatch x d.source w && intersects x (matches_of x d) (st.rtm_matches w))

  -- Every worker has exactly the routes that it should have.
  abbrev pub IsExact : State x → View → Type 0
  IsExact st v = (w : Source) (d : Entry x) → v w d ≡ is_wanted st w d

  pub see_all-append :
      (v : View) (es fs : List (Effect x)) → see_all v (es ++ fs) ≡ see_all (see_all v es) fs
  unfolding see_all
  see_all-append v [] fs = refl
  see_all-append v (e ∷ es) fs = see_all-append (see v e) es fs

  apply_withdraw :
      (e : Entry x) (v : Entry x → Bool) (d : Entry x)
      → apply withdraw (event_for x withdraw e) v d ≡ (v d && not (eqb (same_entry x) d e))
  unfolding apply event_for
  apply_withdraw e v d = refl

  -- applying an event again changes nothing
  apply_twice :
      (ty : EventType) (ev : RouteEvent x) (v v' : Entry x → Bool) (d : Entry x)
      → v' d ≡ apply ty ev v d
      → apply ty ev v' d ≡ apply ty ev v d
  unfolding apply
  apply_twice advertise ev v v' d h = ground arith
  apply_twice withdraw ev v v' d h = ground arith

  apply-cong :
      (ty : EventType) (ev : RouteEvent x) (v v' : Entry x → Bool) (d : Entry x)
      → v' d ≡ v d
      → apply ty ev v' d ≡ apply ty ev v d
  unfolding apply
  apply-cong advertise ev v v' d h = ground arith
  apply-cong withdraw ev v v' d h = ground arith

  -- The targets of an event apply it, and nobody else does.
  pub see_all-deliver_all :
      (v : View) (ev : RouteEvent x) (ws : List Source) (w : Source) (d : Entry x)
      → see_all v (deliver_all x ev ws) w d
        ≡ (if contains source_discrete w ws then apply ev.type ev (v w) d else v w d)
  unfolding see_all deliver_all see contains
  see_all-deliver_all v ev [] w d = refl
  see_all-deliver_all v ev (u ∷ ws) w d =
      let v' = see v (deliver u ev) in
      ground (
        arith,
        see_all-deliver_all v' ev ws w d,
        apply_twice ev.type ev (v w) (v' w) d,
        apply-cong ev.type ev (v w) (v' w) d,
      )

  is_interested-intersects :
      (st : State x) (w : Source) (ms : List (Match x))
      → IsConsistent x st
      → is_interested x st w ms ≡ intersects x ms (st.rtm_matches w)
  unfolding is_interested intersects
  is_interested-intersects st w [] c = refl
  is_interested-intersects st w (m ∷ ms) c =
      ground (arith, c.subscribed w m, is_interested-intersects st w ms c)

  -- In a consistent state, an event goes to a worker exactly if one of the matches of the route is
  -- among the worker's, the event should be dispatched to it, and it is not excepted.
  pub contains-targets :
      (st : State x) (ev : RouteEvent x) (except : List Source) (w : Source)
      → IsConsistent x st
      → contains source_discrete w (propagate_route_event x st ev except).1 ≡ (
          intersects x (matches_of x ev.route_entry) (st.rtm_matches w)
          && (test_should_dispatch x ev.route_entry.source w
              && not (contains source_discrete w except)))
  unfolding propagate_route_event is_target contains
  contains-targets st ev except w c =
      let ms = matches_of x ev.route_entry in
      ground (
        arith,
        contains-find_targets x w st ev.route_entry.source except ms [],
        is_interested-intersects st w ms c,
      )

  pub sent-propagate_route_event :
      (st : State x) (ev : RouteEvent x) (except : List Source)
      → (propagate_route_event x st ev except).2
        ≡ deliver_all x ev (propagate_route_event x st ev except).1
  unfolding propagate_route_event
  sent-propagate_route_event st ev except = refl

  -- the workers that are told to remove `old`, for the source `s`
  abbrev pub is_told : State x → Source → List Source → Source → Entry x → Bool
  is_told st s notified w d =
      intersects x (matches_of x d) (st.rtm_matches w)
      && (test_should_dispatch x s w && not (contains source_discrete w notified))

  see-remove_route :
      (st : State x) (v : View) (old : Entry x) (notified : List Source)
      → IsConsistent x st
      → (w : Source) (d : Entry x)
      → see_all v (remove_route x st old.source old notified).1 w d
        ≡ (if eqb (same_entry x) old d && is_told st old.source notified w d then false else v w d)
  unfolding remove_route event_for
  see-remove_route st v old notified c w d =
      let ev = event_for x withdraw old in
      ground (
        arith,
        sent-propagate_route_event st ev notified,
        see_all-deliver_all v ev (propagate_route_event x st ev notified).1 w d,
        contains-targets st ev notified w c,
        apply_withdraw old (v w) d,
      )

  -- The withdrawal of a replaced route takes it from the workers that should have it and were not
  -- notified of its successor, and changes no other view.
  pub see-remove_replaced :
      (st : State x) (v : View) (e : Entry x) (before : Option (Entry x)) (notified : List Source)
      → IsConsistent x st
      → HasKey x e before
      → (w : Source) (d : Entry x)
      → see_all v (remove_replaced x st e.source before notified).1 w d
        ≡ (if is_same x before d && is_told st e.source notified w d then false else v w d)
  unfolding remove_replaced is_same see_all
  see-remove_replaced st v e none notified c k w d = refl
  see-remove_replaced st v e (some r) notified c k w d =
      let old : Entry x = record r { source = e.source } in
      subst
        (λ (o : Entry x).
          see_all v (remove_route x st e.source old notified).1 w d
          ≡ (if eqb (same_entry x) o d && is_told st e.source notified w d then false else v w d))
        (with_source-same x e r k.0) (see-remove_route st v old notified c w d)
