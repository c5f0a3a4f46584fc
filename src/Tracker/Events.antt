-- ===== src/Tracker/Events.antt =====
-- The tracker over all events: the lists of every entry, and what a subclass has learned.
use networking_bagpipe_l.Common.{
  ◌≡◌, ◌≢◌, refl, Bool, true, false, not, Option, none, some, List, [], ◌∷◌, ◌++◌, arith, eqb,
  is_yes, contains, Bool-cases, inl, inr, subst, sym, ap, ◌∙◌,
}
use networking_bagpipe_l.Tracker.Base.{
  Tracking, State, RouteEvent, EventType, advertise, withdraw, Callback, known,
}
use networking_bagpipe_l.Tracker.Handler.{
  on_advertise, on_withdraw, write, on_entry, on_mapped, on_event,
}
use networking_bagpipe_l.Tracker.Top.{is_top, IsTop}
use networking_bagpipe_l.Tracker.Calls.{names, names-nil, hear_all}
use networking_bagpipe_l.Tracker.Advertise.{IsTop-nil, on_advertise-IsTop}
use networking_bagpipe_l.Tracker.Withdraw.{IsSlot, routes_of, on_withdraw-IsSlot}
use networking_bagpipe_l.Tracker.Known.{Knows}
use networking_bagpipe_l.Tracker.Learned.{
  Learned, on_advertise-Knows, on_advertise-Knows_first, on_withdraw-Knows,
}

module _ (t : Tracking) where
  open t use {Route, route_discrete, Filtered, Entry, entry_discrete, route_to_tracked_entry}

  abbrev pub View : Type 0
  View = Entry → Filtered → Bool

  -- For every entry, the best routes are those of the top rank of its routes, and the subclass
  -- knows exactly their FilteredRoutes.
  pub record IsTracked (st : State t) (k : View) : Type 0 where
    pub slot :
        (e : Entry)
        → IsSlot t (known t (st.tracked_entry_2_routes e)) (st.tracked_entry_2_best_routes e)
    pub learned :
        (e : Entry) (f : Filtered)
        → k e f ≡ names t (routes_of t (st.tracked_entry_2_best_routes e)) f

  -- An ADVERTISE brings a route that is not among the routes of its entry yet.
  abbrev pub is_unknown : EventType → List Route → Route → Bool
  is_unknown advertise all r = not (contains route_discrete r all)
  is_unknown withdraw all r = true

  unfoldable pub is_new_in : Option Entry → State t → RouteEvent t → Bool
  is_new_in none st ev = true
  is_new_in (some e) st ev =
      is_unknown ev.type (known t (st.tracked_entry_2_routes e)) ev.route_entry

  unfoldable pub is_new : State t → RouteEvent t → Bool
  is_new st ev = is_new_in (route_to_tracked_entry ev.route_entry) st ev

  append-nonempty : (l : List Route) (r : Route) → (l ++ r ∷ []) ≢ []
  append-nonempty [] r h = cc
  append-nonempty (a ∷ l) r h = cc

  on_advertise-IsSlot :
      (entry : Entry) (route : Route) (replaced : Option Route) (all : List Route)
      (o : Option (List Route))
      → IsSlot t all o
      → contains route_discrete route all ≡ false
      → let (all', best', _) = on_advertise t entry route replaced all o in
        IsSlot t all' (some best')
  unfolding on_advertise contains is_top
  on_advertise-IsSlot entry route replaced all none h new =
      rw h ((λ e. cc), (λ r. ground arith), (refl, tt))
  on_advertise-IsSlot entry route replaced all (some best) (_, top, d) new =
      let (added, top', d') = on_advertise-IsTop t entry route replaced all best d new top in
      let after = on_advertise t entry route replaced all (some best) in
      (
        λ h. append-nonempty _ route (
            sym added ∙ IsTop-nil t after.0 (subst (λ (l : List Route). IsTop t l after.0) h top')),
        top',
        d',
      )

  on_advertise-Learns :
      (e entry : Entry) (f : Filtered) (k : Filtered → Bool) (route : Route)
      (replaced : Option Route) (all : List Route) (o : Option (List Route))
      → IsSlot t all o
      → contains route_discrete route all ≡ false
      → Learned t e entry f k (routes_of t o)
      → let (_, best', calls) = on_advertise t entry route replaced all o in
        Knows t e entry f k calls best'
  on_advertise-Learns e entry f k route replaced all none h new learned =
      on_advertise-Knows_first t e entry f k route replaced all learned
  on_advertise-Learns e entry f k route replaced all (some best) (_, top, _) new learned =
      on_advertise-Knows t e entry f k route replaced all best new top learned

  -- one entry of the two dicts is written
  write-IsTracked :
      (st : State t) (k : View) (entry : Entry) (all best : Option (List Route))
      (calls : List (Callback t))
      → IsTracked st k
      → IsSlot t (known t all) best
      → ((e : Entry) (f : Filtered) → Knows t e entry f (k e) calls (routes_of t best))
      → IsTracked (write t st entry all best) (λ e. hear_all t e (k e) calls)
  unfolding write
  write-IsTracked st k entry all best calls h s knows = record {
    slot = λ e. elim (Bool-cases (eqb entry_discrete e entry)) [
      | inl same ↦ rw same s
      | inr other ↦ rw other (h.slot e)
    ];
    learned = λ e f. ground (arith, knows e f, h.learned e f);
  }

  path_of {ℓ} : {A : Type ℓ} (d : Dec A) → is_yes d ≡ true → A
  path_of (yes p) h = p
  path_of (no q) h = absurd (ground (arith, h))

  known_of :
      (st : State t) (k : View) (entry : Entry)
      → IsTracked st k
      → (e : Entry) (f : Filtered)
      → Learned t e entry f (k e) (routes_of t (st.tracked_entry_2_best_routes entry))
  known_of st k entry h e f same =
      let p = path_of (entry_discrete e entry) same in
      ap (λ (d : Entry). k d f) p ∙ h.learned entry f

  on_entry-IsTracked :
      (ty : EventType) (st : State t) (k : View) (ev : RouteEvent t) (entry : Entry)
      → IsTracked st k
      → is_unknown ty (known t (st.tracked_entry_2_routes entry)) ev.route_entry ≡ true
      → let (st', calls) = on_entry t ty st ev entry in
        IsTracked st' (λ e. hear_all t e (k e) calls)
  unfolding on_entry
  on_entry-IsTracked advertise st k ev entry h new =
      let all = known t (st.tracked_entry_2_routes entry) in
      let best = st.tracked_entry_2_best_routes entry in
      let unknown : contains route_discrete ev.route_entry all ≡ false = ground arith in
      let after = on_advertise t entry ev.route_entry ev.replaced_route all best in
      write-IsTracked st k entry (some after.0) (some after.1) after.2 h
        (on_advertise-IsSlot entry ev.route_entry ev.replaced_route all best (h.slot entry) unknown)
        (λ e f.
          on_advertise-Learns e entry f (k e) ev.route_entry ev.replaced_route all best
            (h.slot entry) unknown (known_of st k entry h e f))
  on_entry-IsTracked withdraw st k ev entry h new =
      let all = known t (st.tracked_entry_2_routes entry) in
      let best = st.tracked_entry_2_best_routes entry in
      let after = on_withdraw t entry ev.route_entry all best in
      let (_, slot) = on_withdraw-IsSlot t entry ev.route_entry all best (h.slot entry) in
      write-IsTracked st k entry after.0 after.1 after.2 h slot (λ e f.
        on_withdraw-Knows t e entry f (k e) ev.route_entry all best (known_of st k entry h e f))

  on_mapped-IsTracked :
      (o : Option Entry) (st : State t) (k : View) (ev : RouteEvent t)
      → IsTracked st k
      → is_new_in o st ev ≡ true
      → let (st', calls) = on_mapped t o st ev in IsTracked st' (λ e. hear_all t e (k e) calls)
  unfolding on_mapped is_new_in hear_all
  on_mapped-IsTracked none st k ev h new = record { slot = h.slot; learned = h.learned }
  on_mapped-IsTracked (some entry) st k ev h new = on_entry-IsTracked ev.type st k ev entry h new

  -- An event, if it is not an ADVERTISE of a route that is known already, keeps the best routes of
  -- every entry those of the top rank, and what the subclass knows exactly their FilteredRoutes.
  pub on_event-IsTracked :
      (st : State t) (k : View) (ev : RouteEvent t)
      → IsTracked st k
      → is_new st ev ≡ true
      → let (st', calls) = on_event t st ev in IsTracked st' (λ e. hear_all t e (k e) calls)
  unfolding on_event is_new
  on_event-IsTracked st k ev h new =
      on_mapped-IsTracked (route_to_tracked_entry ev.route_entry) st k ev h new

  -- the two empty dicts
  unfoldable pub initial : State t
  initial = record { tracked_entry_2_routes = λ e. none; tracked_entry_2_best_routes = λ e. none }

  -- The states that events reach which advertise no route that is known already, with what the
  -- subclass knows then.
  pub data Reach : State t → View → Type 0 where
    start : Reach initial (λ e f. false)
    next :
        {st : State t} {k : View} (ev : RouteEvent t)
        → Reach st k
        → is_new st ev ≡ true
        → Reach (on_event t st ev).0 (λ e. hear_all t e (k e) (on_event t st ev).1)

  -- If no event advertises a route that is known already, in every reachable state the best routes
  -- of each entry are exactly the routes of the top rank among its routes, of which none is there
  -- twice, and the subclass knows exactly the FilteredRoutes of the best routes.
  pub Reach-IsTracked : {st : State t} {k : View} → Reach st k → IsTracked st k
  unfolding initial
  Reach-IsTracked start = record { slot = λ e. refl; learned = λ e f. sym (names-nil t f) }
  Reach-IsTracked (next {st = st} {k = k} ev r new) =
      on_event-IsTracked st k ev (Reach-IsTracked r) new
