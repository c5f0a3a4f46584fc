-- ===== src/RouteTable/Current.antt =====
-- What a route event does to the routes that are current, and the invariant of the manager.
use networking_bagpipe_l.Common.{
  ◌≡◌, refl, true, not, ◌&&◌, ◌||◌, Option, none, some, List, [], arith, eqb, contains, IsDistinct,
  contains-discard, ◌∙◌, sym, ap, subst, if◌then◌else◌,
}
use networking_bagpipe_l.Engine.{
  Exabgp, Source, source_discrete, RouteEvent, event_for, event_source, withdraw,
}
use networking_bagpipe_l.RouteTable.Match.{Match, match_discrete, covers, contains-matches_for}
use networking_bagpipe_l.RouteTable.Defs.{State, Entry, same_entry, at}
use networking_bagpipe_l.RouteTable.Routes.{
  is_same, matches_of, propagate_route_event, remove_route, remove_replaced,
}
use networking_bagpipe_l.RouteTable.Table.{is_subscribed, is_listed}
use networking_bagpipe_l.RouteTable.Loops.{SameTable, find_targets-SameTable, discard_entry-Unlists}
use networking_bagpipe_l.RouteTable.Consistent.{IsConsistent, is_current}

module _ (x : Exabgp) where
  -- The route of the key of `e` changes from `before` to `after`, in all the dicts.
  pub record Replaces (e : Entry x) (before after : Option (Entry x)) (st st' : State x)
      : Type 0 where
    pub nlri :
        (s : Source) (n : x.Nlri)
        → st'.source_nlri_2_entry s n ≡ (
            if eqb source_discrete s e.source && eqb x.nlri_discrete n e.nlri
            then after
            else st.source_nlri_2_entry s n)
    pub listed :
        (d : Entry x) (m : Match x)
        → is_listed x st' d m ≡ (
            is_listed x st d m && not (is_same x before d && covers x m d)
            || is_same x after d && covers x m d)
    pub owned :
        (s : Source) (d : Entry x)
        → contains (same_entry x) d (st'.rtm_route_entries s) ≡ (
            contains (same_entry x) d (st.rtm_route_entries s)
              && not (is_same x before d && eqb source_discrete s e.source)
            || is_same x after d && eqb source_discrete s e.source)
    pub subscribed : (w : Source) (m : Match x) → is_subscribed x st' w m ≡ is_subscribed x st w m
    pub matches : st'.rtm_matches ≡ st.rtm_matches

  -- The route, if there is one, has the source and the NLRI of `e`.
  abbrev pub HasKey : Entry x → Option (Entry x) → Type 0
  HasKey e none = Unit {0}
  HasKey e (some a) = (a.source ≡ e.source) × (a.nlri ≡ e.nlri)

  pub is_same_key :
      (e d : Entry x) (o : Option (Entry x))
      → HasKey e o
      → is_same x o d ≡ true
      → (d.source ≡ e.source) × (d.nlri ≡ e.nlri)
  unfolding is_same
  is_same_key e d none k h = ground arith
  is_same_key e d (some a) k h = ground arith

  HasKey-some :
      (e d : Entry x) (o : Option (Entry x))
      → HasKey e o
      → o ≡ some d
      → (d.source ≡ e.source) × (d.nlri ≡ e.nlri)
  HasKey-some e d none k h = cc
  HasKey-some e d (some a) k h = ground arith

  pub is_current-Replaces :
      (st st' : State x) (e d : Entry x) (before after : Option (Entry x))
      → Replaces e before after st st'
      → is_current x st' d ≡ (
          if eqb source_discrete d.source e.source && eqb x.nlri_discrete d.nlri e.nlri
          then is_same x after d
          else is_current x st d)
  unfolding is_current
  is_current-Replaces st st' e d before after r = ground (arith, r.nlri d.source d.nlri)

  pub Replaces-IsConsistent :
      (st st' : State x) (e : Entry x) (after : Option (Entry x))
      → IsConsistent x st
      → HasKey e (st.source_nlri_2_entry e.source e.nlri)
      → HasKey e after
      → Replaces e (st.source_nlri_2_entry e.source e.nlri) after st st'
      → IsConsistent x st'
  unfolding is_current
  Replaces-IsConsistent st st' e after c kb ka r =
      let before = st.source_nlri_2_entry e.source e.nlri in
      record {
        keyed = λ s n d h. ground (arith, r.nlri s n, c.keyed s n d, HasKey-some e d after ka);
        subscribed = λ w m.
            r.subscribed w m
            ∙ c.subscribed w m
            ∙ ap (λ (f : Source → List (Match x)). contains (match_discrete x) m (f w))
                (sym r.matches);
        listed = λ d m. ground (
          arith,
          r.listed d m,
          c.listed d m,
          is_current-Replaces st st' e d before after r,
          is_same_key e d before kb,
          is_same_key e d after ka,
        );
        owned = λ s d. ground (
          arith,
          r.owned s d,
          c.owned s d,
          is_current-Replaces st st' e d before after r,
          is_same_key e d before kb,
          is_same_key e d after ka,
        );
        distinct =
            subst
              (λ (f : Source → List (Match x)). (w : Source) → IsDistinct (match_discrete x) (f w))
              (sym r.matches) c.distinct;
      }

  pub HasKey-before :
      (st : State x) (e : Entry x)
      → IsConsistent x st
      → HasKey e (st.source_nlri_2_entry e.source e.nlri)
  HasKey-before st e c = go (st.source_nlri_2_entry e.source e.nlri) refl
    where
      go : (o : Option (Entry x)) → st.source_nlri_2_entry e.source e.nlri ≡ o → HasKey e o
      go none h = tt
      go (some a) h = c.keyed e.source e.nlri a h

  -- What the removal of the replaced route does, with nothing yet in its place: the NLRI still has
  -- its route, but no match lists it and its source does not have it.
  pub record Removes (e : Entry x) (before : Option (Entry x)) (st st' : State x) : Type 0 where
    pub nlri : st'.source_nlri_2_entry ≡ st.source_nlri_2_entry
    pub listed :
        (d : Entry x) (m : Match x)
        → is_listed x st' d m ≡ (is_listed x st d m && not (is_same x before d && covers x m d))
    pub owned :
        (s : Source) (d : Entry x)
        → contains (same_entry x) d (st'.rtm_route_entries s) ≡ (
            contains (same_entry x) d (st.rtm_route_entries s)
            && not (is_same x before d && eqb source_discrete s e.source))
    pub subscribed : (w : Source) (m : Match x) → is_subscribed x st' w m ≡ is_subscribed x st w m
    pub matches : st'.rtm_matches ≡ st.rtm_matches

  pub propagate-SameTable :
      (st : State x) (ev : RouteEvent x) (except : List Source)
      → SameTable x st (propagate_route_event x st ev except).0
  unfolding propagate_route_event
  propagate-SameTable st ev except =
      find_targets-SameTable x st (event_source x ev) except (matches_of x ev.route_entry) []

  pub Removes-SameTable :
      (e : Entry x) (before : Option (Entry x)) {st st₁ st₂ : State x}
      → SameTable x st st₁
      → Removes e before st₁ st₂
      → Removes e before st st₂
  Removes-SameTable e before t r = record {
    nlri = r.nlri ∙ t.same_rest.source_nlri_2_entry;
    listed = λ d m. ground (arith, r.listed d m, t.same_listed d m);
    owned = λ s d. ground (
      arith,
      r.owned s d,
      ap (λ (f : Source → List (Entry x)). f s) t.same_rest.rtm_route_entries,
    );
    subscribed = λ w m. r.subscribed w m ∙ t.same_subscribed w m;
    matches = r.matches ∙ t.same_rest.rtm_matches;
  }

  remove_route-Removes :
      (e : Entry x) (st : State x) (old : Entry x) (notified : List Source)
      → Removes e (some old) st (remove_route x st e.source old notified).0
  unfolding remove_route is_listed is_subscribed at is_same
  remove_route-Removes e st old notified =
      let st₁ = (propagate_route_event x st (event_for x withdraw old) notified).0 in
      let t = propagate-SameTable st (event_for x withdraw old) notified in
      let u = discard_entry-Unlists x st₁ old (matches_of x old) in
      let own = u.rest.rtm_route_entries ∙ t.same_rest.rtm_route_entries in
      record {
        nlri = u.rest.source_nlri_2_entry ∙ t.same_rest.source_nlri_2_entry;
        listed =
            λ d m. ground (arith, u.listed d m, t.same_listed d m, contains-matches_for x m old);
        owned = λ s d. ground (
          arith,
          ap (λ (f : Source → List (Entry x)). f s) own,
          contains-discard (same_entry x) d old (st.rtm_route_entries e.source),
        );
        subscribed = λ w m. u.subscribed w m ∙ t.same_subscribed w m;
        matches = u.rest.rtm_matches ∙ t.same_rest.rtm_matches;
      }

  -- the source that is written into the replaced route is its own
  pub with_source-same :
      (e r : Entry x) → r.source ≡ e.source → ◌≡◌ {A = Entry x} (record r { source = e.source }) r
  with_source-same e r h = ground arith

  pub remove_replaced-Removes :
      (e : Entry x) (st : State x) (before : Option (Entry x)) (notified : List Source)
      → HasKey e before
      → Removes e before st (remove_replaced x st e.source before notified).0
  unfolding remove_replaced is_same
  remove_replaced-Removes e st none notified k = record {
    nlri = refl;
    listed = λ d m. ground arith;
    owned = λ s d. ground arith;
    subscribed = λ w m. refl;
    matches = refl;
  }
  remove_replaced-Removes e st (some r) notified k =
      let old : Entry x = record r { source = e.source } in
      subst (λ (o : Entry x). Removes e (some o) st (remove_route x st e.source old notified).0)
        (with_source-same e r k.0) (remove_route-Removes e st old notified)
