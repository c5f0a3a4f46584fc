-- ===== src/RouteTable/Loops.antt =====
-- The loops of the route table manager over the matches of a route: what they do to the
-- subscriptions and to the lists of routes.
use networking_bagpipe_l.Common.{
  ◌≡◌, refl, Bool, false, not, ◌&&◌, ◌||◌, List, [], ◌∷◌, arith, eqb, contains, add, discard,
  contains-add, contains-discard, Option-cases, inl, inr, if◌then◌else◌, ◌∙◌,
}
use networking_bagpipe_l.Engine.{Exabgp, Source, source_discrete}
use networking_bagpipe_l.RouteTable.Match.{Match, match_discrete}
use networking_bagpipe_l.RouteTable.Defs.{State, Entry, same_entry, at, put}
use networking_bagpipe_l.RouteTable.Routes.{
  is_target, add_targets, discard_from, find_targets, discard_entry, add_entry,
}
use networking_bagpipe_l.RouteTable.Table.{
  is_subscribed, is_listed, SameRest, SameRest-refl, SameRest-trans, put-SameRest,
  check_cleanup-SameRest, is_subscribed-put, is_listed-put, is_subscribed-check_cleanup,
  is_listed-check_cleanup,
}

module _ (x : Exabgp) where
  -- A read of the defaultdict changes neither relation.
  is_subscribed-touch :
      (st : State x) (m : Match x) (w : Source) (n : Match x)
      → is_subscribed x (put x st m (at x st m)) w n ≡ is_subscribed x st w n
  unfolding is_subscribed put at
  is_subscribed-touch st m w n = ground arith

  is_listed-touch :
      (st : State x) (m : Match x) (e : Entry x) (n : Match x)
      → is_listed x (put x st m (at x st m)) e n ≡ is_listed x st e n
  unfolding is_listed put at
  is_listed-touch st m e n = ground arith

  -- The two states agree on the subscriptions and the lists, and on the rest.
  pub record SameTable (st st' : State x) : Type 0 where
    pub same_rest : SameRest x st st'
    pub same_subscribed :
        (w : Source) (n : Match x) → is_subscribed x st' w n ≡ is_subscribed x st w n
    pub same_listed : (e : Entry x) (n : Match x) → is_listed x st' e n ≡ is_listed x st e n

  pub find_targets-SameTable :
      (st : State x) (s : Source) (except : List Source) (ms : List (Match x)) (ts : List Source)
      → SameTable st (find_targets x st s except ms ts).0
  unfolding find_targets
  find_targets-SameTable st s except [] ts = record {
    same_rest = SameRest-refl x st;
    same_subscribed = λ w n. refl;
    same_listed = λ e n. refl;
  }
  find_targets-SameTable st s except (m ∷ ms) ts =
      let st' = put x st m (at x st m) in
      let more = add_targets x s except (at x st m).workers ts in
      let ih = find_targets-SameTable st' s except ms more in
      record {
        same_rest = SameRest-trans x (put-SameRest x st m (at x st m)) ih.same_rest;
        same_subscribed = λ w n. ih.same_subscribed w n ∙ is_subscribed-touch st m w n;
        same_listed = λ e n. ih.same_listed e n ∙ is_listed-touch st m e n;
      }

  -- the worker is subscribed to one of the matches
  unfoldable pub is_interested : State x → Source → List (Match x) → Bool
  is_interested st w [] = false
  is_interested st w (m ∷ ms) = is_subscribed x st w m || is_interested st w ms

  is_interested-touch :
      (st : State x) (m : Match x) (w : Source) (ms : List (Match x))
      → is_interested (put x st m (at x st m)) w ms ≡ is_interested st w ms
  unfolding is_interested
  is_interested-touch st m w [] = refl
  is_interested-touch st m w (n ∷ ms) =
      ground (arith, is_subscribed-touch st m w n, is_interested-touch st m w ms)

  contains-add_target :
      (w v : Source) (b : Bool) (ts : List Source)
      → contains source_discrete w (if b then add source_discrete v ts else ts)
        ≡ (contains source_discrete w ts || (eqb source_discrete w v && b))
  contains-add_target w v b ts = ground (arith, contains-add source_discrete w v ts)

  contains-add_targets :
      (w s : Source) (except ws ts : List Source)
      → contains source_discrete w (add_targets x s except ws ts) ≡ (
          contains source_discrete w ts
          || (contains source_discrete w ws && is_target x s except w))
  unfolding contains add_targets
  contains-add_targets w s except [] ts = ground arith
  contains-add_targets w s except (v ∷ ws) ts =
      let b = is_target x s except v in
      let more = if b then add source_discrete v ts else ts in
      let ih = contains-add_targets w s except ws more in
      ground (arith, ih, contains-add_target w v b ts)

  -- The targets of an event are the workers that are subscribed to one of the matches, to which
  -- the event should be dispatched, and that are not excepted.
  pub contains-find_targets :
      (w : Source) (st : State x) (s : Source) (except : List Source) (ms : List (Match x))
      (ts : List Source)
      → contains source_discrete w (find_targets x st s except ms ts).1
        ≡ (contains source_discrete w ts || (is_interested st w ms && is_target x s except w))
  unfolding find_targets is_interested is_subscribed
  contains-find_targets w st s except [] ts = ground arith
  contains-find_targets w st s except (m ∷ ms) ts =
      let wa = at x st m in
      let more = add_targets x s except wa.workers ts in
      ground (
        arith,
        contains-find_targets w (put x st m wa) s except ms more,
        contains-add_targets w s except wa.workers ts,
        is_interested-touch st m w ms,
      )

  -- what the loop that discards a route from the matches does
  pub record Unlists (e : Entry x) (ms : List (Match x)) (st st' : State x) : Type 0 where
    pub rest : SameRest x st st'
    pub subscribed : (w : Source) (n : Match x) → is_subscribed x st' w n ≡ is_subscribed x st w n
    pub listed :
        (d : Entry x) (n : Match x)
        → is_listed x st' d n
          ≡ (is_listed x st d n && not (eqb (same_entry x) d e && contains (match_discrete x) n ms))

  -- what the loop that adds a route to the matches does
  pub record Lists (e : Entry x) (ms : List (Match x)) (st st' : State x) : Type 0 where
    pub rest : SameRest x st st'
    pub subscribed : (w : Source) (n : Match x) → is_subscribed x st' w n ≡ is_subscribed x st w n
    pub listed :
        (d : Entry x) (n : Match x)
        → is_listed x st' d n
          ≡ (is_listed x st d n || (eqb (same_entry x) d e && contains (match_discrete x) n ms))

  pub add_entry-Lists :
      (st : State x) (e : Entry x) (ms : List (Match x)) → Lists e ms st (add_entry x st e ms)
  unfolding add_entry contains is_subscribed is_listed
  add_entry-Lists st e [] = record {
    rest = SameRest-refl x st;
    subscribed = λ w n. refl;
    listed = λ d n. ground arith;
  }
  add_entry-Lists st e (m ∷ ms) =
      let wa = at x st m in
      let wa' = record wa { entries = add (same_entry x) e wa.entries } in
      let ih = add_entry-Lists (put x st m wa') e ms in
      record {
        rest = SameRest-trans x (put-SameRest x st m wa') ih.rest;
        subscribed = λ w n. ground (arith, ih.subscribed w n, is_subscribed-put x st m wa' w n);
        listed = λ d n. ground (
          arith,
          ih.listed d n,
          is_listed-put x st m wa' d n,
          contains-add (same_entry x) d e wa.entries,
        );
      }

  discard_from-Unlists :
      (st : State x) (e : Entry x) (m : Match x) → Unlists e (m ∷ []) st (discard_from x st e m)
  unfolding discard_from contains is_subscribed is_listed at
  discard_from-Unlists st e m = elim (Option-cases (st.match_2_workers_entries m)) [
    | inl absent ↦ record {
      rest = ground (arith, SameRest-refl x st);
      subscribed = λ w n. ground arith;
      listed = λ d n. ground arith;
    }
    | inr (wa, found) ↦
        let wa' = record wa { entries = discard (same_entry x) e wa.entries } in
        let st' = put x st m wa' in
        record {
          rest =
              rw (found, discard_from)
                (SameRest-trans x (put-SameRest x st m wa') (check_cleanup-SameRest x st' m));
          subscribed = λ w n.
              ground
                (arith, is_subscribed-check_cleanup x st' m w n, is_subscribed-put x st m wa' w n);
          listed = λ d n. ground (
            arith,
            is_listed-check_cleanup x st' m d n,
            is_listed-put x st m wa' d n,
            contains-discard (same_entry x) d e wa.entries,
          );
        }
  ]

  pub discard_entry-Unlists :
      (st : State x) (e : Entry x) (ms : List (Match x)) → Unlists e ms st (discard_entry x st e ms)
  unfolding discard_entry contains
  discard_entry-Unlists st e [] = record {
    rest = SameRest-refl x st;
    subscribed = λ w n. refl;
    listed = λ d n. ground arith;
  }
  discard_entry-Unlists st e (m ∷ ms) =
      let one = discard_from-Unlists st e m in
      let ih = discard_entry-Unlists (discard_from x st e m) e ms in
      record {
        rest = SameRest-trans x one.rest ih.rest;
        subscribed = λ w n. ih.subscribed w n ∙ one.subscribed w n;
        listed = λ d n. ground (arith, ih.listed d n, one.listed d n);
      }
