-- ===== src/RouteTable/Table.antt =====
-- What the updates of the dict from matches to workers and entries do to the two relations that it
-- holds: which worker is subscribed to which match, and which route is listed under which match.
use networking_bagpipe_l.Common.{◌≡◌, refl, Bool, true, false, arith, eqb, contains, ◌∙◌}
use networking_bagpipe_l.Engine.{Exabgp, Source, source_discrete}
use networking_bagpipe_l.RouteTable.Match.{Match, match_discrete}
use networking_bagpipe_l.RouteTable.Defs.{
  State, WorkersAndEntries, Entry, same_entry, at, put, check_cleanup, is_empty,
}

module _ (x : Exabgp) where
  -- the worker is subscribed to the match
  unfoldable pub is_subscribed : State x → Source → Match x → Bool
  is_subscribed st w m = contains source_discrete w (at x st m).workers

  -- the route is listed under the match
  unfoldable pub is_listed : State x → Entry x → Match x → Bool
  is_listed st e m = contains (same_entry x) e (at x st m).entries

  -- The two states agree on all but the dict from matches.
  pub record SameRest (st st' : State x) : Type 0 where
    pub workers : st'.workers ≡ st.workers
    pub source_nlri_2_entry : st'.source_nlri_2_entry ≡ st.source_nlri_2_entry
    pub rtm_matches : st'.rtm_matches ≡ st.rtm_matches
    pub rtm_route_entries : st'.rtm_route_entries ≡ st.rtm_route_entries

  pub SameRest-refl : (st : State x) → SameRest st st
  SameRest-refl st = record {
    workers = refl;
    source_nlri_2_entry = refl;
    rtm_matches = refl;
    rtm_route_entries = refl;
  }

  pub SameRest-trans :
      {st st' st'' : State x} → SameRest st st' → SameRest st' st'' → SameRest st st''
  SameRest-trans p q = record {
    workers = q.workers ∙ p.workers;
    source_nlri_2_entry = q.source_nlri_2_entry ∙ p.source_nlri_2_entry;
    rtm_matches = q.rtm_matches ∙ p.rtm_matches;
    rtm_route_entries = q.rtm_route_entries ∙ p.rtm_route_entries;
  }

  pub put-SameRest :
      (st : State x) (m : Match x) (wa : WorkersAndEntries x) → SameRest st (put x st m wa)
  unfolding put
  put-SameRest st m wa = ground arith

  pub check_cleanup-SameRest : (st : State x) (m : Match x) → SameRest st (check_cleanup x st m)
  unfolding check_cleanup
  check_cleanup-SameRest st m = ground arith

  module _ (st : State x) (m : Match x) where
    pub is_subscribed-put :
        (wa : WorkersAndEntries x) (w : Source) (n : Match x)
        → is_subscribed (put x st m wa) w n ≡ (elim (eqb (match_discrete x) n m) [
          | true ↦ contains source_discrete w wa.workers
          | false ↦ is_subscribed st w n
        ])
    unfolding is_subscribed put at
    is_subscribed-put wa w n = ground arith

    pub is_listed-put :
        (wa : WorkersAndEntries x) (e : Entry x) (n : Match x)
        → is_listed (put x st m wa) e n ≡ (elim (eqb (match_discrete x) n m) [
          | true ↦ contains (same_entry x) e wa.entries
          | false ↦ is_listed st e n
        ])
    unfolding is_listed put at
    is_listed-put wa e n = ground arith

    pub is_subscribed-check_cleanup :
        (w : Source) (n : Match x) → is_subscribed (check_cleanup x st m) w n ≡ is_subscribed st w n
    unfolding is_subscribed check_cleanup is_empty at contains
    is_subscribed-check_cleanup w n = ground arith

    pub is_listed-check_cleanup :
        (e : Entry x) (n : Match x) → is_listed (check_cleanup x st m) e n ≡ is_listed st e n
    unfolding is_listed check_cleanup is_empty at contains
    is_listed-check_cleanup e n = ground arith
