-- ===== src/RouteTable/Defs.antt =====
-- The state of the route table manager and its operations, in the order of the source.
use networking_bagpipe_l.Common.{
  ℕ, ◌+◌, ◌-◌, Bool, true, false, not, ◌&&◌, ◌||◌, Option, none, some, List, [], ◌∷◌, ◌++◌, ◌==◌,
  eqb, is_some, if◌then◌else◌, contains, add, discard, update,
}
use networking_bagpipe_l.Engine.{
  Exabgp, Source, source_discrete, is_bgp_peer, RouteEntry, entry_discrete, route_targets,
  advertise, withdraw, RouteEvent, event_for,
}
use networking_bagpipe_l.RouteTable.Match.{Match, match_discrete, matches_for}

-- `WorkersAndEntries`
pub record WorkersAndEntries (x : Exabgp) : Type 0 where
  pub workers : List Source
  pub entries : List (RouteEntry x Source)
  pub n_local_workers : ℕ

-- `Subscription` and `Unsubscription`: the match and the worker
pub record Subscription (x : Exabgp) : Type 0 where
  pub matching : Match x
  pub worker : Source

pub record State (x : Exabgp) : Type 0 where
  pub match_2_workers_entries : Match x → Option (WorkersAndEntries x)
  pub workers : List Source
  pub source_nlri_2_entry : Source → x.Nlri → Option (RouteEntry x Source)
  pub rtm_matches : Source → List (Match x)
  pub rtm_route_entries : Source → List (RouteEntry x Source)

-- What an operation sends: `worker.enqueue(event)`, the two callbacks, and `self.enqueue(event)`.
pub data Effect (x : Exabgp) : Type 0 where
  deliver : Source → RouteEvent x → Effect x
  first_local_subscriber last_local_subscriber : Subscription x → Effect x
  enqueue : RouteEvent x → Effect x

-- The events that the manager handles.
pub data Event (x : Exabgp) : Type 0 where
  route : RouteEvent x → Event x
  subscribe unsubscribe : Subscription x → Event x
  worker_cleanup : Source → Event x

-- `len(l) == 0`
abbrev pub is_nil {ℓ} : {A : Type ℓ} → List A → Bool
is_nil [] = true
is_nil (_ ∷ _) = false

module _ (x : Exabgp) where
  abbrev pub Entry : Type 0
  Entry = RouteEntry x Source

  abbrev pub same_entry : Discrete Entry
  same_entry = entry_discrete x source_discrete

  abbrev pub nobody : WorkersAndEntries x
  nobody = record { workers = []; entries = []; n_local_workers = 0 }

  -- `add_worker`; the Boolean says that it is the first local worker
  unfoldable pub add_worker : Source → WorkersAndEntries x → WorkersAndEntries x × Bool
  add_worker w wa =
      let ws = add source_discrete w wa.workers in
      if is_bgp_peer w then (record wa { workers = ws }, false) else (
        record wa { workers = ws; n_local_workers = wa.n_local_workers + 1 },
        wa.n_local_workers + 1 == 1,
      )

  -- `del_worker`; `none` is the `KeyError` of `set.remove`
  unfoldable pub del_worker : Source → WorkersAndEntries x → Option (WorkersAndEntries x × Bool)
  del_worker w wa =
      let ws = discard source_discrete w wa.workers in
      if not (contains source_discrete w wa.workers)
      then none
      else if is_bgp_peer w
      then some (record wa { workers = ws }, false)
      else some (
        record wa { workers = ws; n_local_workers = wa.n_local_workers - 1 },
        wa.n_local_workers - 1 == 0,
      )

  unfoldable pub is_empty : WorkersAndEntries x → Bool
  is_empty wa = is_nil wa.workers && is_nil wa.entries

  -- `test_should_dispatch`, without the text of the reason
  unfoldable pub test_should_dispatch : Source → Source → Bool
  test_should_dispatch source target =
      not (eqb source_discrete source target) && not (is_bgp_peer source && is_bgp_peer target)

  -- `_match_2_workers_entries[match]`, on a defaultdict
  unfoldable pub at : State x → Match x → WorkersAndEntries x
  at st m = elim (st.match_2_workers_entries m) [ some wa ↦ wa | none ↦ nobody ]

  -- the write of a changed `WorkersAndEntries`
  unfoldable pub put : State x → Match x → WorkersAndEntries x → State x
  put st m wa = record st {
    match_2_workers_entries = update (match_discrete x) st.match_2_workers_entries m (some wa);
  }

  -- `_check_match_2_workers_and_entries_cleanup`
  unfoldable pub check_cleanup : State x → Match x → State x
  check_cleanup st m =
      if is_some (st.match_2_workers_entries m) && is_empty (at st m)
      then record st {
        match_2_workers_entries = update (match_discrete x) st.match_2_workers_entries m none;
      }
      else st

  -- whether the worker already has a subscription to a route target of the entry
  unfoldable pub had_subscription : List (Match x) → Entry → List x.RouteTarget → Bool
  had_subscription ms e [] = false
  had_subscription ms e (rt ∷ rts) =
      contains (match_discrete x)
        (record { afi = some e.afi; safi = some e.safi; route_target = some rt }) ms
      || had_subscription ms e rts

  -- the loop of `_worker_subscribes` over the entries for the match
  unfoldable pub resynthesize : Source → List (Match x) → List Entry → List (Effect x)
  resynthesize w ms [] = []
  resynthesize w ms (e ∷ es) =
      if test_should_dispatch e.source w && not (had_subscription ms e (route_targets x e))
      then deliver w (event_for x advertise e) ∷ resynthesize w ms es
      else resynthesize w ms es

  unfoldable pub worker_subscribes : State x → Subscription x → State x × List (Effect x)
  worker_subscribes st sub =
      let w = sub.worker in
      let m = sub.matching in
      let (wa, first) = add_worker w (at st m) in
      let st' = put (record st { workers = add source_discrete w st.workers }) m wa in
      (
        record st' {
          rtm_matches =
              update source_discrete st.rtm_matches w (add (match_discrete x) m (st.rtm_matches w));
        },
        (if first then first_local_subscriber sub ∷ [] else [])
            ++ resynthesize w (st.rtm_matches w) wa.entries,
      )

  -- whether the intersection with the matches of an entry is not empty
  unfoldable pub intersects : List (Match x) → List (Match x) → Bool
  intersects [] ms = false
  intersects (m ∷ more) ms = contains (match_discrete x) m ms || intersects more ms

  -- the loop of `_worker_unsubscribes` over the entries for the match
  unfoldable pub synthesize_withdraws : Source → List (Match x) → List Entry → List (Effect x)
  synthesize_withdraws w ms [] = []
  synthesize_withdraws w ms (e ∷ es) =
      if not (intersects (matches_for x e.afi e.safi (route_targets x e)) ms)
        && test_should_dispatch e.source w
      then deliver w (event_for x withdraw e) ∷ synthesize_withdraws w ms es
      else synthesize_withdraws w ms es

  -- the removal of the worker from the entry of the dict: the `try` of `_worker_unsubscribes`
  unfoldable pub leave : State x → Subscription x → WorkersAndEntries x → State x × List (Effect x)
  leave st sub wa = elim (del_worker sub.worker wa) [
    | none ↦ (st, [])
    | some (wa', last) ↦
        let st' = put st sub.matching wa' in
        if last then (check_cleanup st' sub.matching, last_local_subscriber sub ∷ []) else (st', [])
  ]

  -- the part of `_worker_unsubscribes` under `if wa:`
  unfoldable pub unsubscribe_from :
      State x
      → Subscription x
      → List (Match x)
      → Option (WorkersAndEntries x)
      → State x × List (Effect x)
  unsubscribe_from st sub ms none = (st, [])
  unsubscribe_from st sub ms (some wa) =
      let (st', called) = leave st sub wa in
      (st', synthesize_withdraws sub.worker ms wa.entries ++ called)

  unfoldable pub worker_unsubscribes : State x → Subscription x → State x × List (Effect x)
  worker_unsubscribes st sub =
      let w = sub.worker in
      let ms = discard (match_discrete x) sub.matching (st.rtm_matches w) in
      let st₁ = record st { rtm_matches = update source_discrete st.rtm_matches w ms } in
      let (st₂, sent) = unsubscribe_from st₁ sub ms (st.match_2_workers_entries sub.matching) in
      (
        record st₂ {
          workers = if is_nil ms then discard source_discrete w st₂.workers else st₂.workers;
        },
        sent,
      )
