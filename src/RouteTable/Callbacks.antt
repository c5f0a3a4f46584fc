-- ===== src/RouteTable/Callbacks.antt =====
-- The two callbacks of the route table manager, and the count of local workers of a match. The
-- client of the callbacks (bgp_manager.py, which announces route target constraints) has a set of
-- matches: the first-local-subscriber callback adds a match, the last-local-subscriber callback
-- removes it.
use networking_bagpipe_l.Common.{
  ℕ, suc, ◌+◌, ◌≡◌, refl, Bool, true, false, not, ◌&&◌, ◌||◌, some, List, [], ◌∷◌, ◌++◌, map, arith,
  eqb, is_yes, ltb, contains, contains-add, contains-discard, eqb_self, ◌-◌, add, discard,
  IsDistinct, add-IsDistinct, discard-IsDistinct, if◌then◌else◌, Bool-cases, inl, inr, sym, subst,
}
use networking_bagpipe_l.Engine.{
  Exabgp, Source, source_discrete, is_bgp_peer, withdraw, RouteEvent, event_for,
}
use networking_bagpipe_l.RouteTable.Match.{Match, match_discrete}
use networking_bagpipe_l.RouteTable.Defs.{
  State, WorkersAndEntries, Effect, first_local_subscriber, last_local_subscriber, enqueue, Entry,
  nobody, is_empty, add_worker, del_worker, at, put, check_cleanup, resynthesize,
  synthesize_withdraws,
}
use networking_bagpipe_l.RouteTable.Routes.{deliver_all}

-- how many of the workers are no BGP peers
unfoldable pub count_local : List Source → ℕ
count_local [] = 0
count_local (w ∷ ws) = let rest = count_local ws in if is_bgp_peer w then rest else suc rest

count_local-append :
    (ws : List Source) (w : Source)
    → count_local (ws ++ w ∷ []) ≡ count_local ws + (if is_bgp_peer w then 0 else 1)
unfolding count_local
count_local-append [] w = ground arith
count_local-append (v ∷ ws) w = ground (arith, count_local-append ws w)

count_local-absent :
    (ws : List Source) (w : Source)
    → contains source_discrete w ws ≡ false
    → count_local (discard source_discrete w ws) ≡ count_local ws
unfolding count_local discard contains
count_local-absent [] w h = refl
count_local-absent (v ∷ ws) w h = ground (arith, count_local-absent ws w)

count_local-discard :
    (ws : List Source) (w : Source)
    → IsDistinct source_discrete ws
    → contains source_discrete w ws ≡ true
    → count_local ws ≡ count_local (discard source_discrete w ws) + (if is_bgp_peer w then 0 else 1)
unfolding count_local discard contains
count_local-discard [] w d h = ground arith
count_local-discard (v ∷ ws) w (new, d) h =
    ground (arith, count_local-discard ws w d, count_local-absent ws w)

module _ (x : Exabgp) where
  -- the set of the client after some effects
  unfoldable pub hear : (Match x → Bool) → Effect x → Match x → Bool
  hear k (first_local_subscriber sub) m = eqb (match_discrete x) m sub.matching || k m
  hear k (last_local_subscriber sub) m = not (eqb (match_discrete x) m sub.matching) && k m
  hear k _ m = k m

  unfoldable pub hear_all : (Match x → Bool) → List (Effect x) → Match x → Bool
  hear_all k [] = k
  hear_all k (e ∷ es) = hear_all (hear k e) es

  -- The count is that of the local workers, and `b` says whether there is one.
  pub record Fits (wa : WorkersAndEntries x) (b : Bool) : Type 0 where
    pub count : wa.n_local_workers ≡ count_local wa.workers
    pub distinct : IsDistinct source_discrete wa.workers
    pub told : b ≡ ltb 0 (count_local wa.workers)

  abbrev pub IsHeard : State x → (Match x → Bool) → Type 0
  IsHeard st k = (m : Match x) → Fits (at x st m) (k m)

  pub hear_all-append :
      (k : Match x → Bool) (es fs : List (Effect x))
      → hear_all k (es ++ fs) ≡ hear_all (hear_all k es) fs
  unfolding hear_all
  hear_all-append k [] fs = refl
  hear_all-append k (e ∷ es) fs = hear_all-append (hear k e) es fs

  pub hear-deliver_all :
      (k : Match x → Bool) (ev : RouteEvent x) (ws : List Source)
      → hear_all k (deliver_all x ev ws) ≡ k
  unfolding hear_all deliver_all hear
  hear-deliver_all k ev [] = refl
  hear-deliver_all k ev (w ∷ ws) = hear-deliver_all k ev ws

  pub hear-enqueue :
      (k : Match x → Bool) (es : List (Entry x)) (more : List (Effect x))
      → hear_all k (map (λ e. enqueue (event_for x withdraw e)) es ++ more) ≡ hear_all k more
  unfolding hear_all hear
  hear-enqueue k [] more = refl
  hear-enqueue k (e ∷ es) more = hear-enqueue k es more

  pub hear-resynthesize :
      (k : Match x → Bool) (w : Source) (ms : List (Match x)) (es : List (Entry x))
      → hear_all k (resynthesize x w ms es) ≡ k
  unfolding hear_all hear resynthesize
  hear-resynthesize k w ms [] = refl
  hear-resynthesize k w ms (e ∷ es) = ground (arith, hear-resynthesize k w ms es)

  pub hear-synthesize_withdraws :
      (k : Match x → Bool) (w : Source) (ms : List (Match x)) (es : List (Entry x))
      → hear_all k (synthesize_withdraws x w ms es) ≡ k
  unfolding hear_all hear synthesize_withdraws
  hear-synthesize_withdraws k w ms [] = refl
  hear-synthesize_withdraws k w ms (e ∷ es) = ground (arith, hear-synthesize_withdraws k w ms es)

  pub at-put :
      (st : State x) (m n : Match x) (wa : WorkersAndEntries x)
      → at x (put x st m wa) n ≡ (if eqb (match_discrete x) n m then wa else at x st n)
  unfolding at put
  at-put st m n wa = ground arith

  is_yes-no {ℓ} : {A : Type ℓ} (d : Dec A) → ¬ A → is_yes d ≡ false
  is_yes-no (yes p) q = absurd (q p)
  is_yes-no (no _) q = refl

  pub put-IsHeard :
      (st : State x) (k k' : Match x → Bool) (m : Match x) (wa : WorkersAndEntries x)
      → IsHeard st k
      → Fits wa (k' m)
      → ((n : Match x) → eqb (match_discrete x) n m ≡ false → k' n ≡ k n)
      → IsHeard (put x st m wa) k'
  put-IsHeard st k k' m wa h f other n =
      rw (at-put st m n wa)
        (elim (match_discrete x n m) as (λ d. Fits (if is_yes d then wa else at x st n) (k' n)) [
          | yes p ↦ subst (λ (o : Match x). Fits wa (k' o)) (sym p) f
          | no q ↦
              subst (Fits (at x st n)) (sym (other n (is_yes-no (match_discrete x n m) q))) (h n)
        ])

  at-check_cleanup :
      (st : State x) (m n : Match x)
      → at x (check_cleanup x st m) n
        ≡ (if eqb (match_discrete x) n m && is_empty x (at x st m) then nobody x else at x st n)
  unfolding check_cleanup at
  at-check_cleanup st m n = ground arith

  nobody-Fits :
      (wa : WorkersAndEntries x) (b : Bool) → Fits wa b → is_empty x wa ≡ true → Fits (nobody x) b
  unfolding is_empty count_local
  nobody-Fits wa b f empty = record { count = refl; distinct = tt; told = ground (arith, f.told) }

  pub check_cleanup-IsHeard :
      (st : State x) (k : Match x → Bool) (m : Match x)
      → IsHeard st k
      → IsHeard (check_cleanup x st m) k
  check_cleanup-IsHeard st k m h n =
      let gone = eqb (match_discrete x) n m && is_empty x (at x st m) in
      elim (Bool-cases gone) [
        | inl empty ↦
            rw (at-check_cleanup st m n, empty) (nobody-Fits (at x st n) (k n) (h n) (ground arith))
        | inr kept ↦ rw (at-check_cleanup st m n, kept) (h n)
      ]

  -- Fits after the two operations on `WorkersAndEntries`
  pub add_worker-Fits :
      (w : Source) (wa : WorkersAndEntries x) (b : Bool)
      → Fits wa b
      → contains source_discrete w wa.workers ≡ false
      → Fits (add_worker x w wa).0 ((add_worker x w wa).1 || b)
  unfolding add_worker add
  add_worker-Fits w wa b f new = record {
    count = ground (arith, f.count, count_local-append wa.workers w);
    distinct = ground (arith, add-IsDistinct source_discrete w wa.workers f.distinct);
    told = ground (arith, f.count, f.told, count_local-append wa.workers w);
  }

  pub del_worker-Fits :
      (w : Source) (wa wa' : WorkersAndEntries x) (b last : Bool)
      → Fits wa b
      → del_worker x w wa ≡ some (wa', last)
      → Fits wa' (not last && b)
  unfolding del_worker
  del_worker-Fits w wa wa' b last f h = record {
    count = ground (arith, h, f.count, count_local-discard wa.workers w f.distinct);
    distinct = ground (arith, h, discard-IsDistinct source_discrete w wa.workers f.distinct);
    told = ground (arith, h, f.count, f.told, count_local-discard wa.workers w f.distinct);
  }

  -- A local worker that is added twice and removed once is gone, but it is still counted, and the
  -- removal is not that of the last local worker, whatever the other workers are.
  pub del_worker-add_worker_twice :
      (w : Source) (wa : WorkersAndEntries x)
      → is_bgp_peer w ≡ false
      → contains source_discrete w wa.workers ≡ false
      → (wa' : WorkersAndEntries x) × (del_worker x w (add_worker x w (add_worker x w wa).0).0
          ≡ some (wa', false))
        × (contains source_discrete w wa'.workers ≡ false)
        × (wa'.n_local_workers ≡ wa.n_local_workers + 1)
  unfolding add_worker del_worker
  del_worker-add_worker_twice w wa local new =
      let ws = add source_discrete w wa.workers in
      let ws' = add source_discrete w ws in
      (
        record wa {
          workers = discard source_discrete w ws';
          n_local_workers = wa.n_local_workers + 1 + 1 - 1;
        },
        ground (arith, contains-add source_discrete w w ws, eqb_self source_discrete w),
        ground (arith, contains-discard source_discrete w w ws', eqb_self source_discrete w),
        omega arith,
      )
