-- ===== src/Peer/Halted.antt =====
-- The steps of the threads of a worker that was stopped and is about to halt.
use networking_bagpipe_l.Common.{
  ℕ, ◌≡◌, refl, Bool, true, false, Option, List, ◌∷◌, sym, arith, ap, ◌∙◌,
}
use networking_bagpipe_l.Common.Outcome.{raise}
use networking_bagpipe_l.Engine.{Exabgp, Source}
use networking_bagpipe_l.Peer.Base.{
  idle, Event, connect_now, send_keep_alive, keep_alive_received, stop_event, to_idle, route_event,
  Alarm, connects, sends_keep_alive, expires, Families, State, Phase, resting, waiting, connecting,
  opened, timed, paused, Action, FsmState, stopped, attribute_error,
}
use networking_bagpipe_l.Peer.Worker.{stop_and_clean, worker_stop, init_send_keep_alive_timer}
use networking_bagpipe_l.Peer.Session.{track, check_action, Connection, finish_initiation, handle}
use networking_bagpipe_l.Peer.Steps.{
  fire, trigger, receive, resume, Step, waits, begins, tracks, checks, finishes, starts_session,
  establishes, handles, fires, begins_thread, receives, asks, tells, cleans,
}
use networking_bagpipe_l.Peer.Watch.{heads_stop, set_state_lem}
use networking_bagpipe_l.Peer.Kept.{stop_and_clean_lem}
use networking_bagpipe_l.Peer.Reads.{receive-Reads}
use networking_bagpipe_l.Peer.Halting.{
  IsHalting, Halts, soon, soon-grows, soon-cleaned, soon_in, soon-heads, Halts-if,
  fail_connect-Halts, finish_initiation-raise,
}

module _ (x : Exabgp) where
  module _ (me : Source) (f : Families) where
    fire-Halts : (i : ℕ) (a : Alarm) (st : State x) → IsHalting x st → Halts x st (fire x i a st)
    unfolding trigger init_send_keep_alive_timer
    fire-Halts i (connects t) st h = record {
      silent = record { mail = refl; threads = refl; timer = refl };
      halting = record {
        please = h.please;
        should = h.should;
        halts = soon-grows x st.phase st.queue _ st.has_peer h.halts;
      };
    }
    fire-Halts i (sends_keep_alive t) st h = record {
      silent = record { mail = refl; threads = refl; timer = refl };
      halting = record {
        please = h.please;
        should = h.should;
        halts = soon-grows x st.phase st.queue _ st.has_peer h.halts;
      };
    }
    fire-Halts i (expires t) st h = record {
      silent = record { mail = refl; threads = refl; timer = refl };
      halting = record {
        please = h.please;
        should = h.should;
        halts = soon-grows x st.phase st.queue _ st.has_peer h.halts;
      };
    }

    handle-Halts :
        (c : Connection) (ev : Event x) (l : List (Event x)) (st : State x)
        → IsHalting x st
        → heads_stop x (ev ∷ l) ≡ true
        → Halts x st (record (handle x me f c ev (record st { queue = l })) { phase = resting })
    unfolding handle heads_stop soon
    handle-Halts c stop_event l st h e = record {
      silent = record { mail = refl; threads = refl; timer = refl };
      halting = record { please = refl; should = h.should; halts = refl };
    }
    handle-Halts c connect_now l st h e = ground (arith, e)
    handle-Halts c send_keep_alive l st h e = ground (arith, e)
    handle-Halts c keep_alive_received l st h e = ground (arith, e)
    handle-Halts c (to_idle d) l st h e = ground (arith, e)
    handle-Halts c (route_event ev) l st h e = ground (arith, e)

    track-raise :
        (s : FsmState) (st : State x)
        → st.has_peer ≡ false
        → track x s st ≡ raise attribute_error st
    unfolding track
    track-raise s st e = rw e refl

    tracks-Halts :
        (nlri_rt : x.Nlri → Option x.RouteTarget) (s : FsmState) (a : Action) (st : State x)
        → IsHalting x st
        → st.has_peer ≡ false
        → Halts x st (resume x me f nlri_rt (paused a) (track x s st))
    tracks-Halts nlri_rt s a st h e =
        rw (track-raise s st e) (fail_connect-Halts x me f attribute_error st h)

    check_action-raise :
        (a : Action) (st : State x) → st.should_stop ≡ true → check_action x a st ≡ raise stopped st
    unfolding check_action
    check_action-raise a st e = rw e refl

    checks-Halts :
        (nlri_rt : x.Nlri → Option x.RouteTarget) (a : Action) (st : State x)
        → IsHalting x st
        → Halts x st (resume x me f nlri_rt connecting (check_action x a st))
    checks-Halts nlri_rt a st h =
        rw (check_action-raise a st h.should) (fail_connect-Halts x me f stopped st h)

    finishes-Halts :
        (nlri_rt : x.Nlri → Option x.RouteTarget) (c : Connection) (st : State x)
        → IsHalting x st
        → st.has_peer ≡ false
        → Halts x st (resume x me f nlri_rt opened (finish_initiation x f c st))
    finishes-Halts nlri_rt c st h e =
        let (err, raised) = finish_initiation-raise x me f c st e in
        rw raised (fail_connect-Halts x me f err st h)

    asks-Halts : (st : State x) → IsHalting x st → Halts x st (worker_stop x me st)
    unfolding worker_stop
    asks-Halts st h =
        Halts-if x st.was_stopped st _ _
          (λ _. record {
            silent = record { mail = refl; threads = refl; timer = refl };
            halting = h;
          })
          (λ _. rw (set_state_lem x idle _) (record {
            silent = record { mail = refl; threads = refl; timer = refl };
            halting = record {
              please = refl;
              should = h.should;
              halts = soon-grows x st.phase st.queue _ st.has_peer h.halts;
            };
          }))

    cleans-Halts : (st : State x) → IsHalting x st → Halts x st (stop_and_clean x me st)
    cleans-Halts st h = rw (stop_and_clean_lem x me st) (record {
      silent = record { mail = refl; threads = refl; timer = refl };
      halting = record {
        please = h.please;
        should = h.should;
        halts = soon-cleaned x st.phase st.queue st.has_peer h.halts;
      };
    })

    module _ (nlri_rt : x.Nlri → Option x.RouteTarget) where
      pub Step-Halts :
          (st st' : State x) → IsHalting x st → Step x me f nlri_rt st st' → Halts x st st'
      unfolding soon heads_stop
      Step-Halts st _ h (waits _ p s) = ground (arith, s, h.please)
      Step-Halts st _ h (begins l _ p q) =
          ground (arith, soon_in x st waiting h p, ap (λ (u : List (Event x)). heads_stop x u) q)
      Step-Halts st _ h (tracks s a _ p) =
          tracks-Halts nlri_rt s a st h (ground (arith, soon_in x st connecting h p))
      Step-Halts st _ h (checks a _ p) = checks-Halts nlri_rt a st h
      Step-Halts st _ h (finishes c _ p) =
          finishes-Halts nlri_rt c st h (ground (arith, soon_in x st connecting h p))
      Step-Halts st _ h (starts_session _ p) = ground (arith, soon_in x st opened h p)
      Step-Halts st _ h (establishes _ p) = ground (arith, soon_in x st timed h p)
      Step-Halts st _ h (handles c ev l _ p q n) =
          handle-Halts c ev l st h
            (ap (λ (u : List (Event x)). heads_stop x u) (sym q) ∙ soon_in x st waiting h p)
      Step-Halts st _ h (fires i a _ g) = fire-Halts i a st h
      Step-Halts st _ h (begins_thread _) = record {
        silent = record { mail = refl; threads = refl; timer = refl };
        halting = record { please = h.please; should = h.should; halts = h.halts };
      }
      Step-Halts st _ h (receives r _) =
          let k = receive-Reads x me f nlri_rt r st in
          let st' = receive x me f nlri_rt r st in
          record {
            silent = record { mail = k.mail; threads = k.threads; timer = k.timer };
            halting = record {
              please = k.please ∙ h.please;
              should = k.should ∙ h.should;
              halts =
                  ap (λ (p : Phase). soon x p st'.queue st'.has_peer) k.phase_of
                  ∙ ap (λ (b : Bool). soon x st.phase st'.queue b) k.peer
                  ∙ soon-heads x st.phase st.queue st'.queue st.has_peer k.heads h.halts;
            };
          }
      Step-Halts st _ h (asks _) = asks-Halts st h
      Step-Halts st _ h (tells _ g) = record {
        silent = record { mail = refl; threads = refl; timer = refl };
        halting = record { please = h.please; should = refl; halts = h.halts };
      }
      Step-Halts st _ h (cleans _ g) = cleans-Halts st h
