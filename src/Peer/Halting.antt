-- ===== src/Peer/Halting.antt =====
-- A worker that was stopped and is about to halt.
use networking_bagpipe_l.Common.{
  ◌≡◌, refl, Bool, true, false, not, List, ◌++◌, sym, if◌then◌else◌, ap, ◌∙◌,
}
use networking_bagpipe_l.Common.Outcome.{ok, raise}
use networking_bagpipe_l.Engine.{Exabgp, Source}
use networking_bagpipe_l.Peer.Base.{
  active, Event, Families, State, Phase, resting, waiting, connecting, opened, timed, paused, Error,
  stopped, initiate_connection, open_wait_timeout, assertion, attribute_error, other,
}
use networking_bagpipe_l.Peer.Worker.{init_connect_timer}
use networking_bagpipe_l.Peer.Session.{
  End, exhausted, interrupted, lost_connection, notify, end_of, Connection, finish_initiation,
  negotiate, fail_connect, to_active,
}
use networking_bagpipe_l.Peer.Watch.{heads_stop, heads_stop-append, set_state_lem}
use networking_bagpipe_l.Peer.Kept.{stop_and_clean_lem}

module _ (x : Exabgp) where
  -- nothing was sent, and no session was made
  pub record IsSilent (st st' : State x) : Type 0 where
    pub mail : st'.sent ≡ st.sent
    pub threads : st'.receive_threads ≡ st.receive_threads
    pub timer : st'.ka_reception_timer ≡ st.ka_reception_timer

  pub IsSilent-trans : {a b c : State x} → IsSilent a b → IsSilent b c → IsSilent a c
  IsSilent-trans p q = record {
    mail = q.mail ∙ p.mail;
    threads = q.threads ∙ p.threads;
    timer = q.timer ∙ p.timer;
  }

  -- the thread of the worker ends before it makes a session or takes an event
  unfoldable pub soon : Phase → List (Event x) → Bool → Bool
  soon resting q p = true
  soon waiting q p = heads_stop x q
  soon connecting q p = not p
  soon (paused a) q p = true
  soon opened q p = false
  soon timed q p = false

  pub record IsHalting (st : State x) : Type 0 where
    pub please : st.please_stop ≡ true
    pub should : st.should_stop ≡ true
    pub halts : soon st.phase st.queue st.has_peer ≡ true

  pub soon-grows :
      (p : Phase) (q l : List (Event x)) (b : Bool) → soon p q b ≡ true → soon p (q ++ l) b ≡ true
  unfolding soon
  soon-grows resting q l b h = refl
  soon-grows waiting q l b h = heads_stop-append x q l h
  soon-grows connecting q l b h = h
  soon-grows (paused a) q l b h = refl
  soon-grows opened q l b h = h
  soon-grows timed q l b h = h

  pub soon-cleaned :
      (p : Phase) (q : List (Event x)) (b : Bool) → soon p q b ≡ true → soon p q false ≡ true
  unfolding soon
  soon-cleaned resting q b h = refl
  soon-cleaned waiting q b h = h
  soon-cleaned connecting q b h = refl
  soon-cleaned (paused a) q b h = refl
  soon-cleaned opened q b h = h
  soon-cleaned timed q b h = h

  pub soon_in :
      (st : State x) (p : Phase) → IsHalting st → st.phase ≡ p → soon p st.queue st.has_peer ≡ true
  soon_in st p h e = ap (λ (u : Phase). soon u st.queue st.has_peer) (sym e) ∙ h.halts

  pub soon-heads :
      (p : Phase) (q t : List (Event x)) (b : Bool)
      → (heads_stop x q ≡ true → heads_stop x t ≡ true)
      → soon p q b ≡ true
      → soon p t b ≡ true
  unfolding soon
  soon-heads resting q t b k h = refl
  soon-heads waiting q t b k h = k h
  soon-heads connecting q t b k h = h
  soon-heads (paused a) q t b k h = refl
  soon-heads opened q t b k h = h
  soon-heads timed q t b k h = h

  -- `st'` is as silent as `st`, and halts
  pub record Halts (st st' : State x) : Type 0 where
    pub silent : IsSilent st st'
    pub halting : IsHalting st'

  pub Halts-if :
      (b : Bool) (st u v : State x)
      → (b ≡ true → Halts st u)
      → (b ≡ false → Halts st v)
      → Halts st (if b then u else v)
  Halts-if true st u v h k = h refl
  Halts-if false st u v h k = k refl

  module _ (me : Source) (f : Families) where
    to_active-Halts :
        (st : State x) → IsHalting st → Halts st (record (to_active x me f st) { phase = resting })
    unfolding to_active init_connect_timer soon
    to_active-Halts st h =
        rw (set_state_lem x active st, stop_and_clean_lem x me _)
          (record {
            silent = record { mail = refl; threads = refl; timer = refl };
            halting = record { please = h.please; should = h.should; halts = refl };
          })

    pub fail_connect-Halts :
        (e : Error) (st : State x)
        → IsHalting st
        → Halts st (record (fail_connect x me f e st) { phase = resting })
    unfolding fail_connect soon
    fail_connect-Halts stopped st h = record {
      silent = record { mail = refl; threads = refl; timer = refl };
      halting = record { please = h.please; should = h.should; halts = refl };
    }
    fail_connect-Halts initiate_connection st h = to_active-Halts st h
    fail_connect-Halts open_wait_timeout st h = to_active-Halts st h
    fail_connect-Halts assertion st h = to_active-Halts st h
    fail_connect-Halts attribute_error st h = to_active-Halts st h
    fail_connect-Halts other st h = to_active-Halts st h

    -- without a peer the last part of the connection raises
    negotiate-raise :
        (c : Connection) (st : State x)
        → st.has_peer ≡ false
        → negotiate x f c st ≡ raise attribute_error st
    unfolding negotiate
    negotiate-raise c st h = rw h refl

    pub finish_initiation-raise :
        (c : Connection) (st : State x)
        → st.has_peer ≡ false
        → (e : Error) × (finish_initiation x f c st ≡ raise e st)
    unfolding finish_initiation
    finish_initiation-raise c st h = ended c.end
      where
        ended :
            (n : End)
            → (e : Error) × (elim (end_of x n st) [
              | ok a st' ↦ negotiate x f c st'
              | raise e st' ↦ raise e st'
            ]
                ≡ raise e st)
        ended exhausted = (attribute_error, negotiate-raise c st h)
        ended interrupted = (initiate_connection, refl)
        ended lost_connection = (other, refl)
        ended (notify code subcode) = (_, refl)
