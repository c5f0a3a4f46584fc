-- ===== src/Peer/Silent.antt =====
-- What the threads of a worker do after its `stop`.
use networking_bagpipe_l.Common.{◌≡◌, refl, Bool, true, false, Option, List}
use networking_bagpipe_l.Engine.{Exabgp, Source}
use networking_bagpipe_l.RouteTable.Defs.{is_nil}
use networking_bagpipe_l.Peer.Base.{
  idle, Event, Families, State, Phase, resting, waiting, connecting, opened, timed, paused,
  established,
}
use networking_bagpipe_l.Peer.Worker.{worker_stop, stop}
use networking_bagpipe_l.Peer.Session.{to_established}
use networking_bagpipe_l.Peer.Steps.{in_phase, Step, establishes}
use networking_bagpipe_l.Peer.Watch.{set_state_lem}
use networking_bagpipe_l.Peer.Kept.{stop_and_clean_lem}
use networking_bagpipe_l.Peer.Events.{to_established_lem}

module _ (x : Exabgp) where
  module _ (me : Source) (f : Families) where
    module _ (nlri_rt : x.Nlri → Option x.RouteTarget) where
      -- whether the worker has no session, nor an event, on the way
      unfoldable pub is_free : Phase → List (Event x) → Bool
      is_free resting q = true
      is_free waiting q = is_nil q
      is_free connecting q = true
      is_free (paused a) q = true
      is_free opened q = false
      is_free timed q = false

      late :
          (st : State x)
          → st.phase ≡ timed
          → st.was_stopped ≡ false
          → ((stop x me st).phase ≡ timed)
            × ((stop x me st).has_peer ≡ false)
            × ((stop x me st).was_stopped ≡ true)
      unfolding stop worker_stop
      late st h n = rw (n, set_state_lem x idle _, stop_and_clean_lem x me _) (h, refl, refl)

      established_of :
          (u : State x)
          → u.has_peer ≡ false
          → u.was_stopped ≡ true
          → ((to_established x me f u).fsm_state ≡ established)
            × ((to_established x me f u).has_peer ≡ false)
            × ((to_established x me f u).was_stopped ≡ true)
      established_of u e w =
          rw (to_established_lem x me f u, set_state_lem x established u) (refl, e, w)

      -- A `stop` that another thread makes after the start of the receive thread does not keep the
      -- worker's thread from its next step, to Established: the worker that was stopped is then
      -- established, without a peer.
      pub stop-late :
          (st : State x)
          → st.phase ≡ timed
          → st.was_stopped ≡ false
          → (st' : State x) × Step x me f nlri_rt (stop x me st) st'
            × (st'.fsm_state ≡ established)
            × (st'.has_peer ≡ false)
            × (st'.was_stopped ≡ true)
      stop-late st h n =
          let (p, e, w) = late st h n in
          let u = stop x me st in
          let (state, peer, was) = established_of u e w in
          (
            in_phase x me f nlri_rt resting (to_established x me f u),
            establishes u p,
            state,
            peer,
            was,
          )
