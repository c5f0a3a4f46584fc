-- ===== src/Peer/Whole.antt =====
-- The steps of `_connect`, when no other thread comes between them.
use networking_bagpipe_l.Common.{Option}
use networking_bagpipe_l.Common.Outcome.{Outcome}
use networking_bagpipe_l.Engine.{Exabgp, Source}
use networking_bagpipe_l.Peer.Base.{Phase, Error, Families, State}
use networking_bagpipe_l.Peer.Steps.{resume, Runs}

module _ (x : Exabgp) where
  module _ (me : Source) (f : Families) where
    module _ (nlri_rt : x.Nlri → Option x.RouteTarget) where
      -- a run to the end of a method, which goes on in that phase
      Arrives : State x → Phase → Outcome Error (State x) (Unit {0}) → Type 0
      Arrives s₀ q o = Runs x me f nlri_rt s₀ (resume x me f nlri_rt q o)
