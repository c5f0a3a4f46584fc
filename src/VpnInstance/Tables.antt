-- ===== src/VpnInstance/Tables.antt =====
-- The questions about the endpoints of an instance: `is_empty` and the methods beside it.
use networking_bagpipe_l.Common.{
  ◌≡◌, refl, Bool, true, false, Option, none, some, List, [], ◌∷◌, ◌++◌, contains, is_some, length,
  ◌==◌, arith, eqb_self,
}
use networking_bagpipe_l.Common.Dicts.{get, get-nil}
use networking_bagpipe_l.Engine.{Exabgp}
use networking_bagpipe_l.VpnInstance.Base.{
  Site, Endpoint, endpoint_discrete, endpoints_in, PortData, State,
}
use networking_bagpipe_l.VpnInstance.Tidy.{
  IsTidy, is_on, is_plugged, is_plugged_at, is_on-is_plugged,
}

module _ (x : Exabgp) (s : Site x) where
  open s use {Interface, interface_discrete, linuxif}

  -- `is_empty`
  unfoldable pub is_empty : State x s → Bool
  is_empty st = length st.localport_2_endpoints == 0

  -- `has_enpoint`
  unfoldable pub has_enpoint : Interface → State x s → Bool
  has_enpoint i st = is_some (get interface_discrete i st.localport_2_endpoints)

  -- `has_only_one_endpoint`
  unfoldable pub has_only_one_endpoint : State x s → Bool
  has_only_one_endpoint st = only_one st.localport_2_endpoints
    where
      only_one : List (Interface × List (Endpoint x s)) → Bool
      only_one ((i, l) ∷ []) = length l == 1
      only_one _ = false

  -- `all_endpoints`
  unfoldable pub all_endpoints : List (Interface × List (Endpoint x s)) → List (Endpoint x s)
  all_endpoints [] = []
  all_endpoints ((i, l) ∷ d) = l ++ all_endpoints d

  first_on :
      (st : State x s) (i : Interface) (a : Endpoint x s) (l : List (Endpoint x s))
      → get interface_discrete i st.localport_2_endpoints ≡ some (a ∷ l)
      → is_on x s st i a ≡ true
  unfolding is_on endpoints_in contains
  first_on st i a l h = ground (arith, h, eqb_self (endpoint_discrete x s) a)

  no_interface :
      (st : State x s)
      → IsTidy x s st
      → ((a : Endpoint x s) → is_plugged x s st a ≡ false)
      → (i : Interface) → (o : Option (List (Endpoint x s)))
      → get interface_discrete i st.localport_2_endpoints ≡ o
      → get interface_discrete i st.localport_2_endpoints ≡ none
  no_interface st t h i none e = e
  no_interface st t h i (some []) e = absurd (t.filled i e)
  no_interface st t h i (some (a ∷ l)) e =
      ground (arith, h a, is_on-is_plugged x s st i a t (first_on st i a l e))

  no_ports :
      (d : List (Interface × List (Endpoint x s))) (i : Interface) (a : Endpoint x s)
      → (length d == 0) ≡ true
      → contains (endpoint_discrete x s) a (endpoints_in x s d i) ≡ false
  unfolding endpoints_in get contains
  no_ports [] i a h = refl
  no_ports (p ∷ d) i a h = ground (arith, h)

  plugged_nowhere :
      (st : State x s) (a : Endpoint x s) (o : Option (PortData x s))
      → (length st.localport_2_endpoints == 0) ≡ true
      → is_plugged_at x s st o a ≡ false
  unfolding is_plugged_at is_on
  plugged_nowhere st a none h = refl
  plugged_nowhere st a (some d) h = no_ports st.localport_2_endpoints (linuxif d.port_info) a h

  -- Where the tables agree, an instance is empty for `is_empty`, and so can be stopped, just when no
  -- endpoint is plugged.
  pub is_empty-is_plugged :
      (st : State x s)
      → IsTidy x s st
      → (((a : Endpoint x s) → is_plugged x s st a ≡ false) → is_empty st ≡ true)
        × (is_empty st ≡ true → (a : Endpoint x s) → is_plugged x s st a ≡ false)
  unfolding is_empty
  is_empty-is_plugged st t = (
    λ h. ground (
      arith,
      get-nil interface_discrete st.localport_2_endpoints (λ i. no_interface st t h i _ refl),
    ),
    λ e a. plugged_nowhere st a (st.mac_2_localport_data a.mac) e,
  )
