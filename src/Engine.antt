-- ===== src/Engine.antt =====
-- Routes and events: networking_bagpipe/bagpipe_bgp/engine/__init__.py.
-- What the package exabgp provides (NLRIs, attributes, extended communities) is the parameter
-- `Exabgp`. A route of the source carries its `source` object or None: `RouteEntry x S` has the
-- type `S` of that field as a parameter, so a route of an event, whose source is never None, is a
-- `RouteEntry x Source`. Two routes are equal for the source (`__eq__`) if all the fields of the
-- record are: attributes are compared by `sameValuesAs`, which is the equality of `Attributes`.
-- The field `_route_targets`, which always repeats the route targets among the extended
-- communities, is the function `route_targets`.
pub mod Targets
pub mod Toy
mod Tests
use networking_bagpipe_l.Common.{
  ℕ, ◌≡◌, Bool, true, false, not, Option, none, some, List, [], ◌∷◌, ◌++◌, map, filter_list,
  is_some, if◌then◌else◌, ℕ_discrete,
}

pub record Exabgp : Type 1 where
  pub Nlri : Type 0
  pub nlri_discrete : Discrete Nlri
  pub nlri_afi : Nlri → ℕ
  pub nlri_safi : Nlri → ℕ
  pub RouteTarget : Type 0
  pub rt_discrete : Discrete RouteTarget
  -- extended communities, those that are route targets among them
  pub Ecom : Type 0
  pub as_route_target : Ecom → Option RouteTarget
  pub rt_ecom : RouteTarget → Ecom
  pub as_route_target-rt_ecom : (rt : RouteTarget) → as_route_target (rt_ecom rt) ≡ some rt
  pub Attributes : Type 0
  pub attributes_discrete : Discrete Attributes
  -- `exa.Attributes()`, which has no extended communities
  pub no_attributes : Attributes
  -- the attribute EXTENDED_COMMUNITY, if it is there, and the attributes with it replaced
  pub communities : Attributes → Option (List Ecom)
  pub put_communities : List Ecom → Attributes → Attributes
  pub communities-put_communities :
      (cs : List Ecom) (a : Attributes) → communities (put_communities cs a) ≡ some cs
  -- the value of the attribute LOCAL_PREF, if it is there
  pub localpref : Attributes → Option ℕ
  -- the attributes whose code is in the list
  pub keep : List ℕ → Attributes → Attributes

-- The objects that can be the source of a route. A number stands for the identity of the object.
pub data Source : Type 0 where
  bgp_peer : ℕ → Source
  vpn_instance : ℕ → Source
  bgp_manager : Source

unfoldable pub source_discrete : Discrete Source
unfolding ℕ_discrete
source_discrete = hlevel ℕ_discrete

-- `isinstance(s, BGPPeerWorker)`
unfoldable pub is_bgp_peer : Source → Bool
is_bgp_peer (bgp_peer _) = true
is_bgp_peer _ = false

pub record RouteEntry (x : Exabgp) (S : Type 0) : Type 0 where
  pub nlri : x.Nlri
  pub afi : ℕ
  pub safi : ℕ
  pub attributes : x.Attributes
  pub source : S

pub data EventType : Type 0 where
  advertise withdraw : EventType

pub record RouteEvent (x : Exabgp) : Type 0 where
  pub type : EventType
  pub route_entry : RouteEntry x Source
  pub replaced_route : Option (RouteEntry x Source)

module _ (x : Exabgp) where
  unfoldable pub entry_discrete : {S : Type 0} → Discrete S → Discrete (RouteEntry x S)
  unfolding ℕ_discrete
  entry_discrete d = hlevel (x.nlri_discrete, x.attributes_discrete, ℕ_discrete, d)

  -- `[e for e in ecoms if isinstance(e, RouteTarget)]`
  unfoldable pub targets_of : List x.Ecom → List x.RouteTarget
  targets_of [] = []
  targets_of (e ∷ es) = elim (x.as_route_target e) [
    | some rt ↦ rt ∷ targets_of es
    | none ↦ targets_of es
  ]

  -- the communities, or the empty list
  unfoldable pub all_ecoms : x.Attributes → List x.Ecom
  all_ecoms a = elim (x.communities a) [ some cs ↦ cs | none ↦ [] ]

  -- the property `route_targets`
  unfoldable pub route_targets : {S : Type 0} → RouteEntry x S → List x.RouteTarget
  unfolding targets_of all_ecoms
  route_targets re = targets_of (all_ecoms re.attributes)

  -- `ecoms(filter_)`
  unfoldable pub ecoms : {S : Type 0} → RouteEntry x S → (x.Ecom → Bool) → List x.Ecom
  unfolding all_ecoms
  ecoms re p = filter_list p (all_ecoms re.attributes)

  -- `RouteEntry(nlri, rts, attributes, source)`: given route targets are added to the extended
  -- communities of the attributes, and make that attribute where there is none.
  unfoldable pub init :
      {S : Type 0} → x.Nlri → Option (List x.RouteTarget) → Option x.Attributes → S → RouteEntry x S
  unfolding all_ecoms
  init nlri rts attributes source =
      let attrs : x.Attributes = elim attributes [ some a ↦ a | none ↦ x.no_attributes ] in
      let given : List x.RouteTarget = elim rts [ some l ↦ l | none ↦ [] ] in
      record {
        nlri = nlri;
        afi = x.nlri_afi nlri;
        safi = x.nlri_safi nlri;
        attributes = elim given [
          | [] ↦ attrs
          | rt ∷ more ↦ x.put_communities (all_ecoms attrs ++ map x.rt_ecom (rt ∷ more)) attrs
        ];
        source = source;
      }

  -- `set_route_targets`
  unfoldable pub set_route_targets :
      {S : Type 0} → RouteEntry x S → List x.RouteTarget → RouteEntry x S
  unfolding ecoms
  set_route_targets re rts =
      let others = ecoms re (λ e. not (is_some (x.as_route_target e))) in
      record re { attributes = x.put_communities (others ++ map x.rt_ecom rts) re.attributes }

  -- `RouteEvent(event_type, route_entry, source)`: a given source becomes the source of the route;
  -- `none` is the failed assertion that there is a source.
  unfoldable pub init_event :
      EventType → RouteEntry x (Option Source) → Option Source → Option (RouteEvent x)
  init_event ty re source = elim source [
    | some s ↦ some (with_source s)
    | none ↦ map_source re.source
  ]
    where
      with_source : Source → RouteEvent x
      with_source s = record {
        type = ty;
        route_entry = record {
          nlri = re.nlri;
          afi = re.afi;
          safi = re.safi;
          attributes = re.attributes;
          source = s;
        };
        replaced_route = none;
      }

      map_source : Option Source → Option (RouteEvent x)
      map_source none = none
      map_source (some s) = some (with_source s)

  -- an event about a route that has its source
  unfoldable pub event_for : EventType → RouteEntry x Source → RouteEvent x
  event_for ty re = record { type = ty; route_entry = re; replaced_route = none }

  -- `event.source`
  abbrev pub event_source : RouteEvent x → Source
  event_source ev = ev.route_entry.source
