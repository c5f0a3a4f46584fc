-- ===== src/Engine/Toy.antt =====
-- A small instance of the package exabgp, at which the theorems are applied to concrete inputs.
use networking_bagpipe_l.Common.{
  ℕ, refl, Option, none, some, List, [], ◌∷◌, ℕ_discrete, contains, if◌then◌else◌,
}
use networking_bagpipe_l.Engine.{Exabgp, Source, RouteEntry}

pub data Community : Type 0 where
  route_target other : ℕ → Community

pub record Attributes : Type 0 where
  pub communities : Option (List Community)
  pub localpref : Option ℕ

abbrev attributes_discrete : Discrete Attributes
attributes_discrete = hlevel ℕ_discrete

abbrev pub as_route_target : Community → Option ℕ
as_route_target (route_target rt) = some rt
as_route_target (other _) = none

abbrev pub no_attributes : Attributes
no_attributes = record { communities = none; localpref = none }

-- the codes 16 of EXTENDED_COMMUNITY and 5 of LOCAL_PREF
abbrev keep : List ℕ → Attributes → Attributes
keep codes a = record {
  communities = if contains ℕ_discrete 16 codes then a.communities else none;
  localpref = if contains ℕ_discrete 5 codes then a.localpref else none;
}

abbrev pub toy : Exabgp
toy = record {
  Nlri = ℕ;
  nlri_discrete = ℕ_discrete;
  nlri_afi = λ n. 1;
  nlri_safi = λ n. 128;
  RouteTarget = ℕ;
  rt_discrete = ℕ_discrete;
  Ecom = Community;
  as_route_target = as_route_target;
  rt_ecom = route_target;
  as_route_target-rt_ecom = λ rt. refl;
  Attributes = Attributes;
  attributes_discrete = attributes_discrete;
  no_attributes = no_attributes;
  communities = λ a. a.communities;
  put_communities = λ cs a. record a { communities = some cs };
  communities-put_communities = λ cs a. refl;
  localpref = λ a. a.localpref;
  keep = keep;
}

-- a route of the NLRI 1 with the route targets 7 and 8
abbrev pub two_targets : Attributes
two_targets = record no_attributes {
  communities = some (route_target 7 ∷ other 3 ∷ route_target 8 ∷ []);
}

abbrev pub a_route : Source → RouteEntry toy Source
a_route s = record { nlri = 1; afi = 1; safi = 128; attributes = two_targets; source = s }
