-- ===== src/RouteTable/Match.antt =====
-- The class Match and `matches_for`. A wildcard is `none`; AFIs, SAFIs and route targets that are
-- given are truthy in the source, so `or "*"` replaces None alone. Two matches are the same key of
-- a dict if their texts are equal, which is if their three parts are.
use networking_bagpipe_l.Common.{
  ℕ, ◌≡◌, Bool, true, ◌&&◌, Option, none, some, List, [], ◌∷◌, ◌++◌, map, arith, eqb, contains,
  contains-append, ℕ_discrete,
}
use networking_bagpipe_l.Engine.{Exabgp, RouteEntry, route_targets}

pub record Match (x : Exabgp) : Type 0 where
  pub afi : Option ℕ
  pub safi : Option ℕ
  pub route_target : Option x.RouteTarget

-- The wildcard, or the value itself.
abbrev pub fits {ℓ} : {A : Type ℓ} → Discrete A → Option A → A → Bool
fits dec none a = true
fits dec (some b) a = eqb dec b a

unfoldable pub option_discrete {ℓ} : {A : Type ℓ} → Discrete A → Discrete (Option A)
option_discrete d = hlevel d

module _ (x : Exabgp) where
  unfoldable pub match_discrete : Discrete (Match x)
  unfolding ℕ_discrete
  match_discrete = hlevel (ℕ_discrete, x.rt_discrete)

  -- the matches that the inner loop of `matches_for` yields
  unfoldable pub matches_with : Option ℕ → Option ℕ → List (Option x.RouteTarget) → List (Match x)
  matches_with a s ts = map (λ t. record { afi = a; safi = s; route_target = t }) ts

  unfoldable pub matches_for : ℕ → ℕ → List x.RouteTarget → List (Match x)
  unfolding matches_with
  matches_for afi safi rts =
      let ts = none ∷ map some rts in
      matches_with none none ts
      ++ (matches_with none (some safi) ts
          ++ (matches_with (some afi) none ts ++ matches_with (some afi) (some safi) ts))

  -- A match covers a route if each of its parts is a wildcard or one of the route's.
  abbrev pub covers_target : Option x.RouteTarget → List x.RouteTarget → Bool
  covers_target none rts = true
  covers_target (some rt) rts = contains x.rt_discrete rt rts

  unfoldable pub covers : {S : Type 0} → Match x → RouteEntry x S → Bool
  covers m e =
      fits ℕ_discrete m.afi e.afi
      && (fits ℕ_discrete m.safi e.safi && covers_target m.route_target (route_targets x e))

  same_match :
      (m : Match x) (a s : Option ℕ) (t : Option x.RouteTarget)
      → eqb match_discrete m (record { afi = a; safi = s; route_target = t }) ≡ (
          eqb (option_discrete ℕ_discrete) m.afi a
          && (eqb (option_discrete ℕ_discrete) m.safi s
              && eqb (option_discrete x.rt_discrete) m.route_target t))
  same_match m a s t = ground arith

  contains-matches_with :
      (m : Match x) (a s : Option ℕ) (ts : List (Option x.RouteTarget))
      → contains match_discrete m (matches_with a s ts) ≡ (
          eqb (option_discrete ℕ_discrete) m.afi a
          && (eqb (option_discrete ℕ_discrete) m.safi s
              && contains (option_discrete x.rt_discrete) m.route_target ts))
  unfolding contains matches_with
  contains-matches_with m a s [] = ground arith
  contains-matches_with m a s (t ∷ ts) =
      ground (arith, same_match m a s t, contains-matches_with m a s ts)

  contains-wildcard :
      (t : Option x.RouteTarget) (rts : List x.RouteTarget)
      → contains (option_discrete x.rt_discrete) t (none ∷ map some rts) ≡ covers_target t rts
  unfolding contains
  contains-wildcard none rts = ground arith
  contains-wildcard (some rt) [] = ground arith
  contains-wildcard (some rt) (r ∷ rts) = ground (arith, contains-wildcard (some rt) rts)

  -- `matches_for` yields the matches that cover the route, those with all the possible wildcards,
  -- and no other.
  pub contains-matches_for :
      {S : Type 0} (m : Match x) (e : RouteEntry x S)
      → contains match_discrete m (matches_for e.afi e.safi (route_targets x e)) ≡ covers m e
  unfolding matches_for covers
  contains-matches_for m e =
      let ts = none ∷ map some (route_targets x e) in
      let a = e.afi in
      let s = e.safi in
      ground (
        arith,
        contains-append match_discrete m (matches_with none none ts) (
            matches_with none (some s) ts
            ++ (matches_with (some a) none ts ++ matches_with (some a) (some s) ts)),
        contains-append match_discrete m (matches_with none (some s) ts)
            (matches_with (some a) none ts ++ matches_with (some a) (some s) ts),
        contains-append match_discrete m (matches_with (some a) none ts)
            (matches_with (some a) (some s) ts),
        contains-matches_with m none none ts,
        contains-matches_with m none (some s) ts,
        contains-matches_with m (some a) none ts,
        contains-matches_with m (some a) (some s) ts,
        contains-wildcard m.route_target (route_targets x e),
      )
