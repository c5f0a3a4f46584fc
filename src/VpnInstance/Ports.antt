-- ===== src/VpnInstance/Ports.antt =====
-- The ports of a `TrafficClassifier`, and the rules that carry them in a FlowSpec route.
use networking_bagpipe_l.Common.{
  ℕ, ◌≡◌, ◌≤◌, Bool, true, false, not, ◌&&◌, ◌||◌, List, [], ◌∷◌, ◌==◌, ltb, leb, if◌then◌else◌,
  arith,
}

-- What the code uses of FlowSpec in exabgp: the flags of `NumericOperator`, which `|` joins, and
-- whether a router that applies an operator and a value of a rule sees a port number as fitting. The
-- laws are those of RFC 5575 for the operators that the code makes; the flag AND only tells how the
-- element is joined to the one before it.
pub record Flow : Type 1 where
  pub Operator : Type 0
  pub eq : Operator
  pub gt : Operator
  pub lt : Operator
  pub and : Operator
  pub join : Operator → Operator → Operator
  pub fits : Operator → ℕ → ℕ → Bool
  pub fits-eq : (n p : ℕ) → fits eq n p ≡ (p == n)
  pub fits-gt : (n p : ℕ) → fits gt n p ≡ ltb n p
  pub fits-lt : (n p : ℕ) → fits lt n p ≡ ltb p n
  pub fits-gt_eq : (n p : ℕ) → fits (join gt eq) n p ≡ (ltb n p || p == n)
  pub fits-and_lt_eq : (n p : ℕ) → fits (join (join and lt) eq) n p ≡ (ltb p n || p == n)

-- what `source_port` and `destination_port` hold: a port, or a tuple of the first and the last one
pub data Ports : Type 0 where
  port : ℕ → Ports
  range : ℕ → ℕ → Ports

abbrev max_port : ℕ
max_port = 65535

-- whether a port number is one of the ports
unfoldable pub is_among : Ports → ℕ → Bool
is_among (port n) p = p == n
is_among (range a b) p = leb a p && leb p b

-- the ports are port numbers, in order
unfoldable pub is_valid : Ports → Bool
is_valid (port n) = leb n max_port
is_valid (range a b) = leb a b && leb b max_port

-- the end of a range that the rules leave out: the last port of one that starts at 0, the first
-- port of one that ends at 65535
unfoldable pub is_lost : Ports → ℕ → Bool
is_lost (port n) p = false
is_lost (range a b) p = if a == 0 then p == b else b == max_port && p == a

module _ (flow : Flow) where
  open flow use {Operator}

  -- `_construct_port_rules`
  unfoldable pub construct_port_rules : Ports → List (Operator × ℕ)
  construct_port_rules (port n) = (flow.eq, n) ∷ []
  construct_port_rules (range a b) =
      let gt_eq_op = flow.join flow.gt flow.eq in
      let lt_eq_op = flow.join (flow.join flow.and flow.lt) flow.eq in
      if a == 0
      then (flow.lt, b) ∷ []
      else if b == max_port
      then (flow.gt, a) ∷ []
      else (gt_eq_op, a) ∷ (lt_eq_op, b) ∷ []

  -- Whether a router sees the port number as matching the rules. The rules that the code makes have
  -- one element, or a second one that is joined to the first by AND.
  unfoldable pub fits_rules : List (Operator × ℕ) → ℕ → Bool
  fits_rules [] p = true
  fits_rules ((op, n) ∷ l) p = flow.fits op n p && fits_rules l p

  -- The rules that are made of a port or of a range a:b, with port numbers in order, match just its
  -- port numbers, but for one end of a range that touches an end of the port numbers.
  pub construct_port_rules_lem :
      (q : Ports) (p : ℕ)
      → is_valid q ≡ true
      → p ≤ max_port
      → fits_rules (construct_port_rules q) p ≡ (is_among q p && not (is_lost q p))
  unfolding fits_rules construct_port_rules is_among is_lost is_valid
  construct_port_rules_lem (port n) p h l = ground (arith, flow.fits-eq n p)
  construct_port_rules_lem (range a b) p h l = ground (
    arith,
    h,
    l,
    flow.fits-gt a p,
    flow.fits-lt b p,
    flow.fits-gt_eq a p,
    flow.fits-and_lt_eq b p,
  )
