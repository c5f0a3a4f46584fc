-- ===== src/Common/Maps.antt =====
-- Python dicts as functions into Option, and attributes of objects as functions of the object.
use mathlib.Core.Path.{◌≡◌}
use mathlib.Core.Logic.{◌≢◌}
use native.Mathlib.Omega.{arith}
use networking_bagpipe_l.Common.Tests.{eqb, if◌then◌else◌}

module _ {ℓ κ} {K : Type ℓ} {V : Type κ} (dec : Discrete K) where
  -- `m[k] = v`
  abbrev pub update : (K → V) → K → V → K → V
  update m k v j = if eqb dec j k then v else m j

  pub update_self : (m : K → V) (k : K) (v : V) → update m k v k ≡ v
  update_self m k v = ground arith

  pub update_ne : (m : K → V) (k j : K) (v : V) → j ≢ k → update m k v j ≡ m j
  update_ne m k j v h = ground arith
