-- ===== src/Common/Dicts.antt =====
-- Dicts as association lists, where the program asks for their keys.
use mathlib.Core.Path.{◌≡◌, refl}
use mathlib.Core.Option.{Option, none, some}
use mathlib.Core.List.{List, [], ◌∷◌}
use native.Mathlib.Omega.{arith}
use networking_bagpipe_l.Common.Tests.{eqb, if◌then◌else◌}

module _ {ℓ κ} {K : Type ℓ} {V : Type κ} (dec : Discrete K) where
  -- `d.get(k)`
  unfoldable pub get : K → List (K × V) → Option V
  get k [] = none
  get k ((j, v) ∷ d) = if eqb dec k j then some v else get k d

  -- `d[k] = v`
  unfoldable pub put : K → V → List (K × V) → List (K × V)
  put k v [] = (k, v) ∷ []
  put k v ((j, w) ∷ d) = if eqb dec k j then (k, v) ∷ d else (j, w) ∷ put k v d

  -- `del d[k]`, or nothing if there is no such key
  unfoldable pub del : K → List (K × V) → List (K × V)
  del k [] = []
  del k ((j, w) ∷ d) = if eqb dec k j then del k d else (j, w) ∷ del k d

  pub get-put :
      (j k : K) (v : V) (d : List (K × V))
      → get j (put k v d) ≡ (if eqb dec j k then some v else get j d)
  unfolding get put
  get-put j k v [] = refl
  get-put j k v ((i, w) ∷ d) = ground (arith, get-put j k v d)

  pub get-del :
      (j k : K) (d : List (K × V)) → get j (del k d) ≡ (if eqb dec j k then none else get j d)
  unfolding get del
  get-del j k [] = ground arith
  get-del j k ((i, w) ∷ d) = ground (arith, get-del j k d)

  pub get-nil : (d : List (K × V)) → ((k : K) → get k d ≡ none) → d ≡ []
  unfolding get
  get-nil [] h = refl
  get-nil ((j, w) ∷ d) h = ground (arith, h j)
