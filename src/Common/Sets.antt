-- ===== src/Common/Sets.antt =====
-- Python sets of values with decidable equality, as lists. What a set holds is read by the Boolean
-- test `contains`; each operation has one equation that says what the result contains.
use mathlib.Core.Path.{◌≡◌, refl}
use mathlib.Core.Bool.{Bool, true, false, ◌&&◌, ◌||◌, not}
use mathlib.Core.List.{List, [], ◌∷◌, ◌++◌}
use native.Mathlib.Omega.{arith}
use networking_bagpipe_l.Common.Tests.{eqb, if◌then◌else◌}
use networking_bagpipe_l.Common.Lists.{filter_list}

module _ {ℓ} {A : Type ℓ} (dec : Discrete A) where
  -- `x in xs`
  unfoldable pub contains : A → List A → Bool
  contains x [] = false
  contains x (y ∷ ys) = eqb dec x y || contains x ys

  -- `s.add(x)`
  unfoldable pub add : A → List A → List A
  unfolding contains
  add x s = if contains x s then s else s ++ x ∷ []

  -- `s.discard(x)`
  unfoldable pub discard : A → List A → List A
  discard x = filter_list (λ y. not (eqb dec y x))

  -- `l.remove(x)`: the first occurrence; an absent `x` (a `ValueError`) leaves the list
  unfoldable pub remove_first : A → List A → List A
  remove_first x [] = []
  remove_first x (y ∷ ys) = if eqb dec y x then ys else y ∷ remove_first x ys

  -- no item twice
  abbrev pub IsDistinct : List A → Type 0
  IsDistinct [] = Unit
  IsDistinct (x ∷ xs) = (contains x xs ≡ false) × IsDistinct xs

  pub eqb-path : (x y : A) → eqb dec x y ≡ true → x ≡ y
  eqb-path x y h = ground arith

  pub eqb_self : (x : A) → eqb dec x x ≡ true
  eqb_self x = ground arith

  pub contains-append :
      (x : A) (xs ys : List A) → contains x (xs ++ ys) ≡ (contains x xs || contains x ys)
  unfolding contains
  contains-append x [] ys = refl
  contains-append x (y ∷ xs) ys = ground (arith, contains-append x xs ys)

  pub contains-add : (x y : A) (s : List A) → contains x (add y s) ≡ (eqb dec x y || contains x s)
  unfolding contains add
  contains-add x y s = ground (arith, contains-append x s (y ∷ []))

  pub contains-filter :
      (x : A) (p : A → Bool) (s : List A) → contains x (filter_list p s) ≡ (contains x s && p x)
  unfolding contains
  contains-filter x p [] = refl
  contains-filter x p (y ∷ s) = ground (arith, contains-filter x p s)

  pub contains-discard :
      (x y : A) (s : List A) → contains x (discard y s) ≡ (contains x s && not (eqb dec x y))
  unfolding discard
  contains-discard x y s = contains-filter x (λ z. not (eqb dec z y)) s

  pub contains-remove_first_ne :
      (x y : A) (s : List A) → eqb dec x y ≡ false → contains x (remove_first y s) ≡ contains x s
  unfolding contains remove_first
  contains-remove_first_ne x y [] h = refl
  contains-remove_first_ne x y (z ∷ s) h = ground (arith, contains-remove_first_ne x y s)

  pub contains-remove_first :
      (x y : A) (s : List A)
      → IsDistinct s
      → contains x (remove_first y s) ≡ (contains x s && not (eqb dec x y))
  unfolding contains remove_first
  contains-remove_first x y [] d = refl
  contains-remove_first x y (z ∷ s) d = ground (arith, contains-remove_first x y s d.1)

  pub append-IsDistinct :
      (is : List A) (i : A) → IsDistinct is → contains i is ≡ false → IsDistinct (is ++ i ∷ [])
  unfolding contains
  append-IsDistinct [] i d h = (refl, tt)
  append-IsDistinct (j ∷ is) i d h =
      ground (arith, append-IsDistinct is i d.1, contains-append j is (i ∷ []))

  pub remove_first-IsDistinct : (x : A) (s : List A) → IsDistinct s → IsDistinct (remove_first x s)
  unfolding remove_first
  remove_first-IsDistinct x [] d = tt
  remove_first-IsDistinct x (y ∷ s) d =
      ground (arith, remove_first-IsDistinct x s d.1, contains-remove_first y x s d.1)

  pub add-IsDistinct : (x : A) (s : List A) → IsDistinct s → IsDistinct (add x s)
  unfolding add
  add-IsDistinct x s d = ground (arith, append-IsDistinct s x d)

  filter_list-IsDistinct : (p : A → Bool) (s : List A) → IsDistinct s → IsDistinct (filter_list p s)
  filter_list-IsDistinct p [] d = tt
  filter_list-IsDistinct p (x ∷ s) d =
      ground (arith, filter_list-IsDistinct p s d.1, contains-filter x p s)

  pub discard-IsDistinct : (x : A) (s : List A) → IsDistinct s → IsDistinct (discard x s)
  unfolding discard
  discard-IsDistinct x s d = filter_list-IsDistinct _ s d
