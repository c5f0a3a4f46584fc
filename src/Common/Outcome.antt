-- ===== src/Common/Outcome.antt =====
-- Methods that change an object and may raise. The changes that were made before an exception stay,
-- as they do in Python.
use networking_bagpipe_l.Common.Tests.{if◌then◌else◌}
use mathlib.Core.Path.{◌≡◌, refl}
use mathlib.Core.Bool.{Bool, true, false}

-- A value or an exception, each with the state after it.
pub data Outcome (E S A : Type 0) : Type 0 where
  ok : A → S → Outcome E S A
  raise : E → S → Outcome E S A

abbrev pub M : Type 0 → Type 0 → Type 0 → Type 0
M E S A = S → Outcome E S A

infixl 5 ◌>>=◌ ◌>>◌
abbrev pub ◌>>=◌ : {E S A B : Type 0} → M E S A → (A → M E S B) → M E S B
◌>>=◌ m f st = elim (m st) [ ok a st' ↦ f a st' | raise e st' ↦ raise e st' ]

abbrev pub ◌>>◌ : {E S A B : Type 0} → M E S A → M E S B → M E S B
m >> k = m >>= λ _. k

abbrev pub return : {E S A : Type 0} → A → M E S A
return a st = ok a st

abbrev pub fail : {E S A : Type 0} → E → M E S A
fail e st = raise e st

abbrev pub modify : {E S : Type 0} → (S → S) → M E S (Unit {0})
modify f st = ok tt (f st)

-- goes on if the test holds, and raises otherwise
abbrev pub ensure : {E S : Type 0} → Bool → E → M E S (Unit {0})
ensure true e st = ok tt st
ensure false e st = raise e st

-- `try: m; except Exception: handler; raise`
abbrev pub on_error : {E S A : Type 0} → M E S A → (S → S) → M E S A
on_error m handler st = elim (m st) [ ok a st' ↦ ok a st' | raise e st' ↦ raise e (handler st') ]

-- the state in the end
abbrev pub state_of : {E S A : Type 0} → Outcome E S A → S
state_of (ok a st) = st
state_of (raise e st) = st

-- What holds of the value and the state where the method returns.
pub data Ends {E S A : Type 0} (P : A → S → Type 0) : Outcome E S A → Type 0 where
  ended : (a : A) (st : S) → P a st → Ends P (ok a st)
  raised : (e : E) (st : S) → Ends P (raise e st)

pub ends_ok :
    {E S A : Type 0} {P : A → S → Type 0} {a : A} {st : S} → Ends {E = E} P (ok a st) → P a st
ends_ok (ended _ _ p) = p

pub Ends-after :
    {E S A B : Type 0} {P : A → S → Type 0} {Q : B → S → Type 0} (o : Outcome E S A)
    (f : A → M E S B)
    → Ends P o
    → ((a : A) (st : S) → P a st → Ends Q (f a st))
    → Ends Q (elim o [ ok a st' ↦ f a st' | raise e st' ↦ raise e st' ])
Ends-after (ok _ _) f (ended a st h) k = k a st h
Ends-after (raise _ _) f (raised e st) k = raised e st

pub Ends-handled :
    {E S A : Type 0} {P : A → S → Type 0} (o : Outcome E S A) (handler : S → S)
    → Ends P o
    → Ends P (elim o [ ok a st' ↦ ok a st' | raise e st' ↦ raise e (handler st') ])
Ends-handled (ok _ _) handler (ended a st h) = ended a st h
Ends-handled (raise _ _) handler (raised e st) = raised e (handler st)

pub Ends-if :
    {E S A : Type 0} {P : A → S → Type 0} (b : Bool) (o u : Outcome E S A)
    → (b ≡ true → Ends P o)
    → (b ≡ false → Ends P u)
    → Ends P (if b then o else u)
Ends-if true o u h k = h refl
Ends-if false o u h k = k refl

pub Ends-as :
    {E S A : Type 0} {P Q : A → S → Type 0} {o : Outcome E S A}
    → ((a : A) (st : S) → P a st → Q a st)
    → Ends P o
    → Ends Q o
Ends-as k (ended a st h) = ended a st (k a st h)
Ends-as k (raised e st) = raised e st

-- The method returns, and this holds of the value and the state.
pub data Returns {E S A : Type 0} (P : A → S → Type 0) : Outcome E S A → Type 0 where
  returned : (a : A) (st : S) → P a st → Returns P (ok a st)

pub Returns-after :
    {E S A B : Type 0} {Q : B → S → Type 0} {o : Outcome E S A} {a : A} {st : S} (f : A → M E S B)
    → o ≡ ok a st
    → Returns Q (f a st)
    → Returns Q (elim o [ ok a' st' ↦ f a' st' | raise e st' ↦ raise e st' ])
Returns-after f h r = rw h r

pub after_ok :
    {E S A B : Type 0} {o : Outcome E S A} {a : A} {st : S} (f : A → M E S B)
    → o ≡ ok a st
    → elim o [ ok a' st' ↦ f a' st' | raise e st' ↦ raise e st' ] ≡ f a st
after_ok f h = rw h refl

pub Returns-with :
    {E S A : Type 0} {P : A → S → Type 0} {o : Outcome E S A} {a : A} {st : S}
    → o ≡ ok a st
    → P a st
    → Returns P o
Returns-with {P = P} h p = rw h (returned _ _ p)

-- The method raises this exception, and this holds of the state.
pub data Raises {E S A : Type 0} (e : E) (P : S → Type 0) : Outcome E S A → Type 0 where
  raises_in : (st : S) → P st → Raises e P (raise e st)

pub Raises-first :
    {E S A B : Type 0} {e : E} {P : S → Type 0} {o : Outcome E S A} (f : A → M E S B)
    → Raises e P o
    → Raises e P (elim o [ ok a' st' ↦ f a' st' | raise e' st' ↦ raise e' st' ])
Raises-first f (raises_in st p) = raises_in st p

pub Raises-later :
    {E S A B : Type 0} {e : E} {P : S → Type 0} {o : Outcome E S A} {a : A} {st : S}
    (f : A → M E S B)
    → o ≡ ok a st
    → Raises e P (f a st)
    → Raises e P (elim o [ ok a' st' ↦ f a' st' | raise e' st' ↦ raise e' st' ])
Raises-later f h r = rw h r

pub Raises-handled :
    {E S A : Type 0} {e : E} {P Q : S → Type 0} {o : Outcome E S A} (handler : S → S)
    → ((st : S) → P st → Q (handler st))
    → Raises e P o
    → Raises e Q (elim o [ ok a st' ↦ ok a st' | raise e' st' ↦ raise e' (handler st') ])
Raises-handled handler k (raises_in st p) = raises_in (handler st) (k st p)

pub Raises-as :
    {E S A : Type 0} {e : E} {P Q : S → Type 0} {o : Outcome E S A}
    → ((st : S) → P st → Q st)
    → Raises e P o
    → Raises e Q o
Raises-as k (raises_in st p) = raises_in st (k st p)
