-- ===== src/Prelude/Stateful.antt =====
-- Methods on `&mut self` that may fail, in do blocks: the changes made before a failure stay.
use mathlib.Core.Path.{◌≡◌, refl, ap}
use remote.Prelude.Results.{Result, ok, err}

abbrev pub Stateful : Type 0 → Type 0 → Type 0 → Type 0
Stateful S E A = S → S × Result E A

abbrev pub after : {S E A C : Type 0} → S × Result E A → (A → Stateful S E C) → S × Result E C
after (t, ok a) f = f a t
after (t, err e) f = (t, err e)

infixl 5 ◌>>=◌ ◌>>◌
abbrev pub ◌>>=◌ : {S E A C : Type 0} → Stateful S E A → (A → Stateful S E C) → Stateful S E C
◌>>=◌ m f s = after (m s) f

abbrev pub ◌>>◌ : {S E A C : Type 0} → Stateful S E A → Stateful S E C → Stateful S E C
◌>>◌ m k s = after (m s) (λ _. k)

abbrev pub pure : {S E A : Type 0} → A → Stateful S E A
pure a s = (s, ok a)

abbrev pub fail : {S E A : Type 0} → E → Stateful S E A
fail e s = (s, err e)

-- A chain that succeeds succeeds at its first step.
pub after-ok :
    {S E A C : Type 0} (r : S × Result E A) (f : A → Stateful S E C) {t : S} {b : C}
    → after r f ≡ (t, ok b)
    → (s : S) × (a : A) × (r ≡ (s, ok a)) × (f a s ≡ (t, ok b))
after-ok (s, ok a) f h = (s, a, refl, h)
after-ok (s, err e) f h = absurd cc

pub after-eq :
    {S E A C : Type 0} {r : S × Result E A} (f : A → Stateful S E C) {s : S} {a : A}
    → r ≡ (s, ok a)
    → after r f ≡ f a s
after-eq f h = ap (λ q. after q f) h
