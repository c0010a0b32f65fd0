-- ===== src/Store/Ensures.antt =====
-- A proof rule for what a computation answers when it does not end in an error.
use reactorcide.Store.World.{
  Error, Result, ok, err, World, M, continue, ◌>>=◌, ◌>>◌, return, fail, try,
}
use reactorcide.Prelude.{◌≡◌, refl, Bool, true, false, if◌then◌else◌}

-- What a run answers, if it does not end in an error, satisfies `P`.
abbrev pub IfOk : {A : Type 0} → (A → Type 0) → Result A → Type 0
IfOk P (ok a) = P a
IfOk P (err e) = Unit

pub record Ensures {A : Type 0} (P : A → Type 0) (m : M A) : Type 0 where
  pub at : (w : World) → IfOk P (m w).0

continue-at :
    {A B : Type 0} (P : A → Type 0) (R : B → Type 0) (f : A → M B) (r : Result A × World)
    → IfOk P r.0
    → ((a : A) → P a → Ensures R (f a))
    → IfOk R (continue f r).0
unfolding continue
continue-at P R f (ok a, w) p h = (h a p).at w
continue-at P R f (err e, w) p h = tt

module _ {A B : Type 0} {P : A → Type 0} {R : B → Type 0} where
  pub >>=-Ensures :
      (m : M A) (f : A → M B)
      → Ensures P m
      → ((a : A) → P a → Ensures R (f a))
      → Ensures R (m >>= f)
  unfolding ◌>>=◌
  >>=-Ensures m f hm h = record { at = λ w. continue-at P R f (m w) (hm.at w) h }

module _ {A B : Type 0} {R : B → Type 0} where
  -- Nothing is asked of the first part.
  pub then-Ensures : (m : M A) (f : A → M B) → ((a : A) → Ensures R (f a)) → Ensures R (m >>= f)
  then-Ensures m f h = >>=-Ensures m f (any m) (λ a _. h a)
    where
      any_result : (r : Result A) → IfOk (λ _. Unit {0}) r
      any_result (ok a) = tt
      any_result (err e) = tt

      any : (m : M A) → Ensures (λ _. Unit {0}) m
      any m = record { at = λ w. any_result (m w).0 }

pub return-Ensures : {A : Type 0} {P : A → Type 0} (a : A) → P a → Ensures P (return a)
unfolding return
return-Ensures a p = record { at = λ w. p }

pub >>-Ensures :
    {B : Type 0} {R : B → Type 0} (m : M (Unit {0})) (k : M B) → Ensures R k → Ensures R (m >> k)
unfolding ◌>>◌
>>-Ensures m k h = then-Ensures m (λ _. k) (λ _. h)

pub weaken :
    {A : Type 0} {P R : A → Type 0} {m : M A} → ((a : A) → P a → R a) → Ensures P m → Ensures R m
weaken {A = A} {P = P} {R = R} {m = m} f h = record { at = λ w. if_ok (m w).0 (h.at w) }
  where
    if_ok : (r : Result A) → IfOk P r → IfOk R r
    if_ok (ok a) p = f a p
    if_ok (err e) p = tt

-- An error, as a value, is asked nothing.
pub try-Ensures : {A : Type 0} {P : A → Type 0} {m : M A} → Ensures P m → Ensures (IfOk P) (try m)
unfolding try
try-Ensures h = record { at = h.at }

pub fail-Ensures : {A : Type 0} {P : A → Type 0} (e : Error) → Ensures P (fail e)
unfolding fail
fail-Ensures e = record { at = λ w. tt }

pub if-Ensures :
    {A : Type 0} {P : A → Type 0} (b : Bool) {x y : M A}
    → (b ≡ true → Ensures P x)
    → (b ≡ false → Ensures P y)
    → Ensures P (if b then x else y)
if-Ensures true hx hy = hx refl
if-Ensures false hx hy = hy refl
