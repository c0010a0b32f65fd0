-- ===== src/Store/Triple.antt =====
-- A proof rule for what a computation keeps of the state together with what it answers.
use reactorcide.Prelude.{◌≡◌, refl, Bool, true, false, if◌then◌else◌}
use reactorcide.Store.World.{
  Error, Result, ok, err, World, M, continue, ◌>>=◌, ◌>>◌, return, fail, try, ignore, gets, modify,
}
use reactorcide.Store.Ensures.{IfOk}

-- Every run from a state where `I` holds ends in one, and its answer, unless it is an error, satisfies
-- `P`.
pub record Triple (I : World → Type 0) {A : Type 0} (P : A → Type 0) (m : M A) : Type 0 where
  pub at : (w : World) → I w → I (m w).1 × IfOk P (m w).0

-- Any answer.
abbrev pub Any : {A : Type 0} → A → Type 0
Any a = Unit {0}

pub unit_answer : {A : Type 0} (r : Result A) → IfOk (Any {A = A}) r
unit_answer (ok a) = tt
unit_answer (err e) = tt

module _ {I : World → Type 0} where
  continue-at :
      {A B : Type 0} {P : A → Type 0} {R : B → Type 0} (f : A → M B) (r : Result A × World)
      → ((a : A) → P a → Triple I R (f a))
      → I r.1
      → IfOk P r.0
      → I (continue f r).1 × IfOk R (continue f r).0
  unfolding continue
  continue-at f (ok a, w) h i p = (h a p).at w i
  continue-at f (err e, w) h i p = (i, tt)

  pub >>=-Triple :
      {A B : Type 0} {P : A → Type 0} {R : B → Type 0} {m : M A} {f : A → M B}
      → Triple I P m
      → ((a : A) → P a → Triple I R (f a))
      → Triple I R (m >>= f)
  unfolding ◌>>=◌
  >>=-Triple {m = m} {f = f} hm h = record {
    at = λ w i. let r = hm.at w i in continue-at f (m w) h r.0 r.1;
  }

  pub >>-Triple :
      {B : Type 0} {R : B → Type 0} {m : M (Unit {0})} {k : M B}
      → Triple I Any m
      → Triple I R k
      → Triple I R (m >> k)
  unfolding ◌>>◌
  >>-Triple hm hk = >>=-Triple hm (λ _ _. hk)

  pub return-Triple : {A : Type 0} {P : A → Type 0} (a : A) → P a → Triple I P (return a)
  unfolding return
  return-Triple a p = record { at = λ w i. (i, p) }

  pub fail-Triple : {A : Type 0} {P : A → Type 0} (e : Error) → Triple I P (fail e)
  unfolding fail
  fail-Triple e = record { at = λ w i. (i, tt) }

  pub try-Triple :
      {A : Type 0} {P : A → Type 0} {m : M A} → Triple I P m → Triple I (IfOk P) (try m)
  unfolding try
  try-Triple h = record { at = h.at }

  pub ignore-Triple : {m : M (Unit {0})} → Triple I Any m → Triple I Any (ignore m)
  unfolding ignore
  ignore-Triple h = record { at = λ w i. ((h.at w i).0, tt) }

  pub gets-Triple :
      {A : Type 0} {P : A → Type 0} (f : World → A)
      → ((w : World) → I w → P (f w))
      → Triple I P (gets f)
  unfolding gets
  gets-Triple f h = record { at = λ w i. (i, h w i) }

  pub modify-Triple : (f : World → World) → ((w : World) → I w → I (f w)) → Triple I Any (modify f)
  unfolding modify
  modify-Triple f h = record { at = λ w i. (h w i, tt) }

  pub if-Triple :
      {A : Type 0} {P : A → Type 0} (b : Bool) {x y : M A}
      → (b ≡ true → Triple I P x)
      → (b ≡ false → Triple I P y)
      → Triple I P (if b then x else y)
  if-Triple true hx hy = hx refl
  if-Triple false hx hy = hy refl

  pub forget : {A : Type 0} {P : A → Type 0} {m : M A} → Triple I P m → Triple I Any m
  forget {m = m} h = record { at = λ w i. ((h.at w i).0, unit_answer (m w).0) }
