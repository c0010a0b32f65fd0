-- ===== src/Store/Leads.antt =====
-- A proof rule for computations that come to a known answer.
use reactorcide.Prelude.{◌≡◌, refl, sym, ap, subst, Bool, true, false, if◌then◌else◌}
use reactorcide.Store.Triple.{Triple, Any}
use reactorcide.Store.World.{
  Result, ok, World, M, continue, ◌>>=◌, ◌>>◌, return, try, ignore, gets, modify,
}

-- From a state where `P` holds, `m` answers `a` in one where `R` holds.
pub record Leads (P : World → Type 0) {A : Type 0} (m : M A) (a : A) (R : World → Type 0)
    : Type 0 where
  pub at : (w : World) → P w → ((m w).0 ≡ ok a) × R (m w).1

module _ {Q R : World → Type 0} where
  continue-at :
      {A B : Type 0} (f : A → M B) (r : Result A × World) (a : A) (b : B)
      → r.0 ≡ ok a
      → Q r.1
      → Leads Q (f a) b R
      → ((continue f r).0 ≡ ok b) × R (continue f r).1
  unfolding continue
  continue-at f (r, w) a b e q h =
      subst (λ s. ((continue f (s, w)).0 ≡ ok b) × R (continue f (s, w)).1) (sym e) (h.at w q)

module _ {P Q R : World → Type 0} where
  pub >>=-Leads :
      {A B : Type 0} {m : M A} (f : A → M B) {a : A} {b : B}
      → Leads P m a Q
      → Leads Q (f a) b R
      → Leads P (m >>= f) b R
  unfolding ◌>>=◌
  >>=-Leads {m = m} f {a = a} {b = b} hm hf = record {
    at = λ w p. let r = hm.at w p in continue-at f (m w) a b r.0 r.1 hf;
  }

  pub >>-Leads :
      {B : Type 0} {m : M (Unit {0})} {k : M B} {b : B}
      → Leads P m tt Q
      → Leads Q k b R
      → Leads P (m >> k) b R
  unfolding ◌>>◌
  >>-Leads hm hk = >>=-Leads _ hm hk

module _ {P R : World → Type 0} where
  pub try-Leads : {A : Type 0} {m : M A} {a : A} → Leads P m a R → Leads P (try m) (ok a) R
  unfolding try
  try-Leads h = record { at = λ w p. let r = h.at w p in (ap ok r.0, r.1) }

  pub modify-Leads : (f : World → World) → ((w : World) → P w → R (f w)) → Leads P (modify f) tt R
  unfolding modify
  modify-Leads f h = record { at = λ w p. (refl, h w p) }

module _ {P : World → Type 0} where
  pub return-Leads : {A : Type 0} (a : A) → Leads P (return a) a P
  unfolding return
  return-Leads a = record { at = λ w p. (refl, p) }

  pub gets-Leads :
      {A : Type 0} (f : World → A) (a : A) → ((w : World) → P w → f w ≡ a) → Leads P (gets f) a P
  unfolding gets
  gets-Leads f a h = record { at = λ w p. (ap ok (h w p), p) }

-- From a state where `P` holds, `m` ends in one where `R` holds, whatever it answers.
pub record Brings (P : World → Type 0) {A : Type 0} (m : M A) (R : World → Type 0) : Type 0 where
  pub at : (w : World) → P w → R (m w).1

module _ {Q R : World → Type 0} where
  continue-brings :
      {A B : Type 0} (f : A → M B) (r : Result A × World) (a : A)
      → r.0 ≡ ok a
      → Q r.1
      → Brings Q (f a) R
      → R (continue f r).1
  unfolding continue
  continue-brings f (r, w) a e q h = subst (λ s. R (continue f (s, w)).1) (sym e) (h.at w q)

module _ {P Q R : World → Type 0} where
  pub >>=-Brings :
      {A B : Type 0} {m : M A} (f : A → M B) {a : A}
      → Leads P m a Q
      → Brings Q (f a) R
      → Brings P (m >>= f) R
  unfolding ◌>>=◌
  >>=-Brings {m = m} f {a = a} hm hf = record {
    at = λ w p. let r = hm.at w p in continue-brings f (m w) a r.0 r.1 hf;
  }

  pub >>-Brings :
      {B : Type 0} {m : M (Unit {0})} {k : M B}
      → Leads P m tt Q
      → Brings Q k R
      → Brings P (m >> k) R
  unfolding ◌>>◌
  >>-Brings hm hk = >>=-Brings _ hm hk

module _ {P R : World → Type 0} where
  pub Leads-Brings : {A : Type 0} {m : M A} {a : A} → Leads P m a R → Brings P m R
  Leads-Brings h = record { at = λ w p. (h.at w p).1 }

  pub ignore-Leads : {m : M (Unit {0})} → Brings P m R → Leads P (ignore m) tt R
  unfolding ignore
  ignore-Leads h = record { at = λ w p. (refl, h.at w p) }

  pub if-Leads :
      {A : Type 0} (b : Bool) {x y : M A} {a : A}
      → Leads P x a R
      → Leads P y a R
      → Leads P (if b then x else y) a R
  if-Leads true hx hy = hx
  if-Leads false hx hy = hy

module _ {P : World → Type 0} where
  pub Triple-Brings : {A : Type 0} {m : M A} → Triple P Any m → Brings P m P
  Triple-Brings h = record { at = λ w p. (h.at w p).0 }

-- From a state where `P` holds, `m` comes to some answer, in a state where `R` holds.
pub record Comes (P : World → Type 0) {A : Type 0} (m : M A) (R : World → Type 0) : Type 0 where
  pub at : (w : World) → P w → (a : A) × (((m w).0 ≡ ok a) × R (m w).1)

module _ {P R : World → Type 0} where
  pub Leads-Comes : {A : Type 0} {m : M A} {a : A} → Leads P m a R → Comes P m R
  Leads-Comes {a = a} h = record { at = λ w p. (a, h.at w p) }

  pub try-Comes : {A : Type 0} {m : M A} → Brings P m R → Comes P (try m) R
  unfolding try
  try-Comes {m = m} h = record { at = λ w p. ((m w).0, (refl, h.at w p)) }

module _ {Q R : World → Type 0} where
  continue-comes :
      {A B : Type 0} (f : A → M B) (r : Result A × World) (a : A)
      → r.0 ≡ ok a
      → Q r.1
      → Comes Q (f a) R
      → (b : B) × (((continue f r).0 ≡ ok b) × R (continue f r).1)
  unfolding continue
  continue-comes {B = B} f (r, w) a e q h =
      subst (λ s. (b : B) × (((continue f (s, w)).0 ≡ ok b) × R (continue f (s, w)).1)) (sym e)
        (h.at w q)

module _ {P Q R : World → Type 0} where
  pub >>=-Comes :
      {A B : Type 0} {m : M A} (f : A → M B)
      → Comes P m Q
      → ((a : A) → Comes Q (f a) R)
      → Comes P (m >>= f) R
  unfolding ◌>>=◌
  >>=-Comes {m = m} f hm hf = record {
    at = λ w p. let r = hm.at w p in continue-comes f (m w) r.0 r.1.0 r.1.1 (hf r.0);
  }

  pub >>-Comes :
      {B : Type 0} {m : M (Unit {0})} {k : M B} → Comes P m Q → Comes Q k R → Comes P (m >> k) R
  unfolding ◌>>◌
  >>-Comes hm hk = >>=-Comes _ hm (λ _. hk)

  -- The first answer is known.
  pub known-Comes :
      {A B : Type 0} {m : M A} (f : A → M B) {a : A}
      → Leads P m a Q
      → Comes Q (f a) R
      → Comes P (m >>= f) R
  unfolding ◌>>=◌
  known-Comes {m = m} f {a = a} hm hf = record {
    at = λ w p. let r = hm.at w p in continue-comes f (m w) a r.0 r.1 hf;
  }

-- From a state where `P` holds, `m` comes to an answer and a state of which `R` holds.
pub record Yields (P : World → Type 0) {A : Type 0} (m : M A) (R : Result A × World → Type 0)
    : Type 0 where
  pub at : (w : World) → P w → R (m w)

module _ {Q : World → Type 0} {B : Type 0} {R : Result B × World → Type 0} where
  continue-yields :
      {A : Type 0} (f : A → M B) (r : Result A × World) (a : A)
      → r.0 ≡ ok a
      → Q r.1
      → Yields Q (f a) R
      → R (continue f r)
  unfolding continue
  continue-yields f (r, w) a e q h = subst (λ s. R (continue f (s, w))) (sym e) (h.at w q)

module _ {P Q : World → Type 0} {B : Type 0} {R : Result B × World → Type 0} where
  pub >>=-Yields :
      {A : Type 0} {m : M A} (f : A → M B) {a : A}
      → Leads P m a Q
      → Yields Q (f a) R
      → Yields P (m >>= f) R
  unfolding ◌>>=◌
  >>=-Yields {m = m} f {a = a} hm hf = record {
    at = λ w p. let r = hm.at w p in continue-yields f (m w) a r.0 r.1 hf;
  }

  pub >>-Yields : {m : M (Unit {0})} {k : M B} → Leads P m tt Q → Yields Q k R → Yields P (m >> k) R
  unfolding ◌>>◌
  >>-Yields hm hk = >>=-Yields _ hm hk
