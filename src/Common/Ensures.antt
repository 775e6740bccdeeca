-- ===== src/Common/Ensures.antt =====
-- What holds of the value that a Go function ends with.
use mathlib.Core.Path.{◌≡◌, refl, subst}
use mathlib.Core.Option.{Option, none, some}
use lsm_tree_go.Common.Outcome.{Error, Outcome, ok, fail, panic, or_panic, on_fail, ◌>>=◌}

module _ {ℓ κ} {A : Type ℓ} where
  abbrev pub Ensures : (A → Type κ) → Outcome A → Type κ
  Ensures P (ok a) = P a
  Ensures P (fail e) = Unit {κ}
  Ensures P panic = Unit {κ}

  pub Ensures-or_panic :
      (P : A → Type κ) (o : Option A) → ((a : A) → o ≡ some a → P a) → Ensures P (or_panic o)
  Ensures-or_panic P none h = tt
  Ensures-or_panic P (some a) h = h a refl

module _ {ℓ μ κ} {A : Type ℓ} {B : Type μ} (Q : A → Type κ) (P : B → Type κ) where
  pub Ensures->>= :
      (r : Outcome A) (f : A → Outcome B)
      → Ensures Q r
      → ((a : A) → Q a → Ensures P (f a))
      → Ensures P (r >>= f)
  Ensures->>= (ok a) f q h = h a q
  Ensures->>= (fail e) f q h = tt
  Ensures->>= panic f q h = tt

  pub Ensures-on_fail :
      (r : Outcome A) (handle : Error → Outcome B) (f : A → Outcome B)
      → Ensures Q r
      → ((e : Error) → Ensures P (handle e))
      → ((a : A) → Q a → Ensures P (f a))
      → Ensures P (on_fail r handle f)
  Ensures-on_fail (ok a) handle f q g h = h a q
  Ensures-on_fail (fail e) handle f q g h = g e
  Ensures-on_fail panic handle f q g h = tt

module _ {ℓ} {A : Type ℓ} where
  pub Ensures-any : (r : Outcome A) → Ensures (λ a. Unit {0}) r
  Ensures-any (ok a) = tt
  Ensures-any (fail e) = tt
  Ensures-any panic = tt

-- What comes after a call counts only for the values that the call can give.
module _ {ℓ μ κ} {A : Type ℓ} {B : Type μ} (Q : A → Type κ) where
  pub >>=-congr :
      (r : Outcome A) (f g : A → Outcome B)
      → Ensures Q r
      → ((a : A) → Q a → f a ≡ g a)
      → (r >>= f) ≡ (r >>= g)
  >>=-congr (ok a) f g q h = h a q
  >>=-congr (fail e) f g q h = refl
  >>=-congr panic f g q h = refl

  pub on_fail-congr :
      (r : Outcome A) (handle : Error → Outcome B) (f g : A → Outcome B)
      → Ensures Q r
      → ((a : A) → Q a → f a ≡ g a)
      → on_fail r handle f ≡ on_fail r handle g
  on_fail-congr (ok a) handle f g q h = h a q
  on_fail-congr (fail e) handle f g q h = refl
  on_fail-congr panic handle f g q h = refl

pub Ensures-ok {ℓ κ} :
    {A : Type ℓ} (P : A → Type κ) (r : Outcome A) (a : A) → r ≡ ok a → Ensures P r → P a
Ensures-ok P r a e h = subst (λ s. Ensures P s) e h
