-- ===== src/Common/Outcome/Keeps.antt =====
-- Invariants of monadic code: what holds before a call that returns, holds after it.
use qemu_cvbd_shraed_memory.Common.{◌≡◌, refl, subst, Bool, true, false, arith}
use qemu_cvbd_shraed_memory.Common.Outcome.{
  Outcome, ok, thrown, stopped, M, ◌>>=◌, ◌>>◌, pure, assert, branch, terminate,
}

abbrev pub Keeps {κ} : {S A : Type 0} → (S → Type κ) → M S A → Type κ
Keeps {S} {A} P m = (s s' : S) (a : A) → m s ≡ ok a s' → P s → P s'

-- A bind returns only if its parts do.
pub ok-bind :
    {S A B : Type 0} (m : M S A) (f : A → M S B) (s s' : S) (b : B)
    → (m >>= f) s ≡ ok b s'
    → (a : A) × (t : S) × (m s ≡ ok a t) × (f a t ≡ ok b s')
ok-bind {S} {A} {B} m f s s' b = go (m s)
  where
    go :
        (o : Outcome S A)
        → ((λ (_ : S). o) >>= f) s ≡ ok b s'
        → (a : A) × (t : S) × (o ≡ ok a t) × (f a t ≡ ok b s')
    go (ok a t) e = (a, t, refl, e)
    go (thrown t) e = absurd (cc)
    go (stopped x) e = absurd (cc)

pub ok-then :
    {S B : Type 0} (m : M S (Unit {0})) (k : M S B) (s s' : S) (b : B)
    → (m >> k) s ≡ ok b s'
    → (t : S) × (m s ≡ ok tt t) × (k t ≡ ok b s')
ok-then {S} {B} m k s s' b = go (m s)
  where
    go :
        (o : Outcome S (Unit {0}))
        → ((λ (_ : S). o) >> k) s ≡ ok b s'
        → (t : S) × (o ≡ ok tt t) × (k t ≡ ok b s')
    go (ok tt t) e = (t, refl, e)
    go (thrown t) e = absurd (cc)
    go (stopped x) e = absurd (cc)

pub ok-state : {S A : Type 0} (a b : A) (s s' : S) → ok a s ≡ ok b s' → s ≡ s'
ok-state a b s s' e = cc

pub ok-value : {S A : Type 0} (a b : A) (s s' : S) → ok a s ≡ ok b s' → a ≡ b
ok-value a b s s' e = cc

module _ {κ} {S : Type 0} (P : S → Type κ) where
  pub Keeps->>= :
      {A B : Type 0} (m : M S A) (f : A → M S B)
      → Keeps P m
      → ((a : A) → Keeps P (f a))
      → Keeps P (m >>= f)
  Keeps->>= m f hm hf s s' b e p =
      let (a, t, em, ef) = ok-bind m f s s' b e in hf a t s' b ef (hm s t a em p)

  pub Keeps->> :
      {B : Type 0} (m : M S (Unit {0})) (k : M S B) → Keeps P m → Keeps P k → Keeps P (m >> k)
  Keeps->> m k hm hk s s' b e p =
      let (t, em, ek) = ok-then m k s s' b e in hk t s' b ek (hm s t tt em p)

  pub Keeps-branch :
      {A : Type 0} (c : Bool) (m k : M S A) → Keeps P m → Keeps P k → Keeps P (branch c m k)
  Keeps-branch true m k hm hk = hm
  Keeps-branch false m k hm hk = hk

  pub Keeps-pure : {A : Type 0} (a : A) → Keeps P (pure a)
  Keeps-pure a s s' b e p = subst P (ok-state a b s s' e) p

  pub Keeps-assert : (c : Bool) → Keeps P (assert c)
  Keeps-assert true s s' b e p = subst P (ok-state tt b s s' e) p
  Keeps-assert false s s' b e p = absurd (cc)

  pub Keeps-terminate : {A : Type 0} (m : M S A) → Keeps P m → Keeps P (terminate m)
  Keeps-terminate m hm s s' b e = hm s s' b (ground arith)
