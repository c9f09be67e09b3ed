-- ===== src/Common/Store.antt =====
-- Objects by address: what `new` or an allocator made and nobody has freed.
use qemu_cvbd_shraed_memory.Common.{
  ℕ, ◌≡◌, ◌≢◌, refl, Option, none, some, List, [], ◌∷◌, map, arith, ◌==◌, if◌then◌else◌,
}

abbrev pub Store : Type 0 → Type 0
Store V = List (ℕ × V)

abbrev pub addresses : {V : Type 0} → Store V → List ℕ
addresses = map (λ p. p.0)

module _ {V : Type 0} where
  unfoldable pub find : ℕ → Store V → Option V
  find a [] = none
  find a ((b, v) ∷ h) = if b == a then some v else find a h

  -- A write to a live object; one to another address changes nothing.
  unfoldable pub update : ℕ → V → Store V → Store V
  update a v [] = []
  update a v ((b, w) ∷ h) = if b == a then (b, v) ∷ h else (b, w) ∷ update a v h

  unfoldable pub free : ℕ → Store V → Store V
  free a [] = []
  free a ((b, v) ∷ h) = if b == a then h else (b, v) ∷ free a h

  pub find-update :
      (a c : ℕ) (v w : V) (h : Store V)
      → find a h ≡ some w
      → find c (update a v h) ≡ (if a == c then some v else find c h)
  unfolding find update
  find-update a c v w [] e = absurd (cc)
  find-update a c v w ((b, x) ∷ h) e = ground (arith, find-update a c v w h)

  pub find-cons_self : (a : ℕ) (v : V) (h : Store V) → find a ((a, v) ∷ h) ≡ some v
  unfolding find
  find-cons_self a v h = ground arith

  pub free-cons_self : (a : ℕ) (v : V) (h : Store V) → free a ((a, v) ∷ h) ≡ h
  unfolding free
  free-cons_self a v h = ground arith

  pub update-update : (a : ℕ) (v w : V) (h : Store V) → update a v (update a w h) ≡ update a v h
  unfolding update
  update-update a v w [] = refl
  update-update a v w ((b, x) ∷ h) = ground (arith, update-update a v w h)

  pub free-update : (a : ℕ) (v : V) (h : Store V) → free a (update a v h) ≡ free a h
  unfolding free update
  free-update a v [] = refl
  free-update a v ((b, x) ∷ h) = ground (arith, free-update a v h)

  pub update-cons_self : (a : ℕ) (v w : V) (h : Store V) → update a v ((a, w) ∷ h) ≡ (a, v) ∷ h
  unfolding update
  update-cons_self a v w h = ground arith

-- An address that is not in use.
abbrev pub Fresh : ℕ → List ℕ → Type 0
Fresh a [] = Unit {0}
Fresh a (b ∷ used) = (b ≢ a) × Fresh a used

module _ {V : Type 0} where
  -- No two objects share an address.
  abbrev pub Distinct : Store V → Type 0
  Distinct [] = Unit {0}
  Distinct ((a, v) ∷ h) = (find a h ≡ none) × Distinct h

  pub find-cons :
      (a c : ℕ) (v : V) (h : Store V) → find c ((a, v) ∷ h) ≡ (if a == c then some v else find c h)
  unfolding find
  find-cons a c v h = refl

  pub find-Fresh : (a : ℕ) (h : Store V) → Fresh a (addresses h) → find a h ≡ none
  unfolding find
  find-Fresh a [] n = refl
  find-Fresh a ((b, v) ∷ h) n = ground (arith, find-Fresh a h n.1)

  pub find-free :
      (a c : ℕ) (h : Store V) → Distinct h → find c (free a h) ≡ (if a == c then none else find c h)
  unfolding find free
  find-free a c [] d = ground arith
  find-free a c ((b, v) ∷ h) d = ground (arith, find-free a c h d.1)

  find-update-none :
      (a c : ℕ) (v : V) (h : Store V) → find c h ≡ none → find c (update a v h) ≡ none
  unfolding find update
  find-update-none a c v [] e = refl
  find-update-none a c v ((b, w) ∷ h) e = ground (arith, find-update-none a c v h)

  find-free-none : (a c : ℕ) (h : Store V) → find c h ≡ none → find c (free a h) ≡ none
  unfolding find free
  find-free-none a c [] e = refl
  find-free-none a c ((b, w) ∷ h) e = ground (arith, find-free-none a c h)

  pub Distinct-update : (a : ℕ) (v : V) (h : Store V) → Distinct h → Distinct (update a v h)
  unfolding update
  Distinct-update a v [] d = tt
  Distinct-update a v ((b, w) ∷ h) d =
      ground (arith, Distinct-update a v h d.1, find-update-none a b v h d.0)

  pub Distinct-free : (a : ℕ) (h : Store V) → Distinct h → Distinct (free a h)
  unfolding free
  Distinct-free a [] d = tt
  Distinct-free a ((b, w) ∷ h) d = ground (arith, Distinct-free a h d.1, find-free-none a b h d.0)
