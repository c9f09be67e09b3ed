-- ===== src/System/Flight/Counts.antt =====
-- Counting the messages that name a block, along the queues.
use qemu_cvbd_shraed_memory.Common.Store.{Store, find, update, free}
use qemu_cvbd_shraed_memory.Common.{
  suc, length, refl, some, ℕ, ◌+◌, ◌≡◌, List, [], ◌∷◌, ◌++◌, arith,
}
use qemu_cvbd_shraed_memory.Message.{Request, Reply}
use qemu_cvbd_shraed_memory.System.Flight.{asked, told}

pub asked-append : (ms ns : List Request) (a : ℕ) → asked (ms ++ ns) a ≡ asked ms a + asked ns a
asked-append [] ns a = omega arith
asked-append (m ∷ ms) ns a = omega (arith, asked-append ms ns a)

pub told-append : (ms ns : List Reply) (a : ℕ) → told (ms ++ ns) a ≡ told ms a + told ns a
told-append [] ns a = omega arith
told-append (m ∷ ms) ns a = omega (arith, told-append ms ns a)

module _ {V : Type 0} where
  pub length-update : (a : ℕ) (v : V) (h : Store V) → length (update a v h) ≡ length h
  unfolding update
  length-update a v [] = refl
  length-update a v ((b, w) ∷ h) = ground (arith, length-update a v h)

  pub length-free :
      (a : ℕ) (v : V) (h : Store V) → find a h ≡ some v → suc (length (free a h)) ≡ length h
  unfolding find free
  length-free a v [] e = absurd (cc)
  length-free a v ((b, w) ∷ h) e = ground (arith, length-free a v h)
