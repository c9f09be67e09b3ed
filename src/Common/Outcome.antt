-- ===== src/Common/Outcome.antt =====
-- How a call ends, in programs with assertions, pointers, blocking calls and exceptions.
pub mod Keeps
use qemu_cvbd_shraed_memory.Common.{ℕ, Bool, true, false, Option, none, some, ◌≡◌, refl}

-- The ends from which nothing goes on: a failed assertion or an uncaught exception, undefined
-- behaviour (a null or dangling pointer, an access outside an array), a wait that nothing ends.
pub data Stop : Type 0 where
  aborted crashed blocked : Stop

-- An exception leaves the state as it was when it was thrown.
pub data Outcome (S A : Type 0) : Type 0 where
  ok : A → S → Outcome S A
  thrown : S → Outcome S A
  stopped : Stop → Outcome S A

abbrev pub M : Type 0 → Type 0 → Type 0
M S A = S → Outcome S A

infixl 5 ◌>>=◌ ◌>>◌
abbrev pub ◌>>=◌ : {S A B : Type 0} → M S A → (A → M S B) → M S B
◌>>=◌ m f s = elim (m s) [ ok a s' ↦ f a s' | thrown s' ↦ thrown s' | stopped e ↦ stopped e ]

abbrev pub ◌>>◌ : {S B : Type 0} → M S (Unit {0}) → M S B → M S B
◌>>◌ m k s = elim (m s) [ ok _ s' ↦ k s' | thrown s' ↦ thrown s' | stopped e ↦ stopped e ]

abbrev pub pure : {S A : Type 0} → A → M S A
pure a s = ok a s

abbrev pub get : {S : Type 0} → M S S
get s = ok s s

abbrev pub put : {S : Type 0} → S → M S (Unit {0})
put s _ = ok tt s

abbrev pub stop : {S A : Type 0} → Stop → M S A
stop e s = stopped e

abbrev pub throw : {S A : Type 0} → M S A
throw s = thrown s

-- `assert(b)`.
abbrev pub assert : {S : Type 0} → Bool → M S (Unit {0})
assert true s = ok tt s
assert false s = stopped aborted

-- `try { m } catch (...) { return a; }`.
abbrev pub catch : {S A : Type 0} → M S A → A → M S A
catch m a s = elim (m s) [ ok b s' ↦ ok b s' | thrown s' ↦ ok a s' | stopped e ↦ stopped e ]

-- `if (b) m else k`.
abbrev pub branch : {S A : Type 0} → Bool → M S A → M S A → M S A
branch true m k s = m s
branch false m k s = k s

-- A thread's function: an exception that leaves it ends the process.
abbrev pub terminate : {S A : Type 0} → M S A → M S A
terminate m s = elim (m s) [
  | ok a s' ↦ ok a s'
  | thrown s' ↦ stopped aborted
  | stopped e ↦ stopped e
]
