-- ===== src/Chunk/Partition.antt =====
-- NonAlignedCopy.h: the pieces that the iterator yields for a request with no negative number.
use native.Mathlib.Nat.{div-add-mod, mod-lt, div-eq_of_lt, add-mul-div_left, mul-mod_right}
use qemu_cvbd_shraed_memory.Common.{
  ℕ, zero, suc, ◌+◌, ◌-◌, ◌*◌, ◌%◌, ◌/◌, ◌≤◌, ◌<◌, min, ◌≡◌, refl, ◌⊎◌, inl, inr, true, false, List,
  [], ◌∷◌, arith, ltb, dec_lt,
}
use qemu_cvbd_shraed_memory.Common.Int.{pos, ◌+ℤ◌, ◌-ℤ◌, rem}
use qemu_cvbd_shraed_memory.Chunk.{
  NonAlignedCopy, Piece, init, is_valid, remaining, available, next, pieces,
}

-- An iterator over natural numbers.
abbrev pub at : ℕ → ℕ → ℕ → ℕ → NonAlignedCopy
at s l b c = record { start = pos s; len = pos l; block_size = pos b; cur = pos c }

abbrev pub span : ℕ → ℕ → ℕ → ℕ → ℕ
span s l b c = min (b - c % b) (s + l - c)

abbrev pub piece : ℕ → ℕ → Piece
piece o n = record { offset = pos o; size = pos n }

pub is_valid-at : (s l b c : ℕ) → is_valid (at s l b c) ≡ ltb c (s + l)
unfolding is_valid ◌+ℤ◌ ◌-ℤ◌
is_valid-at s l b c = ground arith

pub remaining-at : (s l b c : ℕ) → c ≤ s + l → remaining (at s l b c) ≡ pos (s + l - c)
unfolding remaining ◌+ℤ◌ ◌-ℤ◌
remaining-at s l b c h = ground arith

pub available-at : (s l b c : ℕ) → 0 < b → available (at s l b c) ≡ pos (b - c % b)
unfolding available ◌+ℤ◌ ◌-ℤ◌ rem
available-at s l b c h = ground arith

pub next-at :
    (s l b c : ℕ)
    → 0 < b
    → c ≤ s + l
    → next (at s l b c) ≡ (at s l b (c + span s l b c), piece c (span s l b c))
unfolding next ◌+ℤ◌
next-at s l b c h k = ground (arith, remaining-at s l b c, available-at s l b c)

-- The pieces lie end to end from `lo` to `hi`, and none is empty.
abbrev pub Tiles : ℕ → ℕ → List Piece → Type 0
Tiles lo hi [] = lo ≡ hi
Tiles lo hi (p ∷ ps) = (n : ℕ) × (p ≡ piece lo n) × (0 < n) × Tiles (lo + n) hi ps

-- A piece stays inside one block of `b` bytes, and ends where the block or the request ends.
abbrev pub Fits : ℕ → ℕ → ℕ → ℕ → Type 0
Fits b hi o n = (n ≤ b) × (o / b ≡ (o + n - 1) / b) × (((o + n) % b ≡ 0) ⊎ (o + n ≡ hi))

abbrev pub AllFit : ℕ → ℕ → List Piece → Type 0
AllFit b hi [] = Unit {0}
AllFit b hi (p ∷ ps) = ((o : ℕ) × (n : ℕ) × (p ≡ piece o n) × Fits b hi o n) × AllFit b hi ps

pub span_pos : (s l b c : ℕ) → 0 < b → c < s + l → 0 < span s l b c
span_pos s l b c h k = grind arith

pub span_le : (s l b c : ℕ) → 0 < b → c ≤ s + l → c + span s l b c ≤ s + l
span_le s l b c h k = grind arith

pub pieces-step :
    (f s l b c : ℕ)
    → 0 < b
    → c < s + l
    → pieces (suc f) (at s l b c) ≡ piece c (span s l b c) ∷ pieces f (at s l b (c + span s l b c))
unfolding pieces
pieces-step f s l b c h k =
    let valid : is_valid (at s l b c) ≡ true = ground (arith, is_valid-at s l b c) in
    rw (valid, pieces) (rw (next-at s l b c h (omega arith)) refl)

pub pieces-stop : (f s l b c : ℕ) → s + l ≤ c → pieces f (at s l b c) ≡ []
unfolding pieces
pieces-stop zero s l b c k = refl
pieces-stop (suc f) s l b c k =
    let over : is_valid (at s l b c) ≡ false = ground (arith, is_valid-at s l b c) in
    rw (over, pieces) refl

Tiles-from :
    (f s l b c : ℕ) → 0 < b → c ≤ s + l → s + l - c ≤ f → Tiles c (s + l) (pieces f (at s l b c))
Tiles-from zero s l b c h k m = rw (pieces-stop zero s l b c (omega arith)) (omega arith)
Tiles-from (suc f) s l b c h k m = elim (dec_lt c (s + l)) [
  | yes more ↦ rw (pieces-step f s l b c h more) (
    span s l b c,
    refl,
    span_pos s l b c h more,
    Tiles-from f s l b (c + span s l b c) h (span_le s l b c h k)
        (omega (arith, span_pos s l b c h more)),
  )
  | no none_left ↦ rw (pieces-stop (suc f) s l b c (omega arith)) (omega arith)
]

module _ (b c : ℕ) (h : 0 < b) where
  same_block : (n : ℕ) → 0 < n → n ≤ b - c % b → c / b ≡ (c + n - 1) / b
  same_block n k m =
      let e : c + n - 1 ≡ c % b + n - 1 + b * (c / b) =
        omega (arith, div-add-mod c b, mod-lt c h) in
      let small : (c % b + n - 1) / b ≡ 0 = div-eq_of_lt (omega (arith, mod-lt c h)) in
      rw (e, add-mul-div_left (c % b + n - 1) (c / b) h, small) (omega arith)

  next_block : (c + (b - c % b)) % b ≡ 0
  next_block =
      let e : c + (b - c % b) ≡ b * (c / b + 1) = grind (arith, div-add-mod c b, mod-lt c h) in
      rw (e, mul-mod_right) refl

  span-Fits : (s l : ℕ) → c < s + l → Fits b (s + l) c (span s l b c)
  span-Fits s l k = (
    grind arith,
    same_block (span s l b c) (span_pos s l b c h k) (omega arith),
    elim (dec_lt (s + l - c) (b - c % b)) [
      | yes last ↦ inr (omega arith)
      | no full ↦ let e : span s l b c ≡ b - c % b = omega arith in rw e (inl next_block)
    ],
  )

AllFit-from :
    (f s l b c : ℕ) → 0 < b → c ≤ s + l → s + l - c ≤ f → AllFit b (s + l) (pieces f (at s l b c))
AllFit-from zero s l b c h k m = rw (pieces-stop zero s l b c (omega arith)) tt
AllFit-from (suc f) s l b c h k m = elim (dec_lt c (s + l)) [
  | yes more ↦ rw (pieces-step f s l b c h more) (
    (c, span s l b c, refl, span-Fits b c h s l more),
    AllFit-from f s l b (c + span s l b c) h (span_le s l b c h k)
        (omega (arith, span_pos s l b c h more)),
  )
  | no none_left ↦ rw (pieces-stop (suc f) s l b c (omega arith)) tt
]

-- For a request of `l` bytes at offset `s`, in blocks of `b > 0` bytes, the loop ends within `l`
-- rounds; its pieces are not empty and lie end to end from `s` to `s + l`, each of them inside one
-- block and reaching to the end of that block or of the request.
pub pieces_cover :
    (f s l b : ℕ)
    → 0 < b
    → l ≤ f
    → let ps = pieces f (init (pos s) (pos l) (pos b)) in Tiles s (s + l) ps × AllFit b (s + l) ps
unfolding init
pieces_cover f s l b h m = (
  Tiles-from f s l b s h (omega arith) (omega arith),
  AllFit-from f s l b s h (omega arith) (omega arith),
)
