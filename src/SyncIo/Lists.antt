-- ===== src/SyncIo/Lists.antt =====
-- cvbd_syncio.c: copies in pieces against one copy.
use qemu_cvbd_shraed_memory.Common.{
  ℕ, zero, suc, ◌+◌, ◌-◌, ◌≤◌, ◌≡◌, refl, sym, ap, ◌∙◌, [], ◌∷◌, ◌++◌, length, take, drop, arith,
  length-take, length-append, length-drop, take-append-drop, take-append, take_all, append-nil,
  append_assoc, drop-drop, drop-append, drop_all,
}
use qemu_cvbd_shraed_memory.Iov.{Bytes, overwrite}

pub length-overwrite :
    (v new : Bytes) (o : ℕ) → o + length new ≤ length v → length (overwrite v o new) ≡ length v
length-overwrite v new o h = omega (
  arith,
  length-append (take o v) (new ++ drop (o + length new) v),
  length-append new (drop (o + length new) v),
  length-take o v,
  length-drop (o + length new) v,
)

-- A copy of the first `n` bytes, and then of the rest behind them.
pub overwrite-overwrite :
    (v new : Bytes) (o n : ℕ)
    → n ≤ length new
    → o + length new ≤ length v
    → overwrite (overwrite v o (take n new)) (o + n) (drop n new) ≡ overwrite v o new
overwrite-overwrite v new o n h k =
    let first = take n new in
    let rest = drop (o + length first) v in
    let l1 : length (take o v) ≡ o = omega (arith, length-take o v) in
    let l2 : length first ≡ n = omega (arith, length-take n new) in
    let l3 : length (drop n new) ≡ length new - n = omega (arith, length-drop n new) in
    let z1 : o + n - length (take o v) ≡ n = omega arith in
    let z2 : n - length first ≡ 0 = omega arith in
    let head : take (o + n) (overwrite v o first) ≡ take o v ++ first =
      rw
        (
          take-append (o + n) (take o v) (first ++ rest),
          take_all (o + n) (take o v) (omega arith),
          z1,
          take-append n first rest,
          take_all n first (omega arith),
          z2,
          append-nil,
        )
        refl in
    let m = o + n + length (drop n new) in
    let y1 : m - length (take o v) ≡ length new = omega arith in
    let y2 : length new - length first ≡ length new - n = omega arith in
    let y3 : o + length first + (length new - n) ≡ o + length new = omega arith in
    let tail : drop m (overwrite v o first) ≡ drop (o + length new) v =
      rw
        (
          drop-append m (take o v) (first ++ rest),
          drop_all m (take o v) (omega arith),
          y1,
          drop-append (length new) first rest,
          drop_all (length new) first (omega arith),
          y2,
          drop-drop (o + length first) (length new - n) v,
          y3,
        )
        refl in
    let last = drop (o + length new) v in
    rw (head, tail)
      (append_assoc (take o v) first (drop n new ++ last)
        ∙ ap (λ xs. take o v ++ xs)
            (sym (append_assoc first (drop n new) last)
              ∙ ap (λ xs. xs ++ last) (take-append-drop n new)))

pub overwrite_nothing : (v new : Bytes) (o : ℕ) → length new ≡ 0 → overwrite v o new ≡ v
overwrite_nothing v [] o e = let z : o + 0 ≡ o = omega arith in rw z (take-append-drop o v)
overwrite_nothing v (x ∷ new) o e = absurd (omega arith)

pub take-take : (n m : ℕ) (xs : Bytes) → n ≤ m → take n (take m xs) ≡ take n xs
take-take zero m xs h = refl
take-take (suc n) zero xs h = absurd (omega arith)
take-take (suc n) (suc m) [] h = refl
take-take (suc n) (suc m) (x ∷ xs) h = ap (◌∷◌ x) (take-take n m xs (omega arith))

pub copy_over : (v new : Bytes) → length new ≡ length v → overwrite v 0 new ≡ new
copy_over v new e = rw (drop_all (0 + length new) v (omega arith)) (append-nil new)
