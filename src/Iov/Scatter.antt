-- ===== src/Iov/Scatter.antt =====
-- SharedMemClientASync.cpp: what `iov_from_buf` stores, against the flat text of the vector.
use native.Mathlib.Nat.{suc-min-suc}
use qemu_cvbd_shraed_memory.Common.{
  ℕ, zero, suc, ◌+◌, ◌-◌, ◌≤◌, ◌<◌, min, ◌≡◌, refl, sym, ap, ap₂, ◌∙◌, List, [], ◌∷◌, ◌++◌, map,
  length, take, drop, arith, append_assoc, length-append, length-take, length-drop, take-append,
  drop-append, drop-take, drop-drop, take-nil, drop-nil, drop_all, take_all, ltb, ◌↔◌, inl, inr,
  Bool-cases, dec_lt, append-nil,
}
use qemu_cvbd_shraed_memory.Iov.{Bytes, goes_on, overwrite, Scattered, iov_from_buf, iov_to_buf}
use qemu_cvbd_shraed_memory.Iov.Gather.{flat, iov_to_buf_lem}

-- `dst` with `src` written over its first bytes, cut where `dst` ends.
abbrev pub copy : Bytes → Bytes → Bytes
copy [] src = []
copy (x ∷ dst) [] = x ∷ dst
copy (x ∷ dst) (y ∷ src) = y ∷ copy dst src

copy-nil : (dst : Bytes) → copy dst [] ≡ dst
copy-nil [] = refl
copy-nil (x ∷ dst) = refl

pub length-copy : (dst src : Bytes) → length (copy dst src) ≡ length dst
length-copy [] src = refl
length-copy (x ∷ dst) [] = refl
length-copy (x ∷ dst) (y ∷ src) = ap suc (length-copy dst src)

copy-append : (v w src : Bytes) → copy (v ++ w) src ≡ copy v src ++ copy w (drop (length v) src)
copy-append [] w src = refl
copy-append (x ∷ v) w [] = ap (λ t. x ∷ (v ++ t)) (sym (copy-nil w))
copy-append (x ∷ v) w (y ∷ src) = ap (◌∷◌ y) (copy-append v w src)

-- The first `m` bytes of `copy`, and a `src` that fits.
take-copy : (dst src : Bytes) → length src ≤ length dst → take (length src) (copy dst src) ≡ src
take-copy [] [] h = refl
take-copy [] (y ∷ src) h = absurd (omega arith)
take-copy (x ∷ dst) [] h = refl
take-copy (x ∷ dst) (y ∷ src) h = ap (◌∷◌ y) (take-copy dst src (omega arith))

overwrite-copy :
    (v src : Bytes) (m : ℕ)
    → m ≤ length src
    → take (min (length v) m) src ++ drop (length (take (min (length v) m) src)) v
      ≡ copy v (take m src)
overwrite-copy [] src m h = let z : min 0 m ≡ 0 = omega arith in rw z refl
overwrite-copy (x ∷ v) src zero h = let z : min (suc (length v)) 0 ≡ 0 = omega arith in rw z refl
overwrite-copy (x ∷ v) [] (suc m) h = absurd (omega arith)
overwrite-copy (x ∷ v) (y ∷ src) (suc m) h =
    rw (suc-min-suc (length v) m) (ap (◌∷◌ y) (overwrite-copy v src m (omega arith)))

-- The bytes that later rounds find in `buf`, from the round that fills an entry of `k` bytes.
rest_round :
    (buf : Bytes) (k bytes done : ℕ)
    → done ≤ bytes
    → take (bytes - (done + min k (bytes - done))) (drop (done + min k (bytes - done)) buf)
      ≡ drop k (take (bytes - done) (drop done buf))
rest_round buf k bytes done h = elim (dec_lt (bytes - done) k) [
  | yes short ↦
      let a : bytes - (done + min k (bytes - done)) ≡ 0 = omega arith in
      let b : bytes - done - k ≡ 0 = omega arith in
      rw (a, drop-take k (bytes - done) (drop done buf), b) refl
  | no long ↦
      let a : min k (bytes - done) ≡ k = omega arith in
      let b : bytes - (done + k) ≡ bytes - done - k = omega arith in
      rw (a, b, drop-take k (bytes - done) (drop done buf), drop-drop done k buf) refl
]

entry_round :
    (v src : Bytes) (o m : ℕ)
    → o ≤ length v
    → m ≤ length src
    → overwrite v o (take (min (length v - o) m) src) ≡ take o v ++ copy (drop o v) (take m src)
entry_round v src o m h k =
    let e : length v - o ≡ length (drop o v) = omega (arith, length-drop o v) in
    rw (e, ← drop-drop o (length (take (min (length (drop o v)) m) src)) v)
      (ap (◌++◌ (take o v)) (overwrite-copy (drop o v) src m k))

-- `copy` from `offset` on.
abbrev pub copy_at : ℕ → Bytes → Bytes → Bytes
copy_at o dst src = take o dst ++ copy (drop o dst) src

copy_at-inside :
    (v w src : Bytes) (o : ℕ)
    → o ≤ length v
    → copy_at o (v ++ w) src ≡ copy_at o v src ++ copy w (drop (length v - o) src)
copy_at-inside v w src o h =
    let z : o - length v ≡ 0 = omega arith in
    rw
      (
        take-append o v w,
        drop-append o v w,
        z,
        append-nil,
        copy-append (drop o v) w src,
        length-drop o v,
        append_assoc,
      )
      refl

copy_at-past :
    (v w src : Bytes) (o : ℕ)
    → length v ≤ o
    → copy_at o (v ++ w) src ≡ v ++ copy_at (o - length v) w src
copy_at-past v w src o h =
    rw (take-append o v w, drop-append o v w, drop_all o v h, take_all o v h, append_assoc) refl

-- The text of an entry that a round fills, before the text of the rest.
entry_text :
    (v w buf : Bytes) (o bytes done : ℕ)
    → o ≤ length v
    → done ≤ bytes
    → bytes ≤ length buf
    → let len = min (length v - o) (bytes - done) in
      overwrite v o (take len (drop done buf))
        ++ copy w (take (bytes - (done + len)) (drop (done + len) buf))
      ≡ copy_at o (v ++ w) (take (bytes - done) (drop done buf))
entry_text v w buf o bytes done h d k =
    rw
      (
        entry_round v (drop done buf) o (bytes - done) h (omega (arith, length-drop done buf)),
        rest_round buf (length v - o) bytes done d,
      )
      (sym (copy_at-inside v w (take (bytes - done) (drop done buf)) o h))

length-overwrite :
    (v new : Bytes) (o : ℕ) → o + length new ≤ length v → length (overwrite v o new) ≡ length v
length-overwrite v new o h = omega (
  arith,
  length-append (take o v) (new ++ drop (o + length new) v),
  length-append new (drop (o + length new) v),
  length-take o v,
  length-drop (o + length new) v,
)

record ScatteredAs (iov : List Bytes) (offset : ℕ) (src : Bytes) (r : Scattered) : Type 0 where
  text : flat r.iov ≡ copy_at offset (flat iov) src
  shape : map length r.iov ≡ map length iov
  left : r.offset ≡ offset - length (flat iov)

iov_from_buf-ScatteredAs :
    (iov : List Bytes) (offset : ℕ) (buf : Bytes) (bytes done : ℕ)
    → done ≤ bytes
    → bytes ≤ length buf
    → ScatteredAs iov offset
        (take (bytes - done) (drop done buf))
        (iov_from_buf iov offset buf bytes done)
unfolding iov_from_buf
iov_from_buf-ScatteredAs [] offset buf bytes done h k = record {
  text = rw (take-nil {A = ℕ} offset, drop-nil {A = ℕ} offset) refl;
  shape = refl;
  left = omega arith;
}
iov_from_buf-ScatteredAs (v ∷ iov) offset buf bytes done h k =
    elim (Bool-cases (goes_on offset done bytes)) [
      | inr stop ↦
          let z : offset ≡ 0 = ground arith in
          let n : bytes - done ≡ 0 = ground arith in
          rw stop (record {
            text = rw (z, n) (sym (copy-nil (v ++ flat iov)));
            shape = refl;
            left = omega (arith, length-append v (flat iov));
          })
      | inl on ↦ rw on (elim (Bool-cases (ltb offset (length v))) [
        | inl inside ↦
            let len = min (length v - offset) (bytes - done) in
            let ih = iov_from_buf-ScatteredAs iov 0 buf bytes (done + len) (omega arith) k in
            let lt : offset < length v = ground arith in
            rw inside (record {
              text =
                  ap (◌++◌ (overwrite v offset (take len (drop done buf)))) ih.text
                  ∙ entry_text v (flat iov) buf offset bytes done (omega arith) h k;
              shape =
                  ap₂ ◌∷◌
                    (length-overwrite v (take len (drop done buf)) offset
                      (omega (arith, length-take len (drop done buf))))
                    ih.shape;
              left = omega (arith, length-append v (flat iov), ih.left);
            })
        | inr past ↦
            let ih = iov_from_buf-ScatteredAs iov (offset - length v) buf bytes done h k in
            let le : length v ≤ offset = ground arith in
            rw past (record {
              text = ap (◌++◌ v) ih.text ∙ sym (copy_at-past v (flat iov) _ offset le);
              shape = ap (◌∷◌ (length v)) ih.shape;
              left = omega (arith, length-append v (flat iov), ih.left);
            })
      ])
    ]

-- `iov_from_buf`, started with nothing copied on a buffer that holds `bytes` bytes, writes those
-- bytes over the vector's text from `offset` on, cut at the end of the vector; it changes no other
-- byte and the length of no entry; and its assertion holds exactly when the offset is not past the
-- end of the vector.
pub iov_from_buf_lem :
    (iov : List Bytes) (offset : ℕ) (buf : Bytes) (bytes : ℕ)
    → bytes ≤ length buf
    → let r = iov_from_buf iov offset buf bytes 0 in
      (flat r.iov ≡ copy_at offset (flat iov) (take bytes buf))
      × (map length r.iov ≡ map length iov)
      × ((r.offset ≡ 0) ↔ (offset ≤ length (flat iov)))
iov_from_buf_lem iov offset buf bytes h =
    let r = iov_from_buf-ScatteredAs iov offset buf bytes 0 (omega arith) h in
    let e : bytes - 0 ≡ bytes = omega arith in
    (rw e at r.text, r.shape, (omega (arith, r.left), omega (arith, r.left)))

-- What `iov_from_buf` scatters from a buffer that holds as many bytes, over a vector with room for
-- them, `iov_to_buf` gathers again.
pub to_buf-from_buf :
    (iov : List Bytes) (buf : Bytes) (bytes : ℕ)
    → bytes ≤ length buf
    → bytes ≤ length (flat iov)
    → (iov_to_buf (iov_from_buf iov 0 buf bytes 0).iov 0 bytes 0 []).out ≡ take bytes buf
to_buf-from_buf iov buf bytes h k =
    let src = take bytes buf in
    let n : length src ≡ bytes = omega (arith, length-take bytes buf) in
    (iov_to_buf_lem (iov_from_buf iov 0 buf bytes 0).iov 0 bytes).0
    ∙ ap (take bytes) (iov_from_buf_lem iov 0 buf bytes h).0
    ∙ ap (λ m. take m (copy (flat iov) src)) (sym n)
    ∙ take-copy (flat iov) src (omega arith)

-- `copy` of a whole list over another of its length.
pub copy_all : (dst src : Bytes) → length src ≡ length dst → copy dst src ≡ src
copy_all [] [] h = refl
copy_all [] (y ∷ src) h = absurd (omega arith)
copy_all (x ∷ dst) [] h = absurd (omega arith)
copy_all (x ∷ dst) (y ∷ src) h = ap (◌∷◌ y) (copy_all dst src (omega arith))
