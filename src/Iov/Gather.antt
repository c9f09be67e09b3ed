-- ===== src/Iov/Gather.antt =====
-- SharedMemClientASync.cpp: what `iov_to_buf` copies, against the flat text of the vector.
use qemu_cvbd_shraed_memory.Common.{
  ℕ, ◌+◌, ◌-◌, ◌≤◌, ◌<◌, min, ◌≡◌, refl, ap, ◌∙◌, List, [], ◌∷◌, ◌++◌, length, take, drop, arith,
  append-nil, append_assoc, length-append, length-drop, take-append, drop-append, take-min,
  take-nil, drop-nil, drop_all, ltb, ◌↔◌, inl, inr, Bool-cases,
}
use qemu_cvbd_shraed_memory.Iov.{Bytes, goes_on, Gathered, iov_to_buf}

-- The bytes of a vector, one entry after the other.
abbrev pub flat : List Bytes → Bytes
flat [] = []
flat (v ∷ iov) = v ++ flat iov

record GatheredAs (iov : List Bytes) (offset m done : ℕ) (out : Bytes) (g : Gathered) : Type 0 where
  bytes : g.out ≡ out ++ take m (drop offset (flat iov))
  count : g.done ≡ done + min m (length (flat iov) - offset)
  left : g.offset ≡ offset - length (flat iov)

-- The bytes that a round copies, and those of the later rounds.
take_round :
    (v w : Bytes) (o m : ℕ)
    → o ≤ length v
    → take (min (length v - o) m) (drop o v) ++ take (m - min (length v - o) m) w
      ≡ take m (drop o (v ++ w))
take_round v w o m h =
    let e : length v - o ≡ length (drop o v) = omega (arith, length-drop o v) in
    let r : m - min (length v - o) m ≡ m - length (drop o v) = omega (arith, length-drop o v) in
    let z : o - length v ≡ 0 = omega arith in
    rw (r, e, take-min (drop o v) m, drop-append o v w, z, take-append m (drop o v) w) refl

skip_round : (v w : Bytes) (o : ℕ) → length v ≤ o → drop (o - length v) w ≡ drop o (v ++ w)
skip_round v w o h = rw (drop-append o v w, drop_all o v h) refl

iov_to_buf-GatheredAs :
    (iov : List Bytes) (offset bytes done : ℕ) (out : Bytes)
    → done ≤ bytes
    → GatheredAs iov offset (bytes - done) done out (iov_to_buf iov offset bytes done out)
unfolding iov_to_buf
iov_to_buf-GatheredAs [] offset bytes done out h = record {
  bytes = rw (drop-nil {A = ℕ} offset, take-nil {A = ℕ} (bytes - done), append-nil) refl;
  count = omega arith;
  left = omega arith;
}
iov_to_buf-GatheredAs (v ∷ iov) offset bytes done out h =
    elim (Bool-cases (goes_on offset done bytes)) [
      | inr stop ↦
          let z : offset ≡ 0 = ground arith in
          let n : bytes - done ≡ 0 = ground arith in
          rw stop (record {
            bytes = rw (n, append-nil) refl;
            count = omega (arith, length-append v (flat iov));
            left = omega (arith, length-append v (flat iov));
          })
      | inl on ↦ rw on (elim (Bool-cases (ltb offset (length v))) [
        | inl inside ↦
            let len = min (length v - offset) (bytes - done) in
            let ih =
              iov_to_buf-GatheredAs iov 0 bytes (done + len) (out ++ take len (drop offset v))
                (omega arith) in
            let k : bytes - (done + len) ≡ bytes - done - len = omega arith in
            let lt : offset < length v = ground arith in
            rw inside (record {
              bytes =
                  ih.bytes
                  ∙ rw (k, append_assoc)
                      (ap (◌++◌ out) (take_round v (flat iov) offset (bytes - done) (omega arith)));
              count = omega (arith, length-append v (flat iov), ih.count);
              left = omega (arith, length-append v (flat iov), ih.left);
            })
        | inr past ↦
            let ih = iov_to_buf-GatheredAs iov (offset - length v) bytes done out h in
            let le : length v ≤ offset = ground arith in
            rw past (record {
              bytes = ih.bytes ∙ rw (skip_round v (flat iov) offset le) refl;
              count = omega (arith, length-append v (flat iov), ih.count);
              left = omega (arith, length-append v (flat iov), ih.left);
            })
      ])
    ]

-- `iov_to_buf`, started with nothing copied, stores the `bytes` bytes of the vector's text from
-- `offset` on, or as many as there are, in order; it returns their number; and its assertion holds
-- exactly when the offset is not past the end of the vector.
pub iov_to_buf_lem :
    (iov : List Bytes) (offset bytes : ℕ)
    → let g = iov_to_buf iov offset bytes 0 [] in
      (g.out ≡ take bytes (drop offset (flat iov)))
      × (g.done ≡ min bytes (length (flat iov) - offset))
      × ((g.offset ≡ 0) ↔ (offset ≤ length (flat iov)))
iov_to_buf_lem iov offset bytes =
    let g = iov_to_buf-GatheredAs iov offset bytes 0 [] (omega arith) in
    let e : bytes - 0 ≡ bytes = omega arith in
    (rw e at g.bytes, omega (arith, g.count), (omega (arith, g.left), omega (arith, g.left)))
