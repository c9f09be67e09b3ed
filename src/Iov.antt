-- ===== src/Iov.antt =====
-- SharedMemClientASync.cpp: `iov_to_buf` and `iov_from_buf`, copies between a scattered I/O vector
-- and a flat buffer. An `iovec` is the bytes that `iov_base` points at, as many as `iov_len`; the
-- buffers do not overlap, and the list is the `iov_cnt` entries that the loops may visit.
pub mod Gather
pub mod Scatter
mod Tests
use qemu_cvbd_shraed_memory.Common.{
  ℕ, ◌+◌, ◌-◌, min, Bool, ◌||◌, not, List, [], ◌∷◌, ◌++◌, length, take, drop, ltb, ◌==◌,
  if◌then◌else◌,
}

abbrev pub Bytes : Type 0
Bytes = List ℕ

-- The loop's condition, without the bound on `i`: `offset || done < bytes`.
abbrev pub goes_on : ℕ → ℕ → ℕ → Bool
goes_on offset done bytes = not (offset == 0) || ltb done bytes

-- What `iov_to_buf` leaves: the bytes that it stored in `buf`, in order, and `offset`, which the
-- assertion after the loop compares with 0. `done` is their number.
pub record Gathered : Type 0 where
  pub out : Bytes
  pub done : ℕ
  pub offset : ℕ

unfoldable pub iov_to_buf : List Bytes → ℕ → ℕ → ℕ → Bytes → Gathered
iov_to_buf [] offset bytes done out = record { out = out; done = done; offset = offset }
iov_to_buf (v ∷ iov) offset bytes done out =
    let len = min (length v - offset) (bytes - done) in
    let copied = iov_to_buf iov 0 bytes (done + len) (out ++ take len (drop offset v)) in
    let skipped = iov_to_buf iov (offset - length v) bytes done out in
    if goes_on offset done bytes
    then (if ltb offset (length v) then copied else skipped)
    else record { out = out; done = done; offset = offset }

-- `memcpy` over the bytes of `v` from `offset` on.
abbrev pub overwrite : Bytes → ℕ → Bytes → Bytes
overwrite v offset new = take offset v ++ (new ++ drop (offset + length new) v)

-- What `iov_from_buf` leaves: the vector, and as above.
pub record Scattered : Type 0 where
  pub iov : List Bytes
  pub done : ℕ
  pub offset : ℕ

unfoldable pub iov_from_buf : List Bytes → ℕ → Bytes → ℕ → ℕ → Scattered
iov_from_buf [] offset buf bytes done = record { iov = []; done = done; offset = offset }
iov_from_buf (v ∷ iov) offset buf bytes done =
    let len = min (length v - offset) (bytes - done) in
    let copied = iov_from_buf iov 0 buf bytes (done + len) in
    let skipped = iov_from_buf iov (offset - length v) buf bytes done in
    if goes_on offset done bytes
    then (if ltb offset (length v)
        then record copied { iov = overwrite v offset (take len (drop done buf)) ∷ copied.iov }
        else record skipped { iov = v ∷ skipped.iov })
    else record { iov = v ∷ iov; done = done; offset = offset }
