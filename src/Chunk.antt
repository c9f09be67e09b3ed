-- ===== src/Chunk.antt =====
-- NonAlignedCopy.h: the iterator that cuts a request into pieces that stay inside one block.
-- `ssize_t` values are exact integers here; Chunk/Bounds shows that they fit in 64 bits.
pub mod Partition
pub mod Bounds
mod Tests
use qemu_cvbd_shraed_memory.Common.{ℕ, zero, suc, Bool, true, false, List, [], ◌∷◌, if◌then◌else◌}
use qemu_cvbd_shraed_memory.Common.Int.{ℤ, pos, ◌+ℤ◌, ◌-ℤ◌, rem, ltb_ℤ}

pub record NonAlignedCopy : Type 0 where
  pub start : ℤ
  pub len : ℤ
  pub block_size : ℤ
  pub cur : ℤ

-- `NonAlignedCopyInit`
unfoldable pub init : ℤ → ℤ → ℤ → NonAlignedCopy
init start len block_size = record {
  start = start;
  len = len;
  block_size = block_size;
  cur = start;
}

-- `NonAlignedCopyIsValid`: something is left.
unfoldable pub is_valid : NonAlignedCopy → Bool
is_valid a = ltb_ℤ (pos 0) (a.start +ℤ a.len -ℤ a.cur)

-- How much remains, and how much of the block that holds `cur_` does.
unfoldable pub remaining : NonAlignedCopy → ℤ
remaining a = a.start +ℤ a.len -ℤ a.cur

unfoldable pub available : NonAlignedCopy → ℤ
available a = a.block_size -ℤ rem a.cur a.block_size

-- What `NonAlignedCopyNext` stores through `retOffset` and `retSize`.
pub record Piece : Type 0 where
  pub offset : ℤ
  pub size : ℤ

-- `NonAlignedCopyNext`; it returns 0 on every path.
unfoldable pub next : NonAlignedCopy → NonAlignedCopy × Piece
unfolding remaining available
next a =
    let size = if ltb_ℤ (remaining a) (available a) then remaining a else available a in
    (record a { cur = a.cur +ℤ size }, record { offset = a.cur; size = size })

-- The pieces that a loop `while (NonAlignedCopyIsValid(&a)) { NonAlignedCopyNext(&a, …); … }`
-- visits. Partition and Bounds show that the length of the request is fuel enough.
unfoldable pub pieces : ℕ → NonAlignedCopy → List Piece
pieces zero a = []
pieces (suc fuel) a = elim (is_valid a) [ true ↦ (next a).1 ∷ pieces fuel (next a).0 | false ↦ [] ]
