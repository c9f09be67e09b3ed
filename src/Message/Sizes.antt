-- ===== src/Message/Sizes.antt =====
-- SharedMemShared.h: the sizes of the messages, as a compiler for a 64-bit Linux lays them out.
use qemu_cvbd_shraed_memory.Common.{
  ℕ, ◌+◌, ◌-◌, ◌%◌, ◌≡◌, ◌≤◌, ◌<◌, refl, true, List, [], ◌∷◌, ltb, arith, if◌then◌else◌,
}
use qemu_cvbd_shraed_memory.Message.{max_data_size}

abbrev larger : ℕ → ℕ → ℕ
larger a b = if ltb a b then b else a

-- The next multiple of an alignment.
abbrev aligned : ℕ → ℕ → ℕ
aligned n align = n + (align - n % align) % align

-- A member of a structure: its size and its alignment.
abbrev Member : Type 0
Member = ℕ × ℕ

abbrev place : ℕ → List Member → ℕ
place offset [] = offset
place offset ((size, align) ∷ ms) = place (aligned offset align + size) ms

abbrev widest : List Member → ℕ
widest [] = 1
widest ((size, align) ∷ ms) = larger align (widest ms)

-- `sizeof` of a structure with these members.
abbrev struct_size : List Member → ℕ
struct_size ms = aligned (place 0 ms) (widest ms)

abbrev bool_member : Member
bool_member = (1, 1)

-- An enumeration and an `int`.
abbrev int_member : Member
int_member = (4, 4)

-- `uint64_t` and `off_t`.
abbrev long_member : Member
long_member = (8, 8)

-- An array of bytes.
abbrev bytes_member : ℕ → Member
bytes_member n = (n, 1)

-- `sizeof(Header)`.
unfoldable pub header_size : ℕ
header_size = struct_size (bool_member ∷ int_member ∷ long_member ∷ long_member ∷ long_member ∷ [])

-- A header inside a message.
abbrev header_member : ℕ → Member
header_member size = (size, 8)

unfoldable pub read_reply_size : ℕ
unfolding header_size
read_reply_size =
    struct_size (header_member header_size ∷ long_member ∷ bytes_member max_data_size ∷ [])

unfoldable pub open_reply_size : ℕ
unfolding header_size
open_reply_size = struct_size (header_member header_size ∷ long_member ∷ int_member ∷ [])

unfoldable pub getsize_reply_size : ℕ
unfolding header_size
getsize_reply_size = struct_size (header_member header_size ∷ long_member ∷ [])

unfoldable pub fsync_reply_size : ℕ
unfolding header_size
fsync_reply_size = struct_size (header_member header_size ∷ int_member ∷ [])

-- `sizeof(Reply)`. All members of the union are aligned to 8 bytes.
unfoldable pub reply_size : ℕ
unfolding read_reply_size open_reply_size getsize_reply_size fsync_reply_size
reply_size =
    larger read_reply_size (larger open_reply_size (larger getsize_reply_size fsync_reply_size))

unfoldable pub write_request_size : ℕ
unfolding header_size
write_request_size =
    struct_size
      (header_member header_size ∷ long_member ∷ long_member ∷ bytes_member max_data_size ∷ [])

unfoldable pub read_request_size : ℕ
unfolding header_size
read_request_size = struct_size (header_member header_size ∷ long_member ∷ long_member ∷ [])

-- The two names take PATH_MAX bytes each.
unfoldable pub open_request_size : ℕ → ℕ
unfolding header_size
open_request_size path_max =
    struct_size (header_member header_size ∷ bytes_member path_max ∷ bytes_member path_max ∷ [])

-- `sizeof(Request)`. The three other members are no more than a header.
unfoldable pub request_size : ℕ → ℕ
unfolding header_size write_request_size read_request_size open_request_size
request_size path_max =
    larger write_request_size
      (larger read_request_size (larger (open_request_size path_max) header_size))

pub reply_size-header_size : ltb header_size reply_size ≡ true
unfolding header_size reply_size
reply_size-header_size = refl

write_request_size-request_size : (path_max : ℕ) → write_request_size ≤ request_size path_max
unfolding request_size
write_request_size-request_size path_max = ground arith

header_size-write_request_size : header_size < write_request_size
unfolding header_size write_request_size
header_size-write_request_size = omega arith

pub request_size-header_size : (path_max : ℕ) → ltb header_size (request_size path_max) ≡ true
request_size-header_size path_max =
    ground (arith, header_size-write_request_size, write_request_size-request_size path_max)
