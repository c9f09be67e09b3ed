-- ===== src/Host.antt =====
-- What the program takes from outside the repository, as parameters of the model: the message
-- queues of Boost.Interprocess, the system calls of the server, `new` and PATH_MAX. Each record
-- has the operations that the source calls, an observation of the state, and documented laws.
pub mod Simple
pub mod Double
use qemu_cvbd_shraed_memory.Common.{
  ℕ, ◌+◌, ◌≤◌, ◌<◌, ◌≡◌, ◌≢◌, Bool, Option, none, some, List, [], ◌∷◌, ◌++◌, length, take, drop,
}
use qemu_cvbd_shraed_memory.Common.Int.{ℤ, pos}
use qemu_cvbd_shraed_memory.Message.{Request, Reply, Layout}
use qemu_cvbd_shraed_memory.Common.Store.{Fresh}
use qemu_cvbd_shraed_memory.Iov.{Bytes, overwrite}

-- The outcome of a system call: its value, or -1 with this `errno`.
pub data Sys (A : Type 0) : Type 0 where
  ret : A → Sys A
  fail : ℕ → Sys A

-- `boost::interprocess::message_queue` in shared memory, with all messages of one priority. A
-- handle is an opened or created queue object.
pub record Ipc (A : Type 0) : Type 1 where
  pub Shm : Type 0
  pub open_only : Bytes → Shm → Option ℕ  -- none: no such queue, and the constructor throws
  pub create_only : Bytes → ℕ → Shm → Option (ℕ × Shm)  -- none: it exists already
  pub remove : Bytes → Shm → Bool × Shm
  pub send : ℕ → A → Shm → Option Shm  -- none: the queue is full, and the call blocks
  pub receive : ℕ → Shm → Option (A × Shm)  -- none: the queue is empty, and the call blocks
  pub messages : ℕ → Shm → List A  -- what a queue holds, oldest first
  pub capacity : ℕ → Shm → ℕ
  pub send_room :
      (h : ℕ) (m : A) (s : Shm)
      → length (messages h s) < capacity h s
      → (s' : Shm) × (send h m s ≡ some s')
  pub send_messages :
      (h : ℕ) (m : A) (s s' : Shm)
      → send h m s ≡ some s'
      → (messages h s' ≡ messages h s ++ (m ∷ [])) × (capacity h s' ≡ capacity h s)
  pub receive_first :
      (h : ℕ) (m : A) (ms : List A) (s : Shm)
      → messages h s ≡ m ∷ ms
      → (s' : Shm) × (receive h s ≡ some (m, s'))
        × (messages h s' ≡ ms)
        × (capacity h s' ≡ capacity h s)
  pub receive_empty : (h : ℕ) (s : Shm) → messages h s ≡ [] → receive h s ≡ none
  pub create_messages :
      (name : Bytes) (n h : ℕ) (s s' : Shm)
      → create_only name n s ≡ some (h, s')
      → (messages h s' ≡ []) × (capacity h s' ≡ n) × (open_only name s' ≡ some h)
  pub remove_keeps :
      (name : Bytes) (h : ℕ) (s : Shm)
      → (messages h (remove name s).1 ≡ messages h s)
        × (capacity h (remove name s).1 ≡ capacity h s)

-- The system calls of the server, and the address of the next `new`. `Disk` is what the kernel
-- keeps: the files and the open descriptors.
pub record Host : Type 1 where
  pub Disk : Type 0
  pub open_rdwr : Bytes → Disk → Sys ℕ × Disk
  pub open_creat : Bytes → Disk → Sys ℕ × Disk
  pub ftruncate : ℕ → ℕ → Disk → Sys (Unit {0}) × Disk
  pub fstat_size : ℕ → Disk → Sys ℕ × Disk
  pub fsync : ℕ → Disk → Sys (Unit {0}) × Disk
  pub pwrite : ℕ → Bytes → ℤ → Disk → Sys ℕ × Disk
  pub pread : ℕ → ℕ → ℤ → Disk → Sys Bytes × Disk
  pub close : ℕ → Disk → Disk
  pub alloc : List ℕ → ℕ  -- an address, given those in use
  pub contents : ℕ → Disk → Bytes  -- the file behind a descriptor
  pub pwrite_in_file :
      (fd : ℕ) (bytes : Bytes) (o n : ℕ) (d d' : Disk)
      → pwrite fd bytes (pos o) d ≡ (ret n, d')
      → o + n ≤ length (contents fd d)
      → contents fd d' ≡ overwrite (contents fd d) o (take n bytes)
  pub pread_lem :
      (fd n o : ℕ) (bytes : Bytes) (d d' : Disk)
      → pread fd n (pos o) d ≡ (ret bytes, d')
      → (length bytes ≤ n)
        × (bytes ≡ take (length bytes) (drop o (contents fd d)))
        × (contents fd d' ≡ contents fd d)
  pub alloc_nonnull : (used : List ℕ) → alloc used ≢ 0

-- Everything that the program runs on. `path_max` is PATH_MAX, `bdrv_sector_size` is QEMU's
-- BDRV_SECTOR_SIZE, an unsigned 64-bit constant, and `slice_new` chooses the address of a block
-- that `g_slice_new` allocates, given the addresses in use.
pub record Env : Type 1 where
  pub host : Host
  pub requests : Ipc Request
  pub replies : Ipc Reply
  pub layout : Layout
  pub path_max : ℕ
  pub bdrv_sector_size : ℕ
  pub slice_new : List ℕ → ℕ
  pub slice_nonnull : (used : List ℕ) → slice_new used ≢ 0
  pub slice_fresh : (used : List ℕ) → Fresh (slice_new used) used
