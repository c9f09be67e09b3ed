-- ===== src/System/Sequential/Shared.antt =====
-- The clients of all volumes send to the one queue of the server, which serves each as if it were
-- alone.
pub mod Serves
use qemu_cvbd_shraed_memory.Common.{
  ℕ, suc, ◌+◌, ◌≡◌, ◌≢◌, ◌≤◌, ◌<◌, refl, sym, ap, ◌∙◌, subst, Bool-cases, inl, inr, true, false,
  some, List, [], ◌∷◌, ◌++◌, length, All, append-nil, append_assoc, length-append, arith, ◌==◌,
  if◌then◌else◌,
}
use qemu_cvbd_shraed_memory.Common.Outcome.{ok}
use qemu_cvbd_shraed_memory.Common.Store.{Store, find}
use qemu_cvbd_shraed_memory.Iov.{Bytes}
use qemu_cvbd_shraed_memory.Message.{
  Request, write_request, read_request, fsync_request, getsize_request, header_of, Reply,
}
use qemu_cvbd_shraed_memory.Host.{Env}
use qemu_cvbd_shraed_memory.Server.{VolumeState, Server, handle_requests, dispatch}
use qemu_cvbd_shraed_memory.Server.Files.{dispatch-write, dispatch-read}
use qemu_cvbd_shraed_memory.Server.Served.{
  dispatch-fsync, dispatch-getsize, write-returns, read-returns, fsync-returns, getsize-returns,
}
use qemu_cvbd_shraed_memory.System.Steps.{serve-returns}
use qemu_cvbd_shraed_memory.System.Sequential.{
  Reliable, Stands, IsInside, after, heard, after_all, heard_all,
}
use qemu_cvbd_shraed_memory.System.Sequential.Serving.{
  serve_first, one_more, length-heard, length-after,
}

-- Of a queue, the requests to the volume at an address.
abbrev pub own : ℕ → List Request → List Request
own a [] = []
own a (m ∷ ms) = if (header_of m).volume == a then m ∷ own a ms else own a ms

pub after-own :
    (a : ℕ) (m : Request) (ms : List Request) (disk : Bytes)
    → after_all (own a ms) (after_all (own a (m ∷ [])) disk) ≡ after_all (own a (m ∷ ms)) disk
after-own a m ms disk = elim (Bool-cases ((header_of m).volume == a)) [
  | inl same ↦ rw same refl
  | inr other ↦ rw other refl
]

pub heard-own :
    (a : ℕ) (m : Request) (ms : List Request) (disk : Bytes)
    → heard_all (own a (m ∷ [])) disk ++ heard_all (own a ms) (after_all (own a (m ∷ [])) disk)
      ≡ heard_all (own a (m ∷ ms)) disk
heard-own a m ms disk = elim (Bool-cases ((header_of m).volume == a)) [
  | inl same ↦ rw (same, append-nil) refl
  | inr other ↦ rw other refl
]

module _ (env : Env) (heap : Store VolumeState) (q : ℕ) where
  open env use {host, requests, replies}

  -- A server with these volumes, which hold these bytes, and for whose clients these answers wait.
  pub record Shares (bytes : ℕ → Bytes) (sent : ℕ → List Reply) (ms : List Request) (s : Server env)
      : Type 0 where
    pub one_queue : s.request_mq ≡ q
    pub objects : s.heap ≡ heap
    pub queue : requests.messages q s.incoming ≡ ms
    pub held :
        (a : ℕ) (v : VolumeState)
        → find a heap ≡ some v
        → (host.contents v.fd s.disk ≡ bytes a) × (replies.messages v.reply_mq s.outgoing ≡ sent a)

  -- A request to one of them that a client may send, if they have these sizes.
  abbrev pub IsFor : (ℕ → ℕ) → Request → Type 0
  IsFor size m =
      (v : VolumeState) × (find (header_of m).volume heap ≡ some v)
      × ((header_of m).volume ≢ 0)
      × IsInside (header_of m).volume (size (header_of m).volume) m

  -- Room for the answers to these requests.
  abbrev pub HasRoom : (ℕ → List Reply) → List Request → Server env → Type 0
  HasRoom sent ms s =
      (a : ℕ) (v : VolumeState)
      → find a heap ≡ some v
      → length (sent a) + length (own a ms) ≤ replies.capacity v.reply_mq s.outgoing
