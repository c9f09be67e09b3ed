-- ===== src/Server/Volumes.antt =====
-- server.c: what the handlers do with a null volume pointer.
use qemu_cvbd_shraed_memory.Common.{◌≡◌, ◌≢◌, refl, none, [], ◌∷◌, arith}
use qemu_cvbd_shraed_memory.Common.Outcome.{ok, stopped, crashed}
use qemu_cvbd_shraed_memory.Common.Store.{Store, find}
use qemu_cvbd_shraed_memory.Message.{Header, WriteRequest, ReadRequest}
use qemu_cvbd_shraed_memory.Host.{Env}
use qemu_cvbd_shraed_memory.Server.{
  VolumeState, Server, deref, send_reply, close_volume, close, getsize, fsync, write, read,
}

-- No object is at the null address.
abbrev pub NonNull : Store VolumeState → Type 0
NonNull [] = Unit {0}
NonNull ((a, v) ∷ h) = (a ≢ 0) × NonNull h

find-null : (h : Store VolumeState) → NonNull h → find 0 h ≡ none
unfolding find
find-null [] n = refl
find-null ((a, v) ∷ h) n = ground (arith, find-null h n.1)

module _ (env : Env) where
  deref-null : (s : Server env) → NonNull s.heap → deref env 0 s ≡ stopped crashed
  unfolding deref
  deref-null s n = rw (find-null s.heap n, deref) refl

-- `getsize`, `fsync` and `read` test their volume pointer for null, and then send their reply
-- through it: where no volume lies at the null address, each of these requests with volume 0
-- crashes the server, while `write` and `close` change nothing.
pub null_volume :
    (env : Env) (s : Server env) (h : Header) (r : ReadRequest) (w : WriteRequest)
    → NonNull s.heap
    → h.volume ≡ 0
    → r.header.volume ≡ 0
    → w.header.volume ≡ 0
    → (getsize env h s ≡ stopped crashed)
      × (fsync env h s ≡ stopped crashed)
      × (read env r s ≡ stopped crashed)
      × (write env w s ≡ ok tt s)
      × (close env h s ≡ ok tt s)
unfolding getsize fsync read write close close_volume send_reply
null_volume env s h r w n eh er ew = ground (arith, deref-null env s n)
