-- ===== src/System/Flight/Blocks.antt =====
-- What starting a request does to the blocks: a new one comes, and no other changes.
use qemu_cvbd_shraed_memory.Common.{
  ℕ, ◌≡◌, ap, subst, Bool-cases, inl, inr, some, List, ◌∷◌, arith, ◌==◌,
}
use qemu_cvbd_shraed_memory.Common.Int.{ℤ}
use qemu_cvbd_shraed_memory.Common.Outcome.{ok}
use qemu_cvbd_shraed_memory.Common.Store.{addresses, find, find-cons, find-Fresh}
use qemu_cvbd_shraed_memory.Iov.{Bytes}
use qemu_cvbd_shraed_memory.Host.{Env}
use qemu_cvbd_shraed_memory.Aio.{Acb}
use qemu_cvbd_shraed_memory.AsyncClient.{Client, getsize_volume}
use qemu_cvbd_shraed_memory.AsyncClient.Posts.{getsize-returns}
use qemu_cvbd_shraed_memory.Cvbd.{Started, co_readv, co_writev, co_flush_to_disk}
use qemu_cvbd_shraed_memory.Cvbd.Returns.{co_readv-returns, co_writev-returns, co_flush-returns}

module _ (env : Env) (s c : Client env) (a : ℕ) (acb : Acb) (live : find a s.acbs ≡ some acb) where
  added :
      (new : Acb)
      → c.acbs ≡ (env.slice_new (addresses s.acbs), new) ∷ s.acbs
      → find a c.acbs ≡ some acb
  added new e =
      let a0 = env.slice_new (addresses s.acbs) in
      let unused = find-Fresh a0 s.acbs (env.slice_fresh (addresses s.acbs)) in
      rw (e, find-cons a0 a new s.acbs)
        (elim (Bool-cases (a0 == a)) [
          | inl same ↦
              let is : a ≡ a0 = ground arith in
              absurd (cc (unused, subst (λ x. find x s.acbs ≡ some acb) is live))
          | inr other ↦ rw other live
        ])

  pub start_read-keeps :
      (x n : ℤ) (qiov : List Bytes) (r : Started)
      → co_readv env x n qiov s ≡ ok r c
      → find a c.acbs ≡ some acb
  start_read-keeps x n qiov r e = elim (co_readv-returns env s x n qiov r c e) [
    | inl leak ↦ added _ (ap (λ x. x.acbs) leak)
    | inr (al, shm, sent, done) ↦ added _ (ap (λ x. x.acbs) done)
  ]

  pub start_write-keeps :
      (x n : ℤ) (qiov : List Bytes) (r : Started)
      → co_writev env x n qiov s ≡ ok r c
      → find a c.acbs ≡ some acb
  start_write-keeps x n qiov r e = elim (co_writev-returns env s x n qiov r c e) [
    | inl leak ↦ added _ (ap (λ x. x.acbs) leak)
    | inr (al, shm, sent, done) ↦ added _ (ap (λ x. x.acbs) done)
  ]

  pub start_flush-keeps : (r : Started) → co_flush_to_disk env s ≡ ok r c → find a c.acbs ≡ some acb
  start_flush-keeps r e =
      let (shm, sent, done) = co_flush-returns env s r c e in added _ (ap (λ x. x.acbs) done)

  pub ask_size-keeps : (size : ℤ) → getsize_volume env s ≡ ok size c → find a c.acbs ≡ some acb
  ask_size-keeps size e = let (shm, sent, done) = getsize-returns env s size c e in rw done live
