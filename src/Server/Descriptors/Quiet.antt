-- ===== src/Server/Descriptors/Quiet.antt =====
-- server.c: what the handlers but `open` and `close` do to volumes and descriptors: nothing.
use qemu_cvbd_shraed_memory.Common.{ℕ, ◌≡◌, ap, ◌∙◌, true, subst, [], ◌==◌, arith}
use qemu_cvbd_shraed_memory.Common.Int.{pos}
use qemu_cvbd_shraed_memory.Common.Outcome.Keeps.{
  Keeps, ok-state, Keeps->>=, Keeps->>, Keeps-branch, Keeps-pure, Keeps-assert,
}
use qemu_cvbd_shraed_memory.Common.Store.{Store}
use qemu_cvbd_shraed_memory.Iov.{Bytes}
use qemu_cvbd_shraed_memory.Message.{Header, WriteRequest, ReadRequest, Reply}
use qemu_cvbd_shraed_memory.Host.{Env, Sys}
use qemu_cvbd_shraed_memory.Server.{
  VolumeState, Server, sys, c_str, open_mq, deref, in_array, send_on, send_reply, getsize, fsync,
  write, read,
}
use qemu_cvbd_shraed_memory.Server.Descriptors.{Descriptors, Still}

module _ (env : Env) (descriptors : Descriptors env.host) where
  open descriptors use {uses}

  module _ (heap : Store VolumeState) (used : ℕ → ℕ) (mq : ℕ) (queue : env.requests.Shm) where
    abbrev pub P : Server env → Type 0
    P = Still env descriptors heap used mq queue

    pub sys-Still :
        {A : Type 0} (call : env.host.Disk → Sys A × env.host.Disk)
        → ((d : env.host.Disk) (x : ℕ) → uses (call d).1 x ≡ uses d x)
        → Keeps P (sys env call)
    unfolding sys
    sys-Still call keeps s s' r e still =
        let disk : s'.disk ≡ (call s.disk).1 = ground arith in
        (
          ground (arith, still.0),
          λ x. ap (λ d. uses d x) disk ∙ keeps s.disk x ∙ still.1 x,
          ground (arith, still.2),
          ground (arith, still.3),
        )

    pub deref-Still : (a : ℕ) → Keeps P (deref env a)
    unfolding deref
    deref-Still a s s' v e still = subst P (let same : s ≡ s' = ground arith in same) still

    pub in_array-Still : (n : ℕ) → Keeps P (in_array env n)
    unfolding in_array
    in_array-Still n s s' u e still = subst P (let same : s ≡ s' = ground arith in same) still

    pub c_str-Still : (b : Bytes) → Keeps P (c_str env b)
    unfolding c_str
    c_str-Still b s s' r e still = subst P (let same : s ≡ s' = ground arith in same) still

    pub open_mq-Still : (b : Bytes) → Keeps P (open_mq env b)
    unfolding open_mq
    open_mq-Still b s s' r e still = subst P (let same : s ≡ s' = ground arith in same) still

    pub send_on-Still : (mq' : ℕ) (m : Reply) → Keeps P (send_on env mq' m)
    unfolding send_on
    send_on-Still mq' m s s' u e still = (
      ground (arith, still.0),
      λ x. let disk : s'.disk ≡ s.disk = ground arith in ap (λ d. uses d x) disk ∙ still.1 x,
      ground (arith, still.2),
      ground (arith, still.3),
    )

    pub send_reply-Still : (a : ℕ) (m : Reply) → Keeps P (send_reply env a m)
    unfolding send_reply
    send_reply-Still a m = Keeps->>= P _ _ (deref-Still a) λ v. send_on-Still v.reply_mq m

    pub write-Still : (r : WriteRequest) → Keeps P (write env r)
    unfolding write
    write-Still r = Keeps-branch P (r.header.volume == 0) _ _ (Keeps-pure P tt) (
        Keeps->>= P _ _ (deref-Still r.header.volume) λ v.
          Keeps->> P _ _ (in_array-Still r.size_in_bytes) (
            Keeps->>= P _ _
              (sys-Still (env.host.pwrite v.fd _ r.offset)
                (descriptors.pwrite_keeps v.fd _ r.offset))
              λ written. Keeps-assert P _))

    pub read-Still : (r : ReadRequest) → Keeps P (read env r)
    unfolding read
    read-Still r =
        Keeps->>= P _ _
          (Keeps-branch P (r.header.volume == 0) _ _ (Keeps-pure P []) (
            Keeps->>= P _ _ (deref-Still r.header.volume) λ v.
              Keeps->> P _ _ (in_array-Still r.size_in_bytes) (
                Keeps->>= P _ _
                  (sys-Still (env.host.pread v.fd r.size_in_bytes r.offset)
                    (descriptors.pread_keeps v.fd r.size_in_bytes r.offset))
                  λ result. Keeps->> P _ _ (Keeps-assert P _) (Keeps-pure P _))))
          λ stored. send_reply-Still r.header.volume _

    pub getsize-Still : (h : Header) → Keeps P (getsize env h)
    unfolding getsize
    getsize-Still h =
        Keeps->>= P _ _
          (Keeps-branch P (h.volume == 0) _ _ (Keeps-pure P (pos 0)) (
            Keeps->>= P _ _ (deref-Still h.volume) λ v.
              Keeps->>= P _ _
                (sys-Still (env.host.fstat_size v.fd) (descriptors.fstat_size_keeps v.fd))
                λ stat. Keeps-pure P _))
          λ size. send_reply-Still h.volume _

    pub fsync-Still : (h : Header) → Keeps P (fsync env h)
    unfolding fsync
    fsync-Still h =
        Keeps->>= P _ _
          (Keeps-branch P (h.volume == 0) _ _ (Keeps-pure P true) (
            Keeps->>= P _ _ (deref-Still h.volume) λ v.
              Keeps->>= P _ _ (sys-Still (env.host.fsync v.fd) (descriptors.fsync_keeps v.fd))
                λ done. Keeps-pure P _))
          λ failed.
            Keeps->>= P _ _ (λ s s' t e still. subst P (ok-state s t s s' e) still)
              λ s. send_reply-Still h.volume _
