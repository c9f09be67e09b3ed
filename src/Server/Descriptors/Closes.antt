-- ===== src/Server/Descriptors/Closes.antt =====
-- server.c: what closing a volume does to volumes and descriptors.
use qemu_cvbd_shraed_memory.Common.{
  ℕ, ◌+◌, ◌-◌, ◌≡◌, ◌≢◌, sym, ap, ◌∙◌, inl, inr, Option-cases, subst, ◌∷◌, arith,
}
use qemu_cvbd_shraed_memory.Common.Outcome.{ok}
use qemu_cvbd_shraed_memory.Common.Outcome.Keeps.{Keeps}
use qemu_cvbd_shraed_memory.Common.Store.{Store, find, free, free-cons_self, find-cons_self}
use qemu_cvbd_shraed_memory.Host.{Env, Sys}
use qemu_cvbd_shraed_memory.Server.{VolumeState, Server, sys, close_volume}
use qemu_cvbd_shraed_memory.Server.Descriptors.{one, Descriptors, Still, Closed}

module _ (env : Env) (descriptors : Descriptors env.host) where
  open descriptors use {uses}

  module _ (heap : Store VolumeState) (used : ℕ → ℕ) (mq : ℕ) (queue : env.requests.Shm) where
    abbrev Same : Server env → Type 0
    Same = Still env descriptors heap used mq queue

    -- A call that returned, on the disk before it.
    pub sys-ran :
        {A : Type 0} (call : env.host.Disk → Sys A × env.host.Disk) (s s' : Server env) (r : Sys A)
        → sys env call s ≡ ok r s'
        → Same s
        → (call s.disk ≡ (r, s'.disk))
          × ((s'.heap ≡ heap) × (s'.request_mq ≡ mq) × (s'.incoming ≡ queue))
    unfolding sys
    sys-ran call s s' r e same = (ground arith, ground (arith, same.0, same.2, same.3))

    pub close_null : Keeps Same (close_volume env 0)
    unfolding close_volume
    close_null s s' u e same = subst Same (let kept : s ≡ s' = ground arith in kept) same

    pub close-Closed :
        (a : ℕ) (s s' : Server env)
        → a ≢ 0
        → close_volume env a s ≡ ok tt s'
        → Same s
        → Closed env descriptors heap used mq queue a s'
    unfolding close_volume
    close-Closed a s s' nonnull e same = elim (Option-cases (find a s.heap)) [
      | inl dead ↦ absurd (ground arith)
      | inr (v, live) ↦
          let gone : s'.heap ≡ free a s.heap = ground arith in
          let disk : s'.disk ≡ env.host.close v.fd s.disk = ground arith in
          (
            v,
            ap (find a) (sym same.0) ∙ live,
            (
              gone ∙ ap (free a) same.0,
              λ x.
                  ap (λ d. uses d x) disk
                  ∙ descriptors.close_uses v.fd s.disk x
                  ∙ ap (λ n. n - one v.fd x) (same.1 x),
              ground (arith, same.2),
              ground (arith, same.3),
            ),
          )
    ]

  module _ (heap : Store VolumeState) (used : ℕ → ℕ) (mq : ℕ) (queue : env.requests.Shm) where
    abbrev Before : Server env → Type 0
    Before = Still env descriptors heap used mq queue

    -- A volume that was just made is closed again.
    pub freed :
        (a : ℕ) (v : VolumeState) (t s' : Server env)
        → a ≢ 0
        → close_volume env a t ≡ ok tt s'
        → Still env descriptors ((a, v) ∷ heap) (λ x. one v.fd x + used x) mq queue t
        → Before s'
    freed a v t s' nonnull e still =
        let (w, live, (gone, unused, one_queue, kept)) =
          close-Closed ((a, v) ∷ heap) (λ x. one v.fd x + used x) mq queue a t s' nonnull e still in
        let same : w ≡ v = ground (arith, live, find-cons_self a v heap) in
        (
          gone ∙ free-cons_self a v heap,
          λ x.
              let is_one : one w.fd x ≡ one v.fd x = ap (λ u. one u.fd x) same in
              omega (arith, unused x, is_one),
          one_queue,
          kept,
        )
