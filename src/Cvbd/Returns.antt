-- ===== src/Cvbd/Returns.antt =====
-- cvbd.c: what a coroutine function has done where it has returned or waits at its `yield`.
use qemu_cvbd_shraed_memory.Common.{
  ℕ, ◌≡◌, ◌≤◌, sym, ◌∙◌, ◌⊎◌, inl, inr, true, false, Bool-cases, Option-cases, none, some, List,
  ◌∷◌, leb, arith,
}
use qemu_cvbd_shraed_memory.Common.Int.{ℤ}
use qemu_cvbd_shraed_memory.Common.Outcome.{ok, stopped, aborted, blocked}
use qemu_cvbd_shraed_memory.Common.Outcome.Keeps.{ok-state, ok-value}
use qemu_cvbd_shraed_memory.Common.Store.{update-cons_self, find-cons_self}
use qemu_cvbd_shraed_memory.Iov.{Bytes}
use qemu_cvbd_shraed_memory.Message.{
  max_data_size, Request, write_request, read_request, fsync_request,
}
use qemu_cvbd_shraed_memory.Host.{Env}
use qemu_cvbd_shraed_memory.Aio.{minus_einval}
use qemu_cvbd_shraed_memory.AsyncClient.{Client}
use qemu_cvbd_shraed_memory.AsyncClient.Posts.{
  write_next, read_next, send_readv-full, send_writev-full,
}
use qemu_cvbd_shraed_memory.Cvbd.{
  is_request_aligned, Started, returned, yielded, raw_acb, co_readv, co_writev, co_flush_to_disk,
}
use qemu_cvbd_shraed_memory.Cvbd.Flush.{flush_header, after_flush, co_flush-post, co_flush-full}
use qemu_cvbd_shraed_memory.Cvbd.Requests.{
  block, size, offset, posted, ready, after_writev, after_readv, co_readv-post, co_writev-post,
  co_rw_too_large, co_rw-misaligned_once,
}

module _ (env : Env) (s : Client env) (sector_num nb_sectors : ℤ) (qiov : List Bytes) where
  abbrev Aligned : Type 0
  Aligned = is_request_aligned env.bdrv_sector_size sector_num nb_sectors ≡ true

  -- A misaligned request leaves its block behind, as it came from the allocator.
  abbrev pub leaked : Client env
  leaked = record s { acbs = (block env s sector_num nb_sectors qiov, raw_acb) ∷ s.acbs }

  full_read :
      Aligned
      → size env s sector_num nb_sectors qiov ≤ max_data_size
      → env.requests.send s.request_mq
          (read_request (
            read_next env
              (ready env s sector_num nb_sectors qiov)
              (offset env s sector_num nb_sectors qiov)
              (block env s sector_num nb_sectors qiov)
              (posted env s sector_num nb_sectors qiov)))
          s.outgoing
        ≡ none
      → co_readv env sector_num nb_sectors qiov s ≡ stopped blocked
  unfolding co_readv
  full_read al small full =
      let b = block env s sector_num nb_sectors qiov in
      let p = posted env s sector_num nb_sectors qiov in
      ground (
        arith,
        update-cons_self b p raw_acb s.acbs,
        send_readv-full env (ready env s sector_num nb_sectors qiov)
            (offset env s sector_num nb_sectors qiov) b p (find-cons_self b p s.acbs) small full,
      )

  full_write :
      Aligned
      → size env s sector_num nb_sectors qiov ≤ max_data_size
      → env.requests.send s.request_mq
          (write_request (
            write_next env
              (ready env s sector_num nb_sectors qiov)
              (offset env s sector_num nb_sectors qiov)
              (block env s sector_num nb_sectors qiov)
              (posted env s sector_num nb_sectors qiov)))
          s.outgoing
        ≡ none
      → co_writev env sector_num nb_sectors qiov s ≡ stopped blocked
  unfolding co_writev
  full_write al small full =
      let b = block env s sector_num nb_sectors qiov in
      let p = posted env s sector_num nb_sectors qiov in
      ground (
        arith,
        update-cons_self b p raw_acb s.acbs,
        send_writev-full env (ready env s sector_num nb_sectors qiov)
            (offset env s sector_num nb_sectors qiov) b p (find-cons_self b p s.acbs) small full,
      )

  too_large :
      Aligned
      → leb (size env s sector_num nb_sectors qiov) max_data_size ≡ false
      → (co_readv env sector_num nb_sectors qiov s ≡ stopped aborted)
        × (co_writev env sector_num nb_sectors qiov s ≡ stopped aborted)
  unfolding co_readv co_writev
  too_large al large = (
    co_rw_too_large env s sector_num nb_sectors qiov al false (ground arith),
    co_rw_too_large env s sector_num nb_sectors qiov al true (ground arith),
  )

  misaligned :
      is_request_aligned env.bdrv_sector_size sector_num nb_sectors ≡ false
      → (co_readv env sector_num nb_sectors qiov s ≡ ok (returned minus_einval) leaked)
        × (co_writev env sector_num nb_sectors qiov s ≡ ok (returned minus_einval) leaked)
  unfolding co_readv co_writev
  misaligned e = (
    co_rw-misaligned_once env s sector_num nb_sectors qiov false e,
    co_rw-misaligned_once env s sector_num nb_sectors qiov true e,
  )

  -- The message that a read posts.
  abbrev pub read_message : Request
  read_message = read_request (
      read_next env (ready env s sector_num nb_sectors qiov)
        (offset env s sector_num nb_sectors qiov) (block env s sector_num nb_sectors qiov)
        (posted env s sector_num nb_sectors qiov))

  aligned_read :
      (al : Aligned) (r : Started) (t : Client env)
      → co_readv env sector_num nb_sectors qiov s ≡ ok r t
      → (shm : env.requests.Shm) × (env.requests.send s.request_mq read_message s.outgoing
          ≡ some shm)
        × (t ≡ after_readv env s sector_num nb_sectors qiov al shm)
        × (r ≡ yielded (block env s sector_num nb_sectors qiov))
  aligned_read al r t e =
      elim (Bool-cases (leb (size env s sector_num nb_sectors qiov) max_data_size)) [
        | inr large ↦ absurd (cc (e, (too_large al large).0))
        | inl fits ↦ elim (Option-cases (env.requests.send s.request_mq read_message s.outgoing)) [
          | inl full ↦ absurd (cc (e, full_read al (ground arith) full))
          | inr (shm, sent) ↦
              let run = co_readv-post env s sector_num nb_sectors qiov al shm (ground arith) sent in
              (shm, sent, ok-state _ _ _ _ (sym e ∙ run), ok-value _ _ _ _ (sym e ∙ run))
        ]
      ]

  pub co_readv-returns :
      (r : Started) (t : Client env)
      → co_readv env sector_num nb_sectors qiov s ≡ ok r t
      → (t ≡ leaked)
        ⊎ ((al : Aligned) × (shm : env.requests.Shm) × (env.requests.send s.request_mq read_message
                s.outgoing
              ≡ some shm)
            × (t ≡ after_readv env s sector_num nb_sectors qiov al shm))
  co_readv-returns r t e =
      elim (Bool-cases (is_request_aligned env.bdrv_sector_size sector_num nb_sectors)) [
        | inr mis ↦ inl (ok-state _ _ _ _ (sym e ∙ (misaligned mis).0))
        | inl al ↦ let (shm, sent, is, waits) = aligned_read al r t e in inr (al, shm, sent, is)
      ]

  -- A coroutine that waits has posted its read.
  pub co_readv-yields :
      (a : ℕ) (t : Client env)
      → co_readv env sector_num nb_sectors qiov s ≡ ok (yielded a) t
      → (al : Aligned) × (shm : env.requests.Shm) × (env.requests.send s.request_mq read_message
            s.outgoing
          ≡ some shm)
        × (t ≡ after_readv env s sector_num nb_sectors qiov al shm)
        × (a ≡ block env s sector_num nb_sectors qiov)
  co_readv-yields a t e =
      elim (Bool-cases (is_request_aligned env.bdrv_sector_size sector_num nb_sectors)) [
        | inr mis ↦ absurd (cc (e, (misaligned mis).0))
        | inl al ↦
            let (shm, sent, is, waits) = aligned_read al (yielded a) t e in (al, shm, sent, is, cc)
      ]

  pub co_writev-returns :
      (r : Started) (t : Client env)
      → co_writev env sector_num nb_sectors qiov s ≡ ok r t
      → (t ≡ leaked)
        ⊎ ((al : Aligned) × (shm : env.requests.Shm) × (env.requests.send s.request_mq
                (write_request (
                  write_next env
                    (ready env s sector_num nb_sectors qiov)
                    (offset env s sector_num nb_sectors qiov)
                    (block env s sector_num nb_sectors qiov)
                    (posted env s sector_num nb_sectors qiov)))
                s.outgoing
              ≡ some shm)
            × (t ≡ after_writev env s sector_num nb_sectors qiov al shm))
  co_writev-returns r t e =
      elim (Bool-cases (is_request_aligned env.bdrv_sector_size sector_num nb_sectors)) [
        | inr mis ↦ inl (ok-state _ _ _ _ (sym e ∙ (misaligned mis).1))
        | inl al ↦ elim (Bool-cases (leb (size env s sector_num nb_sectors qiov) max_data_size)) [
          | inr large ↦ absurd (cc (e, (too_large al large).1))
          | inl fits ↦
              elim (Option-cases (
                env.requests.send s.request_mq
                  (write_request (
                    write_next env (ready env s sector_num nb_sectors qiov)
                      (offset env s sector_num nb_sectors qiov)
                      (block env s sector_num nb_sectors qiov)
                      (posted env s sector_num nb_sectors qiov)))
                  s.outgoing)) [
                    | inl full ↦ absurd (cc (e, full_write al (ground arith) full))
                    | inr (shm, sent) ↦ inr (
                      al,
                      shm,
                      sent,
                      ok-state _ _ _ _ (
                          sym e
                          ∙ co_writev-post env s sector_num nb_sectors qiov al shm (ground arith)
                              sent),
                    )
                  ]
        ]
      ]

-- A flush is posted, or its caller never goes on.
pub co_flush-returns :
    (env : Env) (s : Client env) (r : Started) (t : Client env)
    → co_flush_to_disk env s ≡ ok r t
    → (shm : env.requests.Shm) × (env.requests.send s.request_mq
          (fsync_request (flush_header env s))
          s.outgoing
        ≡ some shm)
      × (t ≡ after_flush env s shm)
co_flush-returns env s r t e =
    elim (Option-cases
      (env.requests.send s.request_mq (fsync_request (flush_header env s)) s.outgoing)) [
        | inl full ↦ absurd (cc (e, co_flush-full env s full))
        | inr (shm, sent) ↦ (shm, sent, ok-state _ _ _ _ (sym e ∙ co_flush-post env s shm sent))
      ]
