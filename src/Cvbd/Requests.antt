-- ===== src/Cvbd/Requests.antt =====
-- cvbd.c: the coroutine functions of the asynchronous driver, from the call to the result.
use qemu_cvbd_shraed_memory.Common.{
  ◌∙◌, ℕ, zero, suc, ◌+◌, ◌≡◌, ◌≤◌, ◌<◌, refl, Bool, true, false, some, List, [], ◌∷◌, ◌++◌, length,
  arith,
}
use qemu_cvbd_shraed_memory.Common.Int.{ℤ, pos, to_i64}
use qemu_cvbd_shraed_memory.Common.Outcome.{ok, stopped, aborted, M, ◌>>=◌}
use qemu_cvbd_shraed_memory.Common.Store.{
  addresses, find-cons_self, free-cons_self, update-cons_self,
}
use qemu_cvbd_shraed_memory.Iov.{Bytes}
use qemu_cvbd_shraed_memory.Message.{max_data_size, Request, write_request, read_request}
use qemu_cvbd_shraed_memory.Host.{Env}
use qemu_cvbd_shraed_memory.Aio.{Acb, minus_einval}
use qemu_cvbd_shraed_memory.AsyncClient.{Client, shared_mem_readv, shared_mem_writev}
use qemu_cvbd_shraed_memory.AsyncClient.Posts.{
  write_next, read_next, written, send_writev-post, send_readv-post, send_too_large,
}
use qemu_cvbd_shraed_memory.Cvbd.Woken.{complete_aio-done}
use qemu_cvbd_shraed_memory.Cvbd.{
  in_bytes, is_request_aligned, returned, yielded, raw_acb, co_rw, co_readv, co_writev,
  complete_aio,
}

module _ (env : Env) (s : Client env) (sector_num nb_sectors : ℤ) (qiov : List Bytes) where
  -- The address of the request's block, and the block when it is posted.
  abbrev pub block : ℕ
  block = env.slice_new (addresses s.acbs)

  abbrev pub size : ℕ
  size = in_bytes env.bdrv_sector_size nb_sectors

  abbrev pub offset : ℤ
  offset = to_i64 (in_bytes env.bdrv_sector_size sector_num)

  abbrev pub posted : Acb
  posted = record {
    size = size;
    ret = pos 0;
    qiov = qiov;
    callback = true;
    scheduled = 0;
    bh = false;
  }

  abbrev pub ready : Client env
  ready = record s { acbs = (block, posted) ∷ s.acbs }

  pub co_rw-misaligned_once :
      (write : Bool)
      → is_request_aligned env.bdrv_sector_size sector_num nb_sectors ≡ false
      → co_rw env sector_num nb_sectors qiov write s
        ≡ ok (returned minus_einval) (record s { acbs = (block, raw_acb) ∷ s.acbs })
  unfolding co_rw
  co_rw-misaligned_once write e = ground arith

  module _ (aligned : is_request_aligned env.bdrv_sector_size sector_num nb_sectors ≡ true) where
    -- An aligned request of more than `max_data_size` bytes, in either direction, ends QEMU at an
    -- assertion of the client.
    pub co_rw_too_large :
        (write : Bool)
        → max_data_size < size
        → co_rw env sector_num nb_sectors qiov write s ≡ stopped aborted
    unfolding co_rw
    co_rw_too_large write large = ground (
      arith,
      update-cons_self block posted raw_acb s.acbs,
      send_too_large env ready offset block posted (find-cons_self block posted s.acbs) large,
    )

    -- The client after a write was posted: its block is settled already.
    abbrev pub after_writev : env.requests.Shm → Client env
    after_writev shm = record s {
      id = suc s.id;
      request_msg = write_request (write_next env ready offset block posted);
      outgoing = shm;
      acbs = (block, written env ready offset block posted) ∷ s.acbs;
    }

    pub co_writev-post :
        (shm : env.requests.Shm)
        → size ≤ max_data_size
        → env.requests.send s.request_mq
            (write_request (write_next env ready offset block posted))
            s.outgoing
          ≡ some shm
        → co_writev env sector_num nb_sectors qiov s ≡ ok (yielded block) (after_writev shm)
    unfolding co_writev shared_mem_writev
    co_writev-post shm small sent =
        let live = find-cons_self block posted s.acbs in
        ground (
          arith,
          update-cons_self block posted raw_acb s.acbs,
          send_writev-post env ready offset block posted shm live refl small sent,
          update-cons_self block (written env ready offset block posted) posted s.acbs,
        )

    abbrev pub after_readv : env.requests.Shm → Client env
    after_readv shm = record ready {
      id = suc s.id;
      request_msg = read_request (read_next env ready offset block posted);
      outgoing = shm;
    }

    pub co_readv-post :
        (shm : env.requests.Shm)
        → size ≤ max_data_size
        → env.requests.send s.request_mq
            (read_request (read_next env ready offset block posted))
            s.outgoing
          ≡ some shm
        → co_readv env sector_num nb_sectors qiov s ≡ ok (yielded block) (after_readv shm)
    unfolding co_readv shared_mem_readv
    co_readv-post shm small sent =
        let live = find-cons_self block posted s.acbs in
        ground (
          arith,
          update-cons_self block posted raw_acb s.acbs,
          send_readv-post env ready offset block posted shm live small sent,
        )

    -- An aligned write of at most `max_data_size` bytes, with room in the request queue: one message
    -- is posted, whose array begins with the bytes of the vector, the client's counter goes up by
    -- one, the coroutine's result is 0, and afterwards no block is left over.
    pub co_writev_completes :
        size ≤ max_data_size
        → length (env.requests.messages s.request_mq s.outgoing)
          < env.requests.capacity s.request_mq s.outgoing
        → (s' s'' : Client env) × (co_writev env sector_num nb_sectors qiov s
            ≡ ok (yielded block) s')
          × (complete_aio env block s' ≡ ok (pos 0) s'')
          × (env.requests.messages s.request_mq s''.outgoing
              ≡ env.requests.messages s.request_mq s.outgoing
                ++ write_request (write_next env ready offset block posted) ∷ [])
          × (s''.acbs ≡ s.acbs)
          × (s''.id ≡ s.id + 1)
    co_writev_completes small room =
        let m : Request = write_request (write_next env ready offset block posted) in
        let (shm, sent) = env.requests.send_room s.request_mq m s.outgoing room in
        let done = written env ready offset block posted in
        (
          after_writev shm,
          record (after_writev shm) { acbs = s.acbs },
          co_writev-post shm small sent,
          complete_aio-done env (after_writev shm) block done (find-cons_self block done s.acbs)
                refl
              ∙ rw (free-cons_self block done s.acbs) refl,
          (env.requests.send_messages s.request_mq m s.outgoing shm sent).0,
          refl,
          omega arith,
        )

-- A request that a caller tries this many times, whatever it returns.
unfoldable pub tries : (env : Env) → ℕ → ℤ → ℤ → List Bytes → Bool → M (Client env) (Unit {0})
tries env zero sector_num nb_sectors qiov write s = ok tt s
tries env (suc n) sector_num nb_sectors qiov write s =
    (do
      _ ← co_rw env sector_num nb_sectors qiov write
      tries env n sector_num nb_sectors qiov write)
      s

-- Misaligned requests send nothing and use no request number, whatever their count, but each leaves
-- its control block allocated for good.
pub co_rw_misaligned :
    (env : Env) (sector_num nb_sectors : ℤ) (qiov : List Bytes) (write : Bool)
    → is_request_aligned env.bdrv_sector_size sector_num nb_sectors ≡ false
    → (n : ℕ) (s : Client env)
    → (s' : Client env) × (tries env n sector_num nb_sectors qiov write s ≡ ok tt s')
      × (length s'.acbs ≡ n + length s.acbs)
      × (s'.outgoing ≡ s.outgoing)
      × (s'.id ≡ s.id)
unfolding tries
co_rw_misaligned env sector_num nb_sectors qiov write e zero s = (s, refl, omega arith, refl, refl)
co_rw_misaligned env sector_num nb_sectors qiov write e (suc n) s =
    let t : Client env = record s { acbs = (env.slice_new (addresses s.acbs), raw_acb) ∷ s.acbs } in
    let (s', run, len, out, id) = co_rw_misaligned env sector_num nb_sectors qiov write e n t in
    let once = co_rw-misaligned_once env s sector_num nb_sectors qiov write e in
    (s', ground (arith, once, run), omega (arith, len), out, id)
