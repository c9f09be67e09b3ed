-- ===== src/System/Flight/Starts.antt =====
-- Starting a request keeps the count of answers.
use qemu_cvbd_shraed_memory.Common.{
  All, All-append, ℕ, ◌+◌, ◌≡◌, ◌≢◌, refl, sym, subst, ◌∙◌, inl, inr, Bool-cases, none, some, List,
  true, if◌then◌else◌, [], ◌∷◌, ◌++◌, append-nil, arith, ◌==◌,
}
use qemu_cvbd_shraed_memory.Common.Int.{ℤ}
use qemu_cvbd_shraed_memory.Common.Outcome.{ok}
use qemu_cvbd_shraed_memory.Common.Store.{addresses, find, find-cons, find-Fresh}
use qemu_cvbd_shraed_memory.Iov.{Bytes}
use qemu_cvbd_shraed_memory.Message.{
  Request, write_request, read_request, fsync_request, getsize_request,
}
use qemu_cvbd_shraed_memory.Host.{Env}
use qemu_cvbd_shraed_memory.Server.{VolumeState}
use qemu_cvbd_shraed_memory.Aio.{Acb}
use qemu_cvbd_shraed_memory.AsyncClient.{Client, getsize_volume}
use qemu_cvbd_shraed_memory.AsyncClient.Posts.{
  write_next, read_next, written, size_header, getsize-returns,
}
use qemu_cvbd_shraed_memory.Cvbd.{Started, raw_acb, co_readv, co_writev, co_flush_to_disk}
use qemu_cvbd_shraed_memory.Cvbd.Flush.{waiting_acb, flush_header}
use qemu_cvbd_shraed_memory.Cvbd.Requests.{offset, posted, ready}
use qemu_cvbd_shraed_memory.Cvbd.Returns.{co_readv-returns, co_writev-returns, co_flush-returns}
use qemu_cvbd_shraed_memory.System.{System, client_view, after_client}
use qemu_cvbd_shraed_memory.System.Flight.{asked, told, IsSent, Settles, queued, answers, Inv}
use qemu_cvbd_shraed_memory.System.Flight.Counts.{asked-append}

module _ (env : Env) (v : VolumeState) (s : System env) (inv : Inv env v s) where
  abbrev a0 : ℕ
  a0 = env.slice_new (addresses s.client.acbs)

  unused : find a0 s.client.acbs ≡ none
  unused = find-Fresh a0 s.client.acbs (env.slice_fresh (addresses s.client.acbs))

  -- A client that has a new block, and has posted at most one request, which names this block.
  start-Inv :
      (c : Client env) (acb : Acb) (extra : List Request)
      → c.volume ≡ s.client.volume
      → c.request_mq ≡ s.client.request_mq
      → c.reply_mq ≡ s.client.reply_mq
      → c.incoming ≡ s.server.outgoing
      → c.acbs ≡ (a0, acb) ∷ s.client.acbs
      → env.requests.messages s.client.request_mq c.outgoing ≡ queued env s ++ extra
      → All (IsSent s.client.volume) extra
      → Settles (some acb) (asked extra a0)
      → ((a : ℕ) → a0 ≢ a → asked extra a ≡ 0)
      → (acb.scheduled ≢ 0 → acb.bh ≡ true)
      → Inv env v (after_client env s c)
  start-Inv c acb extra sv sq sr si sa sm es settled others half = record {
    nonnull = rw sv inv.nonnull;
    live = rw sv inv.live;
    one_request_mq = rw sq inv.one_request_mq;
    one_reply_mq = rw sr inv.one_reply_mq;
    sent = rw (sq, sm, sv) (All-append (IsSent s.client.volume) (queued env s) extra inv.sent es);
    answered = rw (sr, si, sv) inv.answered;
    blocks = λ a. rw (sq, sr, si, sa, sm, asked-append (queued env s) extra a) (settle a);
    halves = λ a other. rw (sa, find-cons a0 a acb s.client.acbs) (half_at a other);
    distinct = rw sa (unused, inv.distinct);
    no_null =
        rw (sa, find-cons a0 0 acb s.client.acbs)
          (ground (arith, env.slice_nonnull (addresses s.client.acbs), inv.no_null));
  }
    where
      half_at :
          (a : ℕ) (other : Acb)
          → (if a0 == a then some acb else find a s.client.acbs) ≡ some other
          → other.scheduled ≢ 0
          → other.bh ≡ true
      half_at a other there woken = elim (Bool-cases (a0 == a)) [
        | inl same ↦
            let e : acb ≡ other = ground arith in
            subst (λ x. x.bh ≡ true) e (half (subst (λ x. x.scheduled ≢ 0) (sym e) woken))
        | inr differ ↦ inv.halves a other (rw differ at there) woken
      ]

      settle :
          (a : ℕ)
          → Settles
              (find a ((a0, acb) ∷ s.client.acbs))
              (asked (queued env s) a + asked extra a + told (answers env s) a)
      settle a = elim (Bool-cases (a0 == a)) [
        | inl same ↦
            let e : a0 ≡ a = ground arith in
            let here : find a ((a0, acb) ∷ s.client.acbs) ≡ some acb =
              find-cons a0 a acb s.client.acbs ∙ rw same refl in
            let none_before : find a s.client.acbs ≡ none =
              subst (λ x. find x s.client.acbs ≡ none) e unused in
            let zero_before = rw none_before at (inv.blocks a) in
            let n : asked (queued env s) a + asked extra a + told (answers env s) a
                ≡ asked extra a =
              omega (arith, zero_before) in
            rw (here, n) (subst (λ x. Settles (some acb) (asked extra x)) e settled)
        | inr other ↦
            let there : find a ((a0, acb) ∷ s.client.acbs) ≡ find a s.client.acbs =
              find-cons a0 a acb s.client.acbs ∙ rw other refl in
            let zero_extra = others a (ground arith) in
            let n : asked (queued env s) a + asked extra a + told (answers env s) a
                ≡ asked (queued env s) a + told (answers env s) a =
              omega (arith, zero_extra) in
            rw (there, n) (inv.blocks a)
      ]

  -- A client that has posted a request which names no block.
  pub ask_size-Inv :
      (size : ℤ) (c : Client env)
      → getsize_volume env (client_view env s) ≡ ok size c
      → Inv env v (after_client env s c)
  ask_size-Inv size c e =
      let view = client_view env s in
      let (shm, sent, done) = getsize-returns env view size c e in
      let m : Request = getsize_request (size_header env view) in
      let grown = (env.requests.send_messages s.client.request_mq m s.server.incoming shm sent).0 in
      rw done (record {
        nonnull = inv.nonnull;
        live = inv.live;
        one_request_mq = inv.one_request_mq;
        one_reply_mq = inv.one_reply_mq;
        sent = rw grown (
            All-append (IsSent s.client.volume) (queued env s) (m ∷ []) inv.sent
              ((refl, refl, refl), tt));
        answered = inv.answered;
        blocks = λ a.
            let n : asked (queued env s) a + asked (m ∷ []) a + told (answers env s) a
                ≡ asked (queued env s) a + told (answers env s) a =
              omega arith in
            rw (grown, asked-append (queued env s) (m ∷ []) a, n) (inv.blocks a);
        halves = inv.halves;
        distinct = inv.distinct;
        no_null = inv.no_null;
      })

  pub start_read-Inv :
      (sector_num nb_sectors : ℤ) (qiov : List Bytes) (r : Started) (c : Client env)
      → co_readv env sector_num nb_sectors qiov (client_view env s) ≡ ok r c
      → Inv env v (after_client env s c)
  start_read-Inv sector_num nb_sectors qiov r c e =
      let view = client_view env s in
      elim (co_readv-returns env view sector_num nb_sectors qiov r c e) [
        | inl leak ↦ rw leak (
            start-Inv _ raw_acb [] refl refl refl refl refl (sym (append-nil (queued env s))) tt
              refl (λ a n. refl) (λ n. absurd (n refl)))
        | inr (al, shm, sent, done) ↦
            let p = posted env view sector_num nb_sectors qiov in
            let m : Request = read_request (
              read_next env (ready env view sector_num nb_sectors qiov)
                (offset env view sector_num nb_sectors qiov) a0 p) in
            let grown =
              (env.requests.send_messages s.client.request_mq m s.server.incoming shm sent).0 in
            rw done (
              start-Inv _ p (m ∷ []) refl refl refl refl refl grown ((refl, refl, refl), tt)
                (ground arith) (λ a n. ground arith) (λ n. absurd (n refl)))
      ]

  pub start_write-Inv :
      (sector_num nb_sectors : ℤ) (qiov : List Bytes) (r : Started) (c : Client env)
      → co_writev env sector_num nb_sectors qiov (client_view env s) ≡ ok r c
      → Inv env v (after_client env s c)
  start_write-Inv sector_num nb_sectors qiov r c e =
      let view = client_view env s in
      elim (co_writev-returns env view sector_num nb_sectors qiov r c e) [
        | inl leak ↦ rw leak (
            start-Inv _ raw_acb [] refl refl refl refl refl (sym (append-nil (queued env s))) tt
              refl (λ a n. refl) (λ n. absurd (n refl)))
        | inr (al, shm, sent, done) ↦
            let p = posted env view sector_num nb_sectors qiov in
            let w =
              write_next env (ready env view sector_num nb_sectors qiov)
                (offset env view sector_num nb_sectors qiov) a0 p in
            let m : Request = write_request w in
            let grown =
              (env.requests.send_messages s.client.request_mq m s.server.incoming shm sent).0 in
            let done_acb =
              written env (ready env view sector_num nb_sectors qiov)
                (offset env view sector_num nb_sectors qiov) a0 p in
            rw done (
              start-Inv _ done_acb (m ∷ []) refl refl refl refl refl grown ((refl, refl, refl), tt)
                (omega arith) (λ a n. refl) (λ n. refl))
      ]

  pub start_flush-Inv :
      (r : Started) (c : Client env)
      → co_flush_to_disk env (client_view env s) ≡ ok r c
      → Inv env v (after_client env s c)
  start_flush-Inv r c e =
      let view = client_view env s in
      let (shm, sent, done) = co_flush-returns env view r c e in
      let m : Request = fsync_request (flush_header env view) in
      let grown = (env.requests.send_messages s.client.request_mq m s.server.incoming shm sent).0 in
      rw done (
        start-Inv _ waiting_acb (m ∷ []) refl refl refl refl refl grown ((refl, refl, refl), tt)
          (ground arith) (λ a n. ground arith) (λ n. absurd (n refl)))
