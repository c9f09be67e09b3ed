-- ===== src/System/Sequential/Shared/Serves.antt =====
-- One request after the other, of all volumes.
use qemu_cvbd_shraed_memory.Common.{
  ℕ, suc, ◌+◌, ◌≡◌, ◌≢◌, ◌≤◌, ◌<◌, refl, sym, ap, ◌∙◌, subst, Bool-cases, inl, inr, true, some,
  List, [], ◌∷◌, ◌++◌, length, All, append-nil, append_assoc, length-append, arith, ◌==◌,
}
use qemu_cvbd_shraed_memory.Common.Outcome.{ok}
use qemu_cvbd_shraed_memory.Common.Store.{Store, find}
use qemu_cvbd_shraed_memory.Iov.{Bytes}
use qemu_cvbd_shraed_memory.Message.{Request, header_of, Reply}
use qemu_cvbd_shraed_memory.Host.{Env}
use qemu_cvbd_shraed_memory.Server.{VolumeState, Server, handle_requests}
use qemu_cvbd_shraed_memory.System.Steps.{serve-returns}
use qemu_cvbd_shraed_memory.System.Sequential.{
  Reliable, Stands, IsInside, after, heard, after_all, heard_all,
}
use qemu_cvbd_shraed_memory.System.Sequential.Serving.{
  serve_first, one_more, length-heard, length-after,
}
use qemu_cvbd_shraed_memory.System.Sequential.Several.{
  Apart, Leaves, goes_on, dispatch-Leaves, dispatch-heap,
}
use qemu_cvbd_shraed_memory.System.Sequential.Shared.{
  own, after-own, heard-own, Shares, IsFor, HasRoom,
}

module _ (env : Env) (heap : Store VolumeState) (q : ℕ) where
  open env use {host, requests, replies}

  module _ (reliable : (a : ℕ) (v : VolumeState) → find a heap ≡ some v → Reliable host v.fd)
      (separate : (a b : ℕ) (v w : VolumeState)
        → find a heap ≡ some v
        → find b heap ≡ some w
        → a ≢ b
        → Apart env v w)
      (size : ℕ → ℕ) where
    module _ (bytes : ℕ → Bytes) (sent : ℕ → List Reply) (m : Request) (ms : List Request)
        (s : Server env) (shares : Shares env heap q bytes sent (m ∷ ms) s)
        (room : HasRoom env heap q sent (m ∷ ms) s) where
      abbrev vol : ℕ
      vol = (header_of m).volume

      abbrev bytes_then : ℕ → Bytes
      bytes_then a = after_all (own a (m ∷ [])) (bytes a)

      abbrev sent_then : ℕ → List Reply
      sent_then a = sent a ++ heard_all (own a (m ∷ [])) (bytes a)

      module _ (v : VolumeState) (t : Server env) (live : find vol heap ≡ some v)
          (nonnull : vol ≢ 0) (objects : t.heap ≡ s.heap)
          (cap : replies.capacity v.reply_mq t.outgoing ≡ replies.capacity v.reply_mq s.outgoing)
          (now : Stands env vol v q (after m (bytes vol)) ms (sent vol ++ heard m (bytes vol)) t)
          (leaves : (b : ℕ) (w : VolumeState)
            → find b heap ≡ some w
            → vol ≢ b
            → Leaves env w s t) where
        -- What the request's own volume holds.
        abbrev Own : ℕ → Type 0
        Own a =
            (w : VolumeState)
            → find a heap ≡ some w
            → (host.contents w.fd t.disk ≡ after m (bytes a))
              × (replies.messages w.reply_mq t.outgoing ≡ sent a ++ heard m (bytes a))
              × (replies.capacity w.reply_mq t.outgoing ≡ replies.capacity w.reply_mq s.outgoing)

        Own-held : Own vol
        Own-held w there =
            let is : v ≡ w = cc (live, there) in
            subst
              (λ x.
                (host.contents x.fd t.disk ≡ after m (bytes vol))
                × (replies.messages x.reply_mq t.outgoing ≡ sent vol ++ heard m (bytes vol))
                × (replies.capacity x.reply_mq t.outgoing ≡ replies.capacity x.reply_mq s.outgoing))
              is (now.bytes, now.answers, cap)

        held_then :
            (a : ℕ) (w : VolumeState)
            → find a heap ≡ some w
            → (host.contents w.fd t.disk ≡ bytes_then a)
              × (replies.messages w.reply_mq t.outgoing ≡ sent_then a)
        held_then a w there = elim (Bool-cases (vol == a)) [
          | inl same ↦
              let (file, waiting, kept) =
                subst Own {x = vol} {y = a} (ground arith) Own-held w there in
              rw (same, append-nil) (file, waiting)
          | inr other ↦
              let kept = leaves a w there (ground arith) in
              let (file, waiting) = shares.held a w there in
              rw (other, append-nil) (kept.file ∙ file, kept.queue ∙ waiting)
        ]

        room_then : HasRoom env heap q sent_then ms t
        room_then a w there = elim (Bool-cases (vol == a)) [
          | inl same ↦
              let (file, waiting, kept) =
                subst Own {x = vol} {y = a} (ground arith) Own-held w there in
              let before : length (sent a) + suc (length (own a ms))
                  ≤ replies.capacity w.reply_mq s.outgoing =
                rw same at (room a w there) in
              rw (same, append-nil)
                (omega (
                  arith,
                  before,
                  kept,
                  length-heard env vol v nonnull m (bytes a),
                  length-append (sent a) (heard m (bytes a)),
                ))
          | inr other ↦
              let kept = (leaves a w there (ground arith)).room in
              let before : length (sent a) + length (own a ms)
                  ≤ replies.capacity w.reply_mq s.outgoing =
                rw other at (room a w there) in
              rw (other, append-nil) (omega (arith, before, kept))
        ]

        after_served :
            Shares env heap q bytes_then sent_then ms t × HasRoom env heap q sent_then ms t
        after_served = (
          record {
            one_queue = now.one_queue;
            objects = objects ∙ shares.objects;
            queue = now.queue;
            held = held_then;
          },
          room_then,
        )

      module _ (sizes : (a : ℕ) → length (bytes a) ≡ size a) (v : VolumeState)
          (live : find vol heap ≡ some v) (nonnull : vol ≢ 0)
          (inside : IsInside vol (size vol) m) where
        sizes_then : (a : ℕ) → length (bytes_then a) ≡ size a
        sizes_then a = elim (Bool-cases (vol == a)) [
          | inl same ↦
              let e : size vol ≡ length (bytes a) = ap size (ground arith) ∙ sym (sizes a) in
              rw same (
                length-after env vol v nonnull m (bytes a) (subst (λ k. IsInside vol k m) e inside)
                ∙ sizes a)
          | inr other ↦ rw other (sizes a)
        ]

        -- One request is served.
        serve_shared :
            (t : Server env) × (handle_requests env 1 s ≡ ok true t)
            × Shares env heap q bytes_then sent_then ms t
            × HasRoom env heap q sent_then ms t
        serve_shared =
            let (file, waiting) = shares.held vol v live in
            let self : (vol == vol) ≡ true = ground arith in
            let before : length (sent vol) + suc (length (own vol ms))
                ≤ replies.capacity v.reply_mq s.outgoing =
              rw self at (room vol v live) in
            let one_more_fits : length (replies.messages v.reply_mq s.outgoing)
                < replies.capacity v.reply_mq s.outgoing =
              omega (arith, before, ap (length {A = Reply}) waiting) in
            let here : find vol s.heap ≡ some v =
              subst (λ h. find vol h ≡ some v) (sym shares.objects) live in
            let (t, ran, cap, now) =
              serve_first env vol v nonnull (reliable vol v live) q (bytes vol) ms (sent vol) s m
                (record {
                  one_queue = shares.one_queue;
                  live = here;
                  bytes = file;
                  queue = shares.queue;
                  answers = waiting;
                })
                (subst (λ k. IsInside vol k m) (sym (sizes vol)) inside)
                (λ a hears. replies.send_room v.reply_mq a s.outgoing one_more_fits) in
            let (shm, left, dispatched) =
              serve-returns env s t m ms true
                (subst (λ k. requests.messages k s.incoming ≡ m ∷ ms) (sym shares.one_queue)
                  shares.queue)
                (goes_on vol (size vol) m inside) ran in
            let s' : Server env = record s { incoming = shm } in
            let (shares', room') =
              after_served v t live nonnull
                (dispatch-heap env v s' t (size vol) m inside nonnull here dispatched) cap now
                (λ b w there other.
                  let kept =
                    dispatch-Leaves env v w (separate vol b v w live there other) s' t (size vol) m
                      inside nonnull here dispatched in
                  record { file = kept.file; queue = kept.queue; room = kept.room }) in
            (t, ran, shares', room')

    -- A server whose one request queue holds writes and reads inside the volumes that they name,
    -- flushes and requests for the size, of any number of live volumes, in any order. The calls on a
    -- volume's file inside it are not cut short, `fsync` and `fstat` succeed, different volumes have
    -- different files and different reply queues, and each reply queue has room for the answers to its
    -- volume's requests. The request thread serves them all, one in each round. Then the request
    -- queue is empty and the volumes are the same objects; each volume's file holds the bytes on which
    -- its own requests took effect one after the other, and its reply queue has got what each of
    -- these hears of the bytes at its turn, as if no other volume's requests had been there.
    pub handle_requests-several :
        (bytes : ℕ → Bytes) (sent : ℕ → List Reply) (ms : List Request) (s : Server env)
        → ((a : ℕ) → length (bytes a) ≡ size a)
        → Shares env heap q bytes sent ms s
        → All (IsFor env heap q size) ms
        → HasRoom env heap q sent ms s
        → (t : Server env) × (handle_requests env (length ms) s ≡ ok true t)
          × Shares env heap q
              (λ a. after_all (own a ms) (bytes a))
              (λ a. sent a ++ heard_all (own a ms) (bytes a))
              []
              t
    unfolding handle_requests
    handle_requests-several bytes sent [] s sizes shares all room = (
      s,
      refl,
      record {
        one_queue = shares.one_queue;
        objects = shares.objects;
        queue = shares.queue;
        held = λ a v there. rw append-nil (shares.held a v there);
      },
    )
    handle_requests-several bytes sent (m ∷ ms) s sizes shares all room =
        let (v, live, nonnull, inside) = all.0 in
        let (t, ran, shares', room') =
          serve_shared bytes sent m ms s shares room sizes v live nonnull inside in
        let (u, run, shares'') =
          handle_requests-several (bytes_then bytes sent m ms s shares room)
            (sent_then bytes sent m ms s shares room) ms t
            (sizes_then bytes sent m ms s shares room sizes v live nonnull inside) shares' all.1
            room' in
        (
          u,
          one_more env (header_of m).volume v nonnull (length ms) s t ran ∙ run,
          record {
            one_queue = shares''.one_queue;
            objects = shares''.objects;
            queue = shares''.queue;
            held = λ a w there.
                let (file, waiting) = shares''.held a w there in
                (
                  file ∙ after-own a m ms (bytes a),
                  waiting
                      ∙ append_assoc (sent a) (heard_all (own a (m ∷ [])) (bytes a)) _
                      ∙ ap (λ xs. sent a ++ xs) (heard-own a m ms (bytes a)),
                );
          },
        )
