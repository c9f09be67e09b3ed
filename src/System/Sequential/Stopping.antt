-- ===== src/System/Sequential/Stopping.antt =====
-- SharedMemServer.h: the loop of `handle_requests` serves what lies before the first stop message, and
-- ends there.
use qemu_cvbd_shraed_memory.Common.{
  ℕ, zero, suc, ◌+◌, ◌≡◌, ◌≢◌, ◌≤◌, ◌<◌, ◌∙◌, true, false, some, List, [], ◌∷◌, ◌++◌, append-nil,
  append_assoc, All, length, length-append, arith,
}
use qemu_cvbd_shraed_memory.Common.Outcome.{ok}
use qemu_cvbd_shraed_memory.Iov.{Bytes}
use qemu_cvbd_shraed_memory.Message.{Request, Reply, header_of}
use qemu_cvbd_shraed_memory.Host.{Env}
use qemu_cvbd_shraed_memory.Server.{VolumeState, Server, round, handle_requests}
use qemu_cvbd_shraed_memory.System.Sequential.{
  Reliable, Stands, IsInside, after, heard, after_all, heard_all,
}
use qemu_cvbd_shraed_memory.System.Sequential.Serving.{
  serve_first, one_more, length-after, length-heard,
}

module _ (env : Env) (volume : ℕ) (v : VolumeState) (nonnull : volume ≢ 0)
    (reliable : Reliable env.host v.fd) (q : ℕ) where
  -- A stop message ends the loop in the round that takes it, and changes nothing but the queue.
  stop_first :
      (disk : Bytes) (rest : List Request) (sent : List Reply) (s : Server env) (m : Request)
      (n : ℕ)
      → Stands env volume v q disk (m ∷ rest) sent s
      → (header_of m).stop ≡ true
      → (t : Server env) × (handle_requests env (suc n) s ≡ ok false t)
        × Stands env volume v q disk rest sent t
  unfolding handle_requests round
  stop_first disk rest sent s m n stands stop =
      let (shm, taken, left, kept) = env.requests.receive_first q m rest s.incoming stands.queue in
      let taken' : env.requests.receive s.request_mq s.incoming ≡ some (m, shm) =
        rw stands.one_queue taken in
      (
        record s { incoming = shm },
        ground (arith, taken', stop),
        record {
          one_queue = stands.one_queue;
          live = stands.live;
          bytes = stands.bytes;
          queue = left;
          answers = stands.answers;
        },
      )

  -- A server that stands for the bytes of a live volume, whose queue begins with writes and reads
  -- inside the volume, flushes and requests for the size, in any number and order, and then a stop
  -- message; calls on the volume's file inside it are not cut short, `fsync` and `fstat` succeed, and
  -- the reply queue has room for an answer to each request. Given more rounds than there are requests
  -- before the stop message, the loop of the request thread returns at the stop message: it has served
  -- each of these requests, in their order, so that the file holds the bytes on which they took effect
  -- one after the other and the answers are what each hears of the bytes at its turn; and it has
  -- served nothing of what lies behind the stop message, which is still in the queue.
  pub handle_requests-stop :
      (disk : Bytes) (ms rest : List Request) (sent : List Reply) (s : Server env) (m : Request)
      (n : ℕ)
      → Stands env volume v q disk (ms ++ m ∷ rest) sent s
      → All (IsInside volume (length disk)) ms
      → (header_of m).stop ≡ true
      → length sent + length ms ≤ env.replies.capacity v.reply_mq s.outgoing
      → length ms < n
      → (t : Server env) × (handle_requests env n s ≡ ok false t)
        × Stands env volume v q (after_all ms disk) rest (sent ++ heard_all ms disk) t
  handle_requests-stop disk ms rest sent s m zero stands inside stop room enough =
      absurd (omega (arith, enough))
  handle_requests-stop disk [] rest sent s m (suc n) stands inside stop room enough =
      rw (append-nil sent) (stop_first disk rest sent s m n stands stop)
  handle_requests-stop disk (r ∷ ms) rest sent s m (suc n) stands inside stop room enough =
      let (t, first, cap, stands') =
        serve_first env volume v nonnull reliable q disk (ms ++ m ∷ rest) sent s r stands inside.0
          (λ a e.
            env.replies.send_room v.reply_mq a s.outgoing
              (rw stands.answers (omega (arith, room)))) in
      let same = length-after env volume v nonnull r disk inside.0 in
      let one = length-heard env volume v nonnull r disk in
      let (u, run, stands'') =
        handle_requests-stop (after r disk) ms rest (sent ++ heard r disk) t m n stands'
          (rw same inside.1) stop
          (rw cap (omega (arith, room, one, length-append sent (heard r disk))))
          (omega (arith, enough)) in
      (
        u,
        one_more env volume v nonnull n s t first ∙ run,
        rw (← append_assoc sent (heard r disk) (heard_all ms (after r disk))) stands'',
      )
