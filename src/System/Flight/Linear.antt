-- ===== src/System/Flight/Linear.antt =====
-- Every reachable state of a flight is one of an array of bytes with requests in their order.
use qemu_cvbd_shraed_memory.Common.{ℕ, ◌≡◌, ◌≢◌, refl, ap, ◌∙◌, List, [], ◌++◌, All, length, some}
use qemu_cvbd_shraed_memory.Common.Store.{find}
use qemu_cvbd_shraed_memory.Iov.{Bytes}
use qemu_cvbd_shraed_memory.Message.{Request, Reply}
use qemu_cvbd_shraed_memory.Host.{Env}
use qemu_cvbd_shraed_memory.Server.{VolumeState, handle_requests}
use qemu_cvbd_shraed_memory.AsyncClient.{Client, co_reply_round, getsize_volume}
use qemu_cvbd_shraed_memory.Cvbd.{co_readv, co_writev, co_flush_to_disk, complete_aio}
use qemu_cvbd_shraed_memory.System.{System, client_view, after_client}
use qemu_cvbd_shraed_memory.System.Steps.{on_client-returns, on_server-returns}
use qemu_cvbd_shraed_memory.System.Sequential.{Reliable, IsInside, after_all, heard_all}
use qemu_cvbd_shraed_memory.System.Flight.{
  Step, start_read, start_write, start_flush, ask_size, serve, answer, go_on, Reach, here, next,
  queued, answers, Inv,
}
use qemu_cvbd_shraed_memory.System.Flight.Logs.{
  sends, Starts, sends_in, takes_in, all_sent, all_taken, start_read-sends, start_write-sends,
  start_flush-sends, ask_size-sends,
}
use qemu_cvbd_shraed_memory.Cvbd.Woken.{complete_aio-returns}
use qemu_cvbd_shraed_memory.System.Flight.Safety.{quiet-Inv, Reach-Inv}
use qemu_cvbd_shraed_memory.System.Flight.Order.{All-left, Ordered, started-Ordered}
use qemu_cvbd_shraed_memory.System.Flight.Turns.{serve-Ordered, answer-Ordered, resume-Ordered}

module _ (env : Env) (v : VolumeState) (volume : ℕ) (nonnull : volume ≢ 0) (disk : Bytes)
    (reliable : Reliable env.host v.fd) where
  abbrev pub capacity : System env → ℕ
  capacity t = env.replies.capacity v.reply_mq t.server.outgoing

  started :
      (sent : List Request) (taken : List Reply) (done : List Request) (t u : System env)
      (c : Client env)
      → u ≡ after_client env t c
      → Starts env t c
      → Ordered env v disk sent taken done t
      → Ordered env v disk (sent ++ sends env t u) (taken ++ []) done u × (capacity u ≡ capacity t)
  started sent taken done t u c same starts o = rw same (
    started-Ordered env v disk sent taken done t c starts o,
    ap (λ x. env.replies.capacity v.reply_mq x) (starts.2),
  )

  pub step-Ordered :
      (sent : List Request) (taken : List Reply) (done : List Request) (t u : System env)
      (step : Step env t u)
      → Inv env v t
      → All (IsInside volume (length disk)) sent
      → Ordered env v disk sent taken done t
      → (done' : List Request) × Ordered env v disk
          (sent ++ sends_in step)
          (taken ++ takes_in step)
          done'
          u
        × (capacity u ≡ capacity t)
  step-Ordered sent taken done t u (start_read x n qiov r e) inv inside o =
      let (c, run, same) = on_client-returns env (co_readv env x n qiov) t u r e in
      let (order, room) =
        started sent taken done t u c same (start_read-sends env t x n qiov r c run) o in
      (done, order, room)
  step-Ordered sent taken done t u (start_write x n qiov r e) inv inside o =
      let (c, run, same) = on_client-returns env (co_writev env x n qiov) t u r e in
      let (order, room) =
        started sent taken done t u c same (start_write-sends env t x n qiov r c run) o in
      (done, order, room)
  step-Ordered sent taken done t u (start_flush r e) inv inside o =
      let (c, run, same) = on_client-returns env (co_flush_to_disk env) t u r e in
      let (order, room) = started sent taken done t u c same (start_flush-sends env t r c run) o in
      (done, order, room)
  step-Ordered sent taken done t u (ask_size size e) inv inside o =
      let (c, run, same) = on_client-returns env (getsize_volume env) t u size e in
      let (order, room) = started sent taken done t u c same (ask_size-sends env t size c run) o in
      (done, order, room)
  step-Ordered sent taken done t u (serve go e) inv inside o =
      let (x, run, same) = on_server-returns env (handle_requests env 1) t u go e in
      rw same
        (serve-Ordered env v volume nonnull disk sent taken done t inv o reliable go x inside run)
  step-Ordered sent taken done t u (answer go e) inv inside o =
      let (c, run, same) = on_client-returns env (co_reply_round env) t u go e in
      let (order, room) =
        answer-Ordered env v volume nonnull disk sent taken done t inv o go c run in
      (done, rw same order, rw same room)
  step-Ordered sent taken done t u (go_on a acb result there woken e) inv inside o =
      let (c, run, same) = on_client-returns env (complete_aio env a) t u result e in
      let is = complete_aio-returns env (client_view env t) a acb there result c run in
      (
        done,
        rw (same, ← is)
            (resume-Ordered env v volume nonnull disk sent taken done t inv o _ refl refl refl
              refl),
        rw (same, ← is) refl,
      )

  pub reach-Ordered :
      (s t : System env) (reached : Reach env s t)
      → Inv env v s
      → queued env s ≡ []
      → answers env s ≡ []
      → env.host.contents v.fd s.server.disk ≡ disk
      → All (IsInside volume (length disk)) (all_sent reached)
      → (done : List Request) × Ordered env v disk (all_sent reached) (all_taken reached) done t
        × (capacity t ≡ capacity s)
  reach-Ordered s t here inv none_queued none_answered bytes inside =
      ([], record { served = none_queued; bytes = bytes; told = none_answered }, refl)
  reach-Ordered s u (next {t = t} before step) inv none_queued none_answered bytes inside =
      let inside' =
        All-left (IsInside volume (length disk)) (all_sent before) (sends_in step) inside in
      let (done, o, cap) = reach-Ordered s t before inv none_queued none_answered bytes inside' in
      let (done', o', cap') =
        step-Ordered (all_sent before) (all_taken before) done t u step
          (Reach-Inv env v s t inv before) inside' o in
      (done', o', cap' ∙ cap)

-- A client with an open volume, no block and two empty queues, and a server with the volume's
-- state that uses the same queues; calls on the volume's file inside it are not cut short, and `fsync`
-- and `fstat` succeed. After any sequence of steps in which every message that was posted is a write or
-- a read inside the file, a flush, or a request for the size: some of the messages are done and the
-- others are the request queue, all in the order in which they were posted; the file holds the bytes on
-- which the ones that are done took effect one after the other; and the answers that the reply thread
-- took, and then those in its queue, are what each of them hears of the bytes at its turn.
pub flight-Ordered :
    (env : Env) (v : VolumeState) (s t : System env) (reliable : Reliable env.host v.fd)
    (reached : Reach env s t)
    → s.client.volume ≢ 0
    → find s.client.volume s.server.heap ≡ some v
    → s.server.request_mq ≡ s.client.request_mq
    → v.reply_mq ≡ s.client.reply_mq
    → queued env s ≡ []
    → answers env s ≡ []
    → s.client.acbs ≡ []
    → All
        (IsInside s.client.volume (length (env.host.contents v.fd s.server.disk)))
        (all_sent reached)
    → (done : List Request) × (done ++ queued env t ≡ all_sent reached)
      × (env.host.contents v.fd t.server.disk
          ≡ after_all done (env.host.contents v.fd s.server.disk))
      × (all_taken reached ++ answers env t ≡ heard_all done (env.host.contents v.fd s.server.disk))
flight-Ordered env v s t reliable reached nonnull live sq sr na nb no_blocks inside =
    let inv = quiet-Inv env v s t nonnull live sq sr na nb no_blocks in
    let (done, o, cap) =
      reach-Ordered env v s.client.volume nonnull (env.host.contents v.fd s.server.disk) reliable s
        t reached inv na nb refl inside in
    (done, o.served, o.bytes, o.told)
