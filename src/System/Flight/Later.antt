-- ===== src/System/Flight/Later.antt =====
-- A read under way stays so, or comes to its end, in every order of the other steps.
use qemu_cvbd_shraed_memory.Common.{
  ℕ, ◌≢◌, sym, subst, List, ◌++◌, append-nil, append_assoc, All, length,
}
use qemu_cvbd_shraed_memory.Iov.{Bytes}
use qemu_cvbd_shraed_memory.Message.{Request, Reply, ReadReply}
use qemu_cvbd_shraed_memory.Host.{Env}
use qemu_cvbd_shraed_memory.Server.{VolumeState, handle_requests}
use qemu_cvbd_shraed_memory.AsyncClient.{co_reply_round, getsize_volume}
use qemu_cvbd_shraed_memory.Cvbd.{co_readv, co_writev, co_flush_to_disk, complete_aio}
use qemu_cvbd_shraed_memory.Cvbd.Woken.{complete_aio-returns}
use qemu_cvbd_shraed_memory.System.{System, client_view}
use qemu_cvbd_shraed_memory.System.Steps.{on_client-returns, on_server-returns}
use qemu_cvbd_shraed_memory.System.Sequential.{Reliable, IsInside}
use qemu_cvbd_shraed_memory.System.Flight.{
  Step, start_read, start_write, start_flush, ask_size, serve, answer, go_on, Reach, here, next,
  Inv,
}
use qemu_cvbd_shraed_memory.System.Flight.Logs.{
  sends_in, takes_in, all_sent, all_taken, start_read-sends, start_write-sends, start_flush-sends,
  ask_size-sends,
}
use qemu_cvbd_shraed_memory.System.Flight.Safety.{Step-Inv, Reach-Inv}
use qemu_cvbd_shraed_memory.System.Flight.Order.{All-left, Ordered}
use qemu_cvbd_shraed_memory.System.Flight.Linear.{step-Ordered}
use qemu_cvbd_shraed_memory.System.Flight.Futures.{future-serve}
use qemu_cvbd_shraed_memory.System.Flight.Blocks.{
  start_read-keeps, start_write-keeps, start_flush-keeps, ask_size-keeps,
}
use qemu_cvbd_shraed_memory.System.Flight.Reads.{
  Reading, keeps-Reading, started-Reading, answer-Reading, resumed-Reading,
}

-- The coroutine that waits for the block at this address does not go on.
abbrev pub Rests : {env : Env} {s t : System env} → ℕ → Step env s t → Type 0
Rests a (go_on b _ _ _ _ _) = b ≢ a
Rests a other = Unit {0}

abbrev pub AllRest : {env : Env} {s t : System env} → ℕ → Reach env s t → Type 0
AllRest a here = Unit {0}
AllRest a (next before step) = AllRest a before × Rests a step

module _ (env : Env) (v : VolumeState) (volume : ℕ) (nonnull : volume ≢ 0) (disk : Bytes)
    (reliable : Reliable env.host v.fd) (a : ℕ) (text : Bytes) (reply : ReadReply) where
  step-Reading :
      (sent : List Request) (taken : List Reply) (done done' : List Request) (t u : System env)
      (step : Step env t u)
      → Inv env v t
      → Inv env v u
      → Ordered env v disk sent taken done t
      → Ordered env v disk (sent ++ sends_in step) (taken ++ takes_in step) done' u
      → Rests a step
      → Reading env v a text reply t
      → Reading env v a text reply u
  step-Reading sent taken done done' t u (start_read x n qiov r e) inv inv' o o' rests reading =
      let (c, run, same) = on_client-returns env (co_readv env x n qiov) t u r e in
      rw same (
        started-Reading env v a text reply t c reading inv (rw same at inv')
          (start_read-sends env t x n qiov r c run)
          (start_read-keeps env (client_view env t) c a reading.acb reading.live x n qiov r run))
  step-Reading sent taken done done' t u (start_write x n qiov r e) inv inv' o o' rests reading =
      let (c, run, same) = on_client-returns env (co_writev env x n qiov) t u r e in
      rw same (
        started-Reading env v a text reply t c reading inv (rw same at inv')
          (start_write-sends env t x n qiov r c run)
          (start_write-keeps env (client_view env t) c a reading.acb reading.live x n qiov r run))
  step-Reading sent taken done done' t u (start_flush r e) inv inv' o o' rests reading =
      let (c, run, same) = on_client-returns env (co_flush_to_disk env) t u r e in
      rw same (
        started-Reading env v a text reply t c reading inv (rw same at inv')
          (start_flush-sends env t r c run)
          (start_flush-keeps env (client_view env t) c a reading.acb reading.live r run))
  step-Reading sent taken done done' t u (ask_size size e) inv inv' o o' rests reading =
      let (c, run, same) = on_client-returns env (getsize_volume env) t u size e in
      rw same (
        started-Reading env v a text reply t c reading inv (rw same at inv')
          (ask_size-sends env t size c run)
          (ask_size-keeps env (client_view env t) c a reading.acb reading.live size run))
  step-Reading sent taken done done' t u (serve go e) inv inv' o o' rests reading =
      let (x, run, same) = on_server-returns env (handle_requests env 1) t u go e in
      let unchanged =
        future-serve env v disk sent taken done done' t u o
          (rw (append-nil sent, append-nil taken) at o') in
      keeps-Reading env v a text reply t u reading (rw same reading.live)
        (λ before. rw unchanged before)
  step-Reading sent taken done done' t u (answer go e) inv inv' o o' rests reading =
      let (c, run, same) = on_client-returns env (co_reply_round env) t u go e in
      rw same (answer-Reading env v a text reply t go c inv run reading)
  step-Reading sent taken done done' t u (go_on b acb result there woken e) inv inv' o o' rests
        reading =
      let (c, run, same) = on_client-returns env (complete_aio env b) t u result e in
      rw same (
        resumed-Reading env v a text reply t b c inv rests
          (complete_aio-returns env (client_view env t) b acb there result c run) reading)

  pub reach-Reading :
      (sent : List Request) (taken : List Reply) (done : List Request) (u w : System env)
      (later : Reach env u w)
      → Inv env v u
      → Ordered env v disk sent taken done u
      → All (IsInside volume (length disk)) (sent ++ all_sent later)
      → AllRest a later
      → Reading env v a text reply u
      → (done' : List Request) × Ordered env v disk
          (sent ++ all_sent later)
          (taken ++ all_taken later)
          done'
          w
        × Reading env v a text reply w
  reach-Reading sent taken done u w here inv o inside rest reading =
      (done, rw (append-nil sent, append-nil taken) o, reading)
  reach-Reading sent taken done u x (next {t = w} before step) inv o inside rest reading =
      let P = IsInside volume (length disk) in
      let sent_now = append_assoc sent (all_sent before) (sends_in step) in
      let taken_now = append_assoc taken (all_taken before) (takes_in step) in
      let inside' =
        All-left P (sent ++ all_sent before) (sends_in step)
          (subst (All P) (sym sent_now) inside) in
      let (done', o', reading') =
        reach-Reading sent taken done u w before inv o inside' rest.0 reading in
      let inv' = Reach-Inv env v u w inv before in
      let (done'', o'', cap) =
        step-Ordered env v volume nonnull disk reliable (sent ++ all_sent before)
          (taken ++ all_taken before) done' w x step inv' inside' o' in
      (
        done'',
        subst (λ xs. Ordered env v disk xs (taken ++ all_taken (next before step)) done'' x)
            sent_now
            (subst
              (λ ys. Ordered env v disk ((sent ++ all_sent before) ++ sends_in step) ys done'' x)
              taken_now o''),
        step-Reading (sent ++ all_sent before) (taken ++ all_taken before) done' done'' w x step
            inv' (Step-Inv env v w x step inv').0 o' o'' rest.1 reading',
      )
