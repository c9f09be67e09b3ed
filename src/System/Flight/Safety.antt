-- ===== src/System/Flight/Safety.antt =====
-- What holds in every order of the steps of the coroutines, the server and the reply thread.
use qemu_cvbd_shraed_memory.Common.{
  ℕ, suc, ◌+◌, ◌≡◌, ◌≢◌, ◌≤◌, ◌<◌, ◌⊎◌, inl, inr, refl, true, some, List, [], ◌∷◌, length, arith,
}
use qemu_cvbd_shraed_memory.Common.Outcome.{ok, stopped, blocked}
use qemu_cvbd_shraed_memory.Common.Store.{find}
use qemu_cvbd_shraed_memory.Host.{Env}
use qemu_cvbd_shraed_memory.Server.{VolumeState, handle_requests}
use qemu_cvbd_shraed_memory.Message.{Reply}
use qemu_cvbd_shraed_memory.Aio.{Acb}
use qemu_cvbd_shraed_memory.AsyncClient.{co_reply_round, getsize_volume}
use qemu_cvbd_shraed_memory.Cvbd.{co_readv, co_writev, co_flush_to_disk, complete_aio}
use qemu_cvbd_shraed_memory.System.{System, client_view, after_client, on_client}
use qemu_cvbd_shraed_memory.System.Steps.{
  on_client-returns, on_server-returns, on_client-ok, on_client-stopped,
}
use qemu_cvbd_shraed_memory.System.Flight.{
  Step, start_read, start_write, start_flush, ask_size, serve, answer, go_on, Reach, here, next,
  queued, answers, Inv, work, asked, told,
}
use qemu_cvbd_shraed_memory.System.Flight.Starts.{
  start_read-Inv, start_write-Inv, start_flush-Inv, ask_size-Inv,
}
use qemu_cvbd_shraed_memory.System.Flight.Serves.{serve-Inv}
use qemu_cvbd_shraed_memory.System.Flight.Resumes.{resume-Inv}
use qemu_cvbd_shraed_memory.System.Flight.Answers.{answer_empty, answer_next, answer-Inv}

-- The steps that start a request.
abbrev pub IsStart : {env : Env} {s t : System env} → Step env s t → Type 0
IsStart (start_read _ _ _ _ _) = Unit {0}
IsStart (start_write _ _ _ _ _) = Unit {0}
IsStart (start_flush _ _) = Unit {0}
IsStart (ask_size _ _) = Unit {0}
IsStart other = ⊥

module _ (env : Env) (v : VolumeState) where
  pub Step-Inv :
      (s t : System env) (step : Step env s t)
      → Inv env v s
      → Inv env v t × (IsStart step ⊎ (work env t < work env s))
  Step-Inv s t (start_read x n q r e) inv =
      let (c, run, same) = on_client-returns env (co_readv env x n q) s t r e in
      (rw same (start_read-Inv env v s inv x n q r c run), inl tt)
  Step-Inv s t (start_write x n q r e) inv =
      let (c, run, same) = on_client-returns env (co_writev env x n q) s t r e in
      (rw same (start_write-Inv env v s inv x n q r c run), inl tt)
  Step-Inv s t (start_flush r e) inv =
      let (c, run, same) = on_client-returns env (co_flush_to_disk env) s t r e in
      (rw same (start_flush-Inv env v s inv r c run), inl tt)
  Step-Inv s t (ask_size size e) inv =
      let (c, run, same) = on_client-returns env (getsize_volume env) s t size e in
      (rw same (ask_size-Inv env v s inv size c run), inl tt)
  Step-Inv s t (serve go e) inv =
      let (u, run, same) = on_server-returns env (handle_requests env 1) s t go e in
      let (kept, less) = serve-Inv env v s inv go u run in (rw same kept, inr (rw same less))
  Step-Inv s t (answer go e) inv =
      let (c, run, same) = on_client-returns env (co_reply_round env) s t go e in
      let (kept, less) = answer-Inv env v s inv go c run in (rw same kept, inr (rw same less))
  Step-Inv s t (go_on a acb result there woken e) inv =
      let (c, run, same) = on_client-returns env (complete_aio env a) s t result e in
      let (kept, less) = resume-Inv env v s inv a acb result c there woken run in
      (rw same kept, inr (rw same less))

  pub Reach-Inv : (s t : System env) → Inv env v s → Reach env s t → Inv env v t
  Reach-Inv s t inv here = inv
  Reach-Inv s t inv (next before step) = (Step-Inv _ _ step (Reach-Inv s _ inv before)).0

-- Steps none of which starts a request.
pub data Settling (env : Env) (s : System env) : ℕ → System env → Type 0 where
  stay : Settling env s 0 s
  move :
      {n : ℕ} {t u : System env}
      → Settling env s n t
      → (step : Step env t u) → ¬ IsStart step
      → Settling env s (suc n) u

Settling-work :
    (env : Env) (v : VolumeState) (s t : System env) (n : ℕ)
    → Inv env v s
    → Settling env s n t
    → Inv env v t × (n + work env t ≤ work env s)
Settling-work env v s t n inv stay = (inv, omega arith)
Settling-work env v s u n inv (move {n = k} {t = t} before step other) =
    let (mid, bound) = Settling-work env v s t k inv before in
    let (kept, kind) = Step-Inv env v t u step mid in
    elim kind [ inl starts ↦ absurd (other starts) | inr less ↦ (kept, omega (arith, bound, less)) ]

-- From a client with an open volume, and nothing under way.
module _ (env : Env) (v : VolumeState) (s t : System env) (nonnull : s.client.volume ≢ 0)
    (live : find s.client.volume s.server.heap ≡ some v)
    (one_request_mq : s.server.request_mq ≡ s.client.request_mq)
    (one_reply_mq : v.reply_mq ≡ s.client.reply_mq) (nothing_asked : queued env s ≡ [])
    (nothing_answered : answers env s ≡ []) (no_blocks : s.client.acbs ≡ []) where
  pub quiet-Inv : Inv env v s
  unfolding find
  quiet-Inv = record {
    nonnull = nonnull;
    live = live;
    one_request_mq = one_request_mq;
    one_reply_mq = one_reply_mq;
    sent = rw nothing_asked tt;
    answered = rw nothing_answered tt;
    blocks = λ a. rw (no_blocks, nothing_asked, nothing_answered) refl;
    halves = λ a acb. rw no_blocks (λ there woken. absurd (cc there));
    distinct = rw no_blocks tt;
    no_null = rw no_blocks refl;
  }

  -- A client with an open volume, no block and two empty queues, and a server with the volume's
  -- state that uses the same queues: after any sequence of steps (coroutines that start reads,
  -- writes and flushes, QEMU's main loop that asks for the size, the server that serves a request,
  -- the reply thread that takes an answer, woken coroutines that go on), the reply thread's next
  -- round blocks on the empty queue, or handles an answer and goes on. No assertion of it fails,
  -- and it touches no freed block.
  pub reply_thread_lem :
      Reach env s t
      → ((answers env t ≡ []) × (on_client env (co_reply_round env) t ≡ stopped blocked))
        ⊎ ((u : System env) × (on_client env (co_reply_round env) t ≡ ok true u))
  reply_thread_lem reached = by_list (answers env t) refl
    where
      by_list :
          (ms : List Reply)
          → answers env t ≡ ms
          → ((answers env t ≡ []) × (on_client env (co_reply_round env) t ≡ stopped blocked))
            ⊎ ((u : System env) × (on_client env (co_reply_round env) t ≡ ok true u))
      by_list [] first = inl (
        first,
        on_client-stopped env (co_reply_round env) t blocked
            (answer_empty env (client_view env t) first),
      )
      by_list (m ∷ ms) first =
          let (c, run, left, same, buffer, room, blocks, kept) =
            answer_next env v t (Reach-Inv env v s t quiet-Inv reached) m ms first in
          inr (after_client env t c, on_client-ok env (co_reply_round env) t true c run)

  -- A client with an open volume, no block and two empty queues, and a server with the volume's
  -- state that uses the same queues: after any sequence of steps, for each live block that was
  -- posted with a callback, the bottom halves made for it, the requests in the queue that name it
  -- (a write does not count) and the answers in the queue that name it are one together. So its
  -- coroutine is woken at most once, and has been woken once when both queues are empty.
  pub wakes_once :
      (a : ℕ) (acb : Acb)
      → Reach env s t
      → find a t.client.acbs ≡ some acb
      → acb.callback ≡ true
      → acb.scheduled + (asked (queued env t) a + told (answers env t) a) ≡ 1
  wakes_once a acb reached there cb =
      rw cb at (rw there at ((Reach-Inv env v s t quiet-Inv reached).blocks a))

  -- A client with an open volume, no block and two empty queues, and a server with the volume's
  -- state that uses the same queues: after any sequence of steps, the threads take only finitely
  -- many further steps if no request is started: the number of these steps, together with
  -- the work that is left after them, is at most twice the requests in the queue, the answers in
  -- the queue and the live blocks together. The work that is left is counted in the same way.
  pub settles_in :
      (n : ℕ) (u : System env)
      → Reach env s t
      → Settling env t n u
      → n + work env u
        ≤ length (queued env t)
          + length (queued env t)
          + length (answers env t)
          + length t.client.acbs
  settles_in n u reached steps =
      (Settling-work env v t u n (Reach-Inv env v s t quiet-Inv reached) steps).1
