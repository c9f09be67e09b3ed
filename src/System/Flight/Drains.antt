-- ===== src/System/Flight/Drains.antt =====
-- The reply thread delivers every answer in its queue.
use qemu_cvbd_shraed_memory.Common.{
  ℕ, suc, ◌+◌, ◌≡◌, ◌≢◌, refl, ◌∙◌, true, some, List, [], ◌∷◌, length, arith,
}
use qemu_cvbd_shraed_memory.Common.Outcome.{ok}
use qemu_cvbd_shraed_memory.Common.Store.{find}
use qemu_cvbd_shraed_memory.Host.{Env}
use qemu_cvbd_shraed_memory.Message.{Reply}
use qemu_cvbd_shraed_memory.Server.{VolumeState}
use qemu_cvbd_shraed_memory.AsyncClient.{Client, co_reply_round, handle_co_reply}
use qemu_cvbd_shraed_memory.System.{System, client_view, after_client, on_client}
use qemu_cvbd_shraed_memory.System.Steps.{on_client-ok}
use qemu_cvbd_shraed_memory.System.Flight.{Reach, Settles, asked, queued, answers, Inv}
use qemu_cvbd_shraed_memory.System.Flight.Answers.{answer_next}
use qemu_cvbd_shraed_memory.System.Flight.Safety.{quiet-Inv, Reach-Inv}

module _ (env : Env) (v : VolumeState) where
  one_round :
      (n : ℕ) (c d : Client env)
      → co_reply_round env c ≡ ok true d
      → handle_co_reply env (suc n) c ≡ handle_co_reply env n d
  unfolding handle_co_reply
  one_round n c d run = ground (arith, run)

  pub drain-Inv :
      (s : System env) (ms : List Reply)
      → answers env s ≡ ms
      → Inv env v s
      → (c : Client env) × (handle_co_reply env (length ms) (client_view env s) ≡ ok true c)
        × Inv env v (after_client env s c)
        × (answers env (after_client env s c) ≡ [])
        × (queued env (after_client env s c) ≡ queued env s)
  unfolding handle_co_reply
  drain-Inv s [] none_left inv = (
    client_view env s,
    refl,
    record {
      nonnull = inv.nonnull;
      live = inv.live;
      one_request_mq = inv.one_request_mq;
      one_reply_mq = inv.one_reply_mq;
      sent = inv.sent;
      answered = inv.answered;
      blocks = inv.blocks;
      halves = inv.halves;
      distinct = inv.distinct;
      no_null = inv.no_null;
    },
    none_left,
    refl,
  )
  drain-Inv s (m ∷ ms) first inv =
      let (d, run, left, same, buffer, room, blocks, (kept, less)) =
        answer_next env v s inv m ms first in
      let (c, rest, inv', none_left, same') = drain-Inv (after_client env s d) ms left kept in
      (c, one_round (length ms) (client_view env s) d run ∙ rest, inv', none_left, same' ∙ same)

-- A client with an open volume, no block and two empty queues, and a server with the volume's
-- state that uses the same queues: after any sequence of steps, the reply thread takes all answers
-- in its queue, one in each round, and stops at none of them. Afterwards its queue is empty, the
-- request queue is as it was, and each block that no queued request names has had its coroutine
-- woken exactly once, if it was posted.
handle_co_reply_lem :
    (env : Env) (v : VolumeState) (s t : System env)
    → s.client.volume ≢ 0
    → find s.client.volume s.server.heap ≡ some v
    → s.server.request_mq ≡ s.client.request_mq
    → v.reply_mq ≡ s.client.reply_mq
    → queued env s ≡ []
    → answers env s ≡ []
    → s.client.acbs ≡ []
    → Reach env s t
    → (u : System env) × (on_client env (handle_co_reply env (length (answers env t))) t
        ≡ ok true u)
      × (answers env u ≡ [])
      × (queued env u ≡ queued env t)
      × ((a : ℕ) → Settles (find a u.client.acbs) (asked (queued env u) a + 0))
handle_co_reply_lem env v s t nonnull live sq sr na nb no_blocks reached =
    let inv =
      Reach-Inv env v s t (quiet-Inv env v s t nonnull live sq sr na nb no_blocks) reached in
    let (c, run, kept, none_left, same) = drain-Inv env v t (answers env t) refl inv in
    (
      after_client env t c,
      on_client-ok env (handle_co_reply env (length (answers env t))) t true c run,
      none_left,
      same,
      λ a. rw none_left at (kept.blocks a),
    )
