-- ===== src/System/Flight/Completes.antt =====
-- From every reachable state, the server and the reply thread bring all requests to their end.
use qemu_cvbd_shraed_memory.Common.{
  ℕ, ◌+◌, ◌≡◌, ◌≢◌, ◌≤◌, refl, sym, ap, ◌∙◌, subst, true, some, List, [], ◌∷◌, ◌++◌, append-nil,
  All, length, length-append, arith,
}
use qemu_cvbd_shraed_memory.Common.Outcome.{ok}
use qemu_cvbd_shraed_memory.Common.Store.{find}
use qemu_cvbd_shraed_memory.Iov.{Bytes}
use qemu_cvbd_shraed_memory.Message.{Request, Reply}
use qemu_cvbd_shraed_memory.Host.{Env}
use qemu_cvbd_shraed_memory.Server.{VolumeState, Server, handle_requests}
use qemu_cvbd_shraed_memory.AsyncClient.{handle_co_reply}
use qemu_cvbd_shraed_memory.System.{System, after_client, on_client, on_server}
use qemu_cvbd_shraed_memory.System.Steps.{on_client-ok, on_server-ok}
use qemu_cvbd_shraed_memory.System.Sequential.{Reliable, IsInside, after_all, heard}
use qemu_cvbd_shraed_memory.System.Sequential.Serving.{serve_first, one_more, length-heard}
use qemu_cvbd_shraed_memory.System.Flight.{Reach, Settles, queued, answers, Inv}
use qemu_cvbd_shraed_memory.System.Flight.Logs.{all_sent, all_taken}
use qemu_cvbd_shraed_memory.System.Flight.Safety.{quiet-Inv, Reach-Inv}
use qemu_cvbd_shraed_memory.System.Flight.Serves.{serve-Inv}
use qemu_cvbd_shraed_memory.System.Flight.Order.{Ordered}
use qemu_cvbd_shraed_memory.System.Flight.Turns.{head-IsInside, Stands-now, serve-Ordered}
use qemu_cvbd_shraed_memory.System.Flight.Linear.{reach-Ordered}
use qemu_cvbd_shraed_memory.System.Flight.Drains.{drain-Inv}

module _ (env : Env) (v : VolumeState) (volume : ℕ) (nonnull : volume ≢ 0) (disk : Bytes)
    (reliable : Reliable env.host v.fd) (sent : List Request) (taken : List Reply)
    (inside : All (IsInside volume (length disk)) sent) where
  open env use {replies}

  -- A state in which the server has served everything.
  record Served (t : System env) (x : Server env) : Type 0 where
    kept : Inv env v (record t { server = x })
    empty : queued env (record t { server = x }) ≡ []
    effect : env.host.contents v.fd x.disk ≡ after_all sent disk

  serve_all :
      (ms : List Request) (done : List Request) (t : System env)
      → queued env t ≡ ms
      → Inv env v t
      → Ordered env v disk sent taken done t
      → length (answers env t) + length ms ≤ replies.capacity v.reply_mq t.server.outgoing
      → (x : Server env) × (handle_requests env (length ms) t.server ≡ ok true x) × Served t x
  unfolding handle_requests
  serve_all [] done t first inv o room = (
    t.server,
    refl,
    record {
      kept = subst (Inv env v) refl inv;
      empty = first;
      effect =
          o.bytes
          ∙ ap (λ xs. after_all xs disk)
              (sym (append-nil done) ∙ ap (λ xs. done ++ xs) (sym first) ∙ o.served);
    },
  )
  serve_all (m ∷ ms) done t first inv o room =
      let (m_inside, vol) =
        head-IsInside env v volume nonnull disk sent taken done t inv o m ms first inside in
      let now = after_all done disk in
      let (x, ran, cap, stands) =
        serve_first env volume v nonnull reliable t.client.request_mq now ms (answers env t)
          t.server m
          (Stands-now env v volume nonnull disk sent taken done t inv o (m ∷ ms) first vol) m_inside
          (λ a hears. replies.send_room v.reply_mq a t.server.outgoing (
            omega (
              arith,
              room,
              ap (λ q. length (replies.messages q t.server.outgoing)) inv.one_reply_mq,
            ))) in
      let (done', o', held) =
        serve-Ordered env v volume nonnull disk sent taken done t inv o reliable true x inside
          ran in
      let kept = (serve-Inv env v t inv true x ran).0 in
      let one = length-heard env volume v nonnull m now in
      let t' : System env = record t { server = x } in
      let grown : answers env t' ≡ answers env t ++ heard m now =
        subst (λ q. replies.messages q x.outgoing ≡ answers env t ++ heard m now) inv.one_reply_mq
          stands.answers in
      let room' : length (answers env t') + length ms ≤ replies.capacity v.reply_mq x.outgoing =
        omega (
          arith,
          room,
          one,
          cap,
          ap (length {A = Reply}) grown,
          length-append (answers env t) (heard m now),
        ) in
      let (y, run, served) =
        serve_all ms done' t' stands.queue kept (rw (append-nil sent, append-nil taken) at o')
          room' in
      (
        y,
        one_more env volume v nonnull (length ms) t.server x ran ∙ run,
        record { kept = served.kept; empty = served.empty; effect = served.effect },
      )

-- A client with an open volume, no block and two empty queues, and a server with the volume's
-- state that uses the same queues; calls on the volume's file inside it are not cut short, and
-- `fsync` and `fstat` succeed. After any sequence of steps in which every message that was posted is
-- a write or a read inside the file, a flush, or a request for the size, where the answers and the
-- requests in the queues are together no more than the reply queue can hold: the server
-- serves all requests in its queue, one in each round, and then the reply thread takes all answers,
-- one in each round. Afterwards both queues are empty, each block that was posted has had its
-- coroutine woken exactly once, and the file holds the bytes on which all posted messages took
-- effect one after the other.
pub all_complete :
    (env : Env) (v : VolumeState) (s t : System env) (reliable : Reliable env.host v.fd)
    (reached : Reach env s t)
    → s.client.volume ≢ 0
    → find s.client.volume s.server.heap ≡ some v
    → s.server.request_mq ≡ s.client.request_mq
    → v.reply_mq ≡ s.client.reply_mq
    → queued env s ≡ []
    → answers env s ≡ []
    → s.client.acbs ≡ []
    → All
        (IsInside s.client.volume (length (env.host.contents v.fd s.server.disk)))
        (all_sent reached)
    → length (answers env t) + length (queued env t)
      ≤ env.replies.capacity v.reply_mq s.server.outgoing
    → (mid u : System env) × (on_server env (handle_requests env (length (queued env t))) t
        ≡ ok true mid)
      × (on_client env (handle_co_reply env (length (answers env mid))) mid ≡ ok true u)
      × (queued env u ≡ [])
      × (answers env u ≡ [])
      × ((a : ℕ) → Settles (find a u.client.acbs) 0)
      × (env.host.contents v.fd u.server.disk
          ≡ after_all (all_sent reached) (env.host.contents v.fd s.server.disk))
all_complete env v s t reliable reached nonnull live sq sr na nb no_blocks inside room =
    let volume = s.client.volume in
    let disk = env.host.contents v.fd s.server.disk in
    let inv = quiet-Inv env v s t nonnull live sq sr na nb no_blocks in
    let (done, o, cap) =
      reach-Ordered env v volume nonnull disk reliable s t reached inv na nb refl inside in
    let (x, ran, served) =
      serve_all env v volume nonnull disk reliable (all_sent reached) (all_taken reached) inside
        (queued env t) done t refl (Reach-Inv env v s t inv reached) o (omega (arith, room, cap)) in
    let mid : System env = record t { server = x } in
    let (c, run, kept, none_left, same) = drain-Inv env v mid (answers env mid) refl served.kept in
    (
      mid,
      after_client env mid c,
      on_server-ok env (handle_requests env (length (queued env t))) t true x ran,
      on_client-ok env (handle_co_reply env (length (answers env mid))) mid true c run,
      same ∙ served.empty,
      none_left,
      λ a. rw (same ∙ served.empty, none_left) at (kept.blocks a),
      served.effect,
    )
