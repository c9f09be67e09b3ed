-- ===== src/System/Flight/Turns.antt =====
-- The steps that start no request keep the order of the requests.
use qemu_cvbd_shraed_memory.Common.{
  ℕ, ◌≡◌, ◌≢◌, refl, sym, ap, ap₂, ◌∙◌, subst, Bool, true, List, [], ◌∷◌, ◌++◌, append-nil,
  append_assoc, All, length,
}
use qemu_cvbd_shraed_memory.Common.Outcome.{ok}
use qemu_cvbd_shraed_memory.Common.Outcome.Keeps.{ok-state}
use qemu_cvbd_shraed_memory.Iov.{Bytes}
use qemu_cvbd_shraed_memory.Message.{
  Request, Reply, read_request, write_request, fsync_request, getsize_request,
}
use qemu_cvbd_shraed_memory.Host.{Env}
use qemu_cvbd_shraed_memory.Server.{VolumeState, Server, handle_requests}
use qemu_cvbd_shraed_memory.AsyncClient.{Client, co_reply_round}
use qemu_cvbd_shraed_memory.System.{System, client_view, after_client}
use qemu_cvbd_shraed_memory.System.Steps.{serve_empty}
use qemu_cvbd_shraed_memory.System.Sequential.{
  Reliable, IsInside, after, after_all, heard, heard_all, Stands,
}
use qemu_cvbd_shraed_memory.System.Sequential.Serving.{serve_first}
use qemu_cvbd_shraed_memory.System.Flight.{queued, answers, Inv, IsSent}
use qemu_cvbd_shraed_memory.System.Flight.Logs.{after_all-append, heard_all-append}
use qemu_cvbd_shraed_memory.System.Flight.Answers.{answer_empty, answer_next}
use qemu_cvbd_shraed_memory.System.Flight.Order.{
  All-left, All-right, Ordered, length-after_all, accepts,
}

-- A request that a client sends for its volume and that is inside a volume.
one_volume : (k volume size : ℕ) (m : Request) → IsSent k m → IsInside volume size m → k ≡ volume
one_volume k volume size (read_request r) s i = sym s.2 ∙ i.0.2
one_volume k volume size (write_request w) s i = sym s.2 ∙ i.0.2
one_volume k volume size (fsync_request h) s i = sym s.2 ∙ i.2
one_volume k volume size (getsize_request h) s i = sym s.2 ∙ i.2
one_volume k volume size other s i = absurd s

module _ (env : Env) (v : VolumeState) (volume : ℕ) (nonnull : volume ≢ 0) (disk : Bytes)
    (sent : List Request) (taken : List Reply) (done : List Request) (t : System env)
    (inv : Inv env v t) (o : Ordered env v disk sent taken done t) where
  -- The first message of the queue is inside the bytes that it finds.
  pub head-IsInside :
      (m : Request) (ms : List Request)
      → queued env t ≡ m ∷ ms
      → All (IsInside volume (length disk)) sent
      → IsInside volume (length (after_all done disk)) m × (t.client.volume ≡ volume)
  head-IsInside m ms first inside =
      let P = IsInside volume (length disk) in
      let split : done ++ m ∷ ms ≡ sent = ap (λ xs. done ++ xs) (sym first) ∙ o.served in
      let parts : All P (done ++ m ∷ ms) = subst (All P) (sym split) inside in
      let same_length : length (after_all done disk) ≡ length disk =
        length-after_all env v volume nonnull disk done (All-left P done (m ∷ ms) parts) in
      let m_inside : IsInside volume (length (after_all done disk)) m =
        subst (λ k. IsInside volume k m) (sym same_length) (All-right P done (m ∷ ms) parts).0 in
      (
        m_inside,
        one_volume t.client.volume volume (length (after_all done disk)) m
            (rw first at (inv.sent)).0 m_inside,
      )

  pub Stands-now :
      (ms : List Request)
      → queued env t ≡ ms
      → t.client.volume ≡ volume
      → Stands env volume v t.client.request_mq (after_all done disk) ms (answers env t) t.server
  Stands-now ms first vol = record {
    one_queue = inv.one_request_mq;
    live = rw vol at (inv.live);
    bytes = o.bytes;
    queue = first;
    answers = rw inv.one_reply_mq refl;
  }

  -- What the server is once it has served the first message of its queue.
  served_first :
      (reliable : Reliable env.host v.fd) (go : Bool) (u : Server env) (m : Request)
      (ms : List Request)
      → All (IsInside volume (length disk)) sent
      → handle_requests env 1 t.server ≡ ok go u
      → queued env t ≡ m ∷ ms
      → (env.replies.capacity v.reply_mq u.outgoing
          ≡ env.replies.capacity v.reply_mq t.server.outgoing)
        × Stands env volume v t.client.request_mq
            (after m (after_all done disk))
            ms
            (answers env t ++ heard m (after_all done disk))
            u
  served_first reliable go u m ms inside run first =
      let now = after_all done disk in
      let (m_inside, vol) = head-IsInside m ms first inside in
      let (x, ran, cap, stands) =
        serve_first env volume v nonnull reliable t.client.request_mq now ms (answers env t)
          t.server m (Stands-now (m ∷ ms) first vol) m_inside
          (λ a hears.
            accepts env v volume nonnull disk reliable now t inv o.bytes ms go u run m a first
              m_inside hears) in
      subst
        (λ y.
          (env.replies.capacity v.reply_mq y.outgoing
            ≡ env.replies.capacity v.reply_mq t.server.outgoing)
          × Stands env volume v t.client.request_mq (after m now) ms (answers env t ++ heard m now)
              y)
        (ok-state true go x u (sym ran ∙ run)) (cap, stands)

  -- The server's round keeps the order, and the capacity of the reply queue.
  pub serve-Ordered :
      (reliable : Reliable env.host v.fd) (go : Bool) (u : Server env)
      → All (IsInside volume (length disk)) sent
      → handle_requests env 1 t.server ≡ ok go u
      → (done' : List Request) × Ordered env v disk
          (sent ++ [])
          (taken ++ [])
          done'
          (record t { server = u })
        × (env.replies.capacity v.reply_mq u.outgoing
            ≡ env.replies.capacity v.reply_mq t.server.outgoing)
  serve-Ordered reliable go u inside run = serve_list (queued env t) refl
    where
      serve_list :
          (ms : List Request)
          → queued env t ≡ ms
          → (done' : List Request) × Ordered env v disk
              (sent ++ [])
              (taken ++ [])
              done'
              (record t { server = u })
            × (env.replies.capacity v.reply_mq u.outgoing
                ≡ env.replies.capacity v.reply_mq t.server.outgoing)
      serve_list [] first =
          absurd (cc (run, serve_empty env t.server (rw inv.one_request_mq first)))
      serve_list (m ∷ ms) first =
          let (cap, stands) = served_first reliable go u m ms inside run first in
          (
            done ++ m ∷ [],
            record {
              served =
                  ap (λ xs. (done ++ m ∷ []) ++ xs) stands.queue
                  ∙ append_assoc done (m ∷ []) ms
                  ∙ ap (λ xs. done ++ xs) (sym first)
                  ∙ o.served
                  ∙ sym (append-nil sent);
              bytes = stands.bytes ∙ sym (after_all-append done (m ∷ []) disk);
              told = rw (append-nil taken) (
                  ap (λ xs. taken ++ xs) (rw inv.one_reply_mq at (stands.answers))
                  ∙ sym (append_assoc taken (answers env t) (heard m (after_all done disk)))
                  ∙ ap (λ xs. xs ++ heard m (after_all done disk)) o.told
                  ∙ ap (λ ys. heard_all done disk ++ ys)
                      (sym (append-nil (heard m (after_all done disk))))
                  ∙ sym (heard_all-append done (m ∷ []) disk));
            },
            cap,
          )

  pub answer-Ordered :
      (go : Bool) (c : Client env)
      → co_reply_round env (client_view env t) ≡ ok go c
      → Ordered env v disk (sent ++ []) (taken ++ c.reply_msg ∷ []) done (after_client env t c)
        × (env.replies.capacity v.reply_mq c.incoming
            ≡ env.replies.capacity v.reply_mq t.server.outgoing)
  answer-Ordered go c run = answer_list (answers env t) refl
    where
      answer_list :
          (ms : List Reply)
          → answers env t ≡ ms
          → Ordered env v disk (sent ++ []) (taken ++ c.reply_msg ∷ []) done (after_client env t c)
            × (env.replies.capacity v.reply_mq c.incoming
                ≡ env.replies.capacity v.reply_mq t.server.outgoing)
      answer_list [] first = absurd (cc (run, answer_empty env (client_view env t) first))
      answer_list (m ∷ ms) first =
          let (d, ran, left, same, buffer, room, blocks, kept) =
            answer_next env v t inv m ms first in
          subst
            (λ y.
              Ordered env v disk (sent ++ []) (taken ++ y.reply_msg ∷ []) done
                (after_client env t y)
              × (env.replies.capacity v.reply_mq y.incoming
                  ≡ env.replies.capacity v.reply_mq t.server.outgoing))
            (ok-state true go d c (sym ran ∙ run))
            (
              record {
                served = ap (λ xs. done ++ xs) same ∙ o.served ∙ sym (append-nil sent);
                bytes = o.bytes;
                told =
                    append_assoc taken (d.reply_msg ∷ []) (answers env (after_client env t d))
                    ∙ ap (λ xs. taken ++ xs) (ap₂ (λ x xs. x ∷ xs) buffer left ∙ sym first)
                    ∙ o.told;
              },
              rw inv.one_reply_mq room,
            )

  pub resume-Ordered :
      (c : Client env)
      → c.request_mq ≡ t.client.request_mq
      → c.reply_mq ≡ t.client.reply_mq
      → c.outgoing ≡ t.server.incoming
      → c.incoming ≡ t.server.outgoing
      → Ordered env v disk (sent ++ []) (taken ++ []) done (after_client env t c)
  resume-Ordered c sq sr so si = record {
    served = rw (sq, so) (o.served ∙ sym (append-nil sent));
    bytes = o.bytes;
    told = rw (sr, si, append-nil taken) o.told;
  }
