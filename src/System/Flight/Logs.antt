-- ===== src/System/Flight/Logs.antt =====
-- What a sequence of steps has posted and taken.
use qemu_cvbd_shraed_memory.Common.{
  ℕ, ◌≡◌, suc, refl, sym, ap, ◌∙◌, inl, inr, List, [], ◌∷◌, ◌++◌, append-nil, append_assoc, arith,
  ◌==◌, if◌then◌else◌,
}
use qemu_cvbd_shraed_memory.Common.Int.{ℤ}
use qemu_cvbd_shraed_memory.Common.Outcome.{ok}
use qemu_cvbd_shraed_memory.Iov.{Bytes}
use qemu_cvbd_shraed_memory.Message.{
  Request, Reply, write_request, read_request, fsync_request, getsize_request,
}
use qemu_cvbd_shraed_memory.Host.{Env}
use qemu_cvbd_shraed_memory.AsyncClient.{Client, getsize_volume}
use qemu_cvbd_shraed_memory.AsyncClient.Posts.{write_next, read_next, size_header, getsize-returns}
use qemu_cvbd_shraed_memory.Cvbd.{Started, co_readv, co_writev, co_flush_to_disk}
use qemu_cvbd_shraed_memory.Cvbd.Flush.{flush_header}
use qemu_cvbd_shraed_memory.Cvbd.Requests.{block, offset, posted, ready}
use qemu_cvbd_shraed_memory.Cvbd.Returns.{co_readv-returns, co_writev-returns, co_flush-returns}
use qemu_cvbd_shraed_memory.System.{System, client_view, after_client}
use qemu_cvbd_shraed_memory.System.Flight.{
  Step, start_read, start_write, start_flush, ask_size, answer, Reach, here, next, queued, answers,
}
use qemu_cvbd_shraed_memory.System.Sequential.{after, after_all, heard, heard_all}

-- The message that a client has posted between two states: each message takes a new number.
abbrev pub sends : (env : Env) → System env → System env → List Request
sends env s t = if t.client.id == s.client.id then [] else t.client.request_msg ∷ []

abbrev pub sends_in : {env : Env} {s t : System env} → Step env s t → List Request
sends_in {env = env} {s = s} {t = t} (start_read _ _ _ _ _) = sends env s t
sends_in {env = env} {s = s} {t = t} (start_write _ _ _ _ _) = sends env s t
sends_in {env = env} {s = s} {t = t} (start_flush _ _) = sends env s t
sends_in {env = env} {s = s} {t = t} (ask_size _ _) = sends env s t
sends_in other = []

abbrev pub takes_in : {env : Env} {s t : System env} → Step env s t → List Reply
takes_in {t = t} (answer _ _) = t.client.reply_msg ∷ []
takes_in other = []

-- The messages that were posted, and the answers that the reply thread took, in their order.
abbrev pub all_sent : {env : Env} {s t : System env} → Reach env s t → List Request
all_sent here = []
all_sent (next before step) = all_sent before ++ sends_in step

abbrev pub all_taken : {env : Env} {s t : System env} → Reach env s t → List Reply
all_taken here = []
all_taken (next before step) = all_taken before ++ takes_in step

pub after_all-append :
    (ms ns : List Request) (disk : Bytes)
    → after_all (ms ++ ns) disk ≡ after_all ns (after_all ms disk)
after_all-append [] ns disk = refl
after_all-append (m ∷ ms) ns disk = after_all-append ms ns (after m disk)

pub heard_all-append :
    (ms ns : List Request) (disk : Bytes)
    → heard_all (ms ++ ns) disk ≡ heard_all ms disk ++ heard_all ns (after_all ms disk)
heard_all-append [] ns disk = refl
heard_all-append (m ∷ ms) ns disk =
    ap (λ xs. heard m disk ++ xs) (heard_all-append ms ns (after m disk))
    ∙ sym (
        append_assoc (heard m disk) (heard_all ms (after m disk))
          (heard_all ns (after_all ms (after m disk))))

none_sent : (n : ℕ) (m : Request) (ms : List Request) → ms ≡ ms ++ (if n == n then [] else m ∷ [])
none_sent n m ms =
    let none : (if n == n then [] else m ∷ []) ≡ [] = ground arith in
    sym (append-nil ms) ∙ ap (λ xs. ms ++ xs) (sym none)

one_sent :
    (n : ℕ) (m : Request) (ms ns : List Request)
    → ns ≡ ms ++ m ∷ []
    → ns ≡ ms ++ (if suc n == n then [] else m ∷ [])
one_sent n m ms ns e =
    let one : (if suc n == n then [] else m ∷ []) ≡ m ∷ [] = ground arith in
    e ∙ ap (λ xs. ms ++ xs) (sym one)

module _ (env : Env) (s : System env) where
  -- Starting a request puts what it sends behind the queue, and changes nothing else of the server.
  abbrev pub Starts : Client env → Type 0
  Starts c =
      (queued env (after_client env s c) ≡ queued env s ++ sends env s (after_client env s c))
      × (answers env (after_client env s c) ≡ answers env s)
      × (c.incoming ≡ s.server.outgoing)

  pub start_read-sends :
      (x n : ℤ) (qiov : List Bytes) (r : Started) (c : Client env)
      → co_readv env x n qiov (client_view env s) ≡ ok r c
      → Starts c
  start_read-sends x n qiov r c e =
      let view = client_view env s in
      elim (co_readv-returns env view x n qiov r c e) [
        | inl leak ↦ rw leak (none_sent s.client.id s.client.request_msg (queued env s), refl, refl)
        | inr (al, shm, sent, done) ↦
            let m : Request = read_request (
              read_next env (ready env view x n qiov) (offset env view x n qiov)
                (block env view x n qiov) (posted env view x n qiov)) in
            let grown =
              (env.requests.send_messages s.client.request_mq m s.server.incoming shm sent).0 in
            rw done (one_sent s.client.id m (queued env s) _ grown, refl, refl)
      ]

  pub start_write-sends :
      (x n : ℤ) (qiov : List Bytes) (r : Started) (c : Client env)
      → co_writev env x n qiov (client_view env s) ≡ ok r c
      → Starts c
  start_write-sends x n qiov r c e =
      let view = client_view env s in
      elim (co_writev-returns env view x n qiov r c e) [
        | inl leak ↦ rw leak (none_sent s.client.id s.client.request_msg (queued env s), refl, refl)
        | inr (al, shm, sent, done) ↦
            let m : Request = write_request (
              write_next env (ready env view x n qiov) (offset env view x n qiov)
                (block env view x n qiov) (posted env view x n qiov)) in
            let grown =
              (env.requests.send_messages s.client.request_mq m s.server.incoming shm sent).0 in
            rw done (one_sent s.client.id m (queued env s) _ grown, refl, refl)
      ]

  pub start_flush-sends :
      (r : Started) (c : Client env) → co_flush_to_disk env (client_view env s) ≡ ok r c → Starts c
  start_flush-sends r c e =
      let (shm, sent, done) = co_flush-returns env (client_view env s) r c e in
      let m : Request = fsync_request (flush_header env (client_view env s)) in
      let grown = (env.requests.send_messages s.client.request_mq m s.server.incoming shm sent).0 in
      rw done (one_sent s.client.id m (queued env s) _ grown, refl, refl)

  pub ask_size-sends :
      (size : ℤ) (c : Client env) → getsize_volume env (client_view env s) ≡ ok size c → Starts c
  ask_size-sends size c e =
      let (shm, sent, done) = getsize-returns env (client_view env s) size c e in
      let m : Request = getsize_request (size_header env (client_view env s)) in
      let grown = (env.requests.send_messages s.client.request_mq m s.server.incoming shm sent).0 in
      rw done (one_sent s.client.id m (queued env s) _ grown, refl, refl)
