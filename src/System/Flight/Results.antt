-- ===== src/System/Flight/Results.antt =====
-- Every block holds the result 0, in every order of the steps.
use qemu_cvbd_shraed_memory.Common.{
  ℕ, ◌≡◌, ◌≢◌, refl, sym, ◌∙◌, subst, Bool, true, Bool-cases, Option-cases, inl, inr, some, List,
  [], ◌∷◌, All, All-append, length, ◌==◌,
}
use qemu_cvbd_shraed_memory.Common.Int.{ℤ, pos}
use qemu_cvbd_shraed_memory.Common.Outcome.{ok}
use qemu_cvbd_shraed_memory.Common.Outcome.Keeps.{ok-state}
use qemu_cvbd_shraed_memory.Common.Store.{Store, find, free, find-free, find-cons}
use qemu_cvbd_shraed_memory.Iov.{Bytes}
use qemu_cvbd_shraed_memory.Message.{
  Request, Reply, read_request, fsync_request, getsize_request, read_reply, fsync_reply,
}
use qemu_cvbd_shraed_memory.Host.{Env}
use qemu_cvbd_shraed_memory.Server.{VolumeState, handle_requests}
use qemu_cvbd_shraed_memory.Aio.{Acb, finish_aio}
use qemu_cvbd_shraed_memory.AsyncClient.{Client, co_reply_round, getsize_volume}
use qemu_cvbd_shraed_memory.AsyncClient.Posts.{getsize-returns}
use qemu_cvbd_shraed_memory.Cvbd.{Started, co_readv, co_writev, co_flush_to_disk, complete_aio}
use qemu_cvbd_shraed_memory.Cvbd.Returns.{co_readv-returns, co_writev-returns, co_flush-returns}
use qemu_cvbd_shraed_memory.Cvbd.Woken.{complete_aio-returns}
use qemu_cvbd_shraed_memory.System.{System, client_view}
use qemu_cvbd_shraed_memory.System.Steps.{on_client-returns, on_server-returns}
use qemu_cvbd_shraed_memory.System.Sequential.{Reliable, IsInside, after, heard, heard_all}
use qemu_cvbd_shraed_memory.System.Flight.{
  Step, start_read, start_write, start_flush, ask_size, serve, answer, go_on, Reach, here, next,
  tells, queued, answers, Inv,
}
use qemu_cvbd_shraed_memory.System.Flight.Logs.{sends_in, all_sent, all_taken}
use qemu_cvbd_shraed_memory.System.Flight.Safety.{Reach-Inv}
use qemu_cvbd_shraed_memory.System.Flight.Told.{told_of, once_told}
use qemu_cvbd_shraed_memory.System.Flight.Answers.{answer_empty, answer_next}
use qemu_cvbd_shraed_memory.System.Flight.Order.{All-left, All-right}
use qemu_cvbd_shraed_memory.System.Flight.Linear.{reach-Ordered}

-- A reply that reports no error.
abbrev Good : Reply → Type 0
Good (fsync_reply r) = r.err ≡ pos 0
Good other = Unit {0}

heard-Good : (m : Request) (disk : Bytes) → All Good (heard m disk)
heard-Good (read_request r) disk = (tt, tt)
heard-Good (fsync_request h) disk = (refl, tt)
heard-Good (getsize_request h) disk = (tt, tt)
heard-Good other disk = tt

heard_all-Good : (ms : List Request) (disk : Bytes) → All Good (heard_all ms disk)
heard_all-Good [] disk = tt
heard_all-Good (m ∷ ms) disk =
    All-append Good (heard m disk) (heard_all ms (after m disk)) (heard-Good m disk)
      (heard_all-Good ms (after m disk))

finish_aio-zero : (acb : Acb) → (finish_aio (pos 0) acb).ret ≡ pos 0
unfolding finish_aio
finish_aio-zero acb = refl

told_of-zero : (m : Reply) (acb : Acb) → Good m → acb.ret ≡ pos 0 → (told_of m acb).ret ≡ pos 0
told_of-zero (read_reply r) acb good zero_ret = refl
told_of-zero (fsync_reply r) acb good zero_ret =
    subst (λ e. (finish_aio e (record acb { ret = e })).ret ≡ pos 0) (sym good)
      (finish_aio-zero (record acb { ret = pos 0 }))
told_of-zero other acb good zero_ret = zero_ret

abbrev pub AllZero : Store Acb → Type 0
AllZero h = (x : ℕ) (acb : Acb) → find x h ≡ some acb → acb.ret ≡ pos 0

cons-AllZero :
    (a : ℕ) (new : Acb) (h : Store Acb) → new.ret ≡ pos 0 → AllZero h → AllZero ((a, new) ∷ h)
cons-AllZero a new h zero_ret zeros x acb there = elim (Bool-cases (a == x)) [
  | inl same ↦
      let is : new ≡ acb = cc (rw same at (sym (find-cons a x new h) ∙ there)) in
      subst (λ y. y.ret ≡ pos 0) is zero_ret
  | inr other ↦ zeros x acb (rw other at (sym (find-cons a x new h) ∙ there))
]

module _ (env : Env) (s c : Client env) (zeros : AllZero s.acbs) where
  start_read-AllZero :
      (x n : ℤ) (qiov : List Bytes) (r : Started)
      → co_readv env x n qiov s ≡ ok r c
      → AllZero c.acbs
  start_read-AllZero x n qiov r e = elim (co_readv-returns env s x n qiov r c e) [
    | inl leak ↦ rw leak (cons-AllZero _ _ s.acbs refl zeros)
    | inr (al, shm, sent, done) ↦ rw done (cons-AllZero _ _ s.acbs refl zeros)
  ]

  start_write-AllZero :
      (x n : ℤ) (qiov : List Bytes) (r : Started)
      → co_writev env x n qiov s ≡ ok r c
      → AllZero c.acbs
  start_write-AllZero x n qiov r e = elim (co_writev-returns env s x n qiov r c e) [
    | inl leak ↦ rw leak (cons-AllZero _ _ s.acbs refl zeros)
    | inr (al, shm, sent, done) ↦ rw done (cons-AllZero _ _ s.acbs refl zeros)
  ]

  start_flush-AllZero : (r : Started) → co_flush_to_disk env s ≡ ok r c → AllZero c.acbs
  start_flush-AllZero r e =
      let (shm, sent, done) = co_flush-returns env s r c e in
      rw done (cons-AllZero _ _ s.acbs refl zeros)

  ask_size-AllZero : (size : ℤ) → getsize_volume env s ≡ ok size c → AllZero c.acbs
  ask_size-AllZero size e = let (shm, sent, done) = getsize-returns env s size c e in rw done zeros

module _ (env : Env) (v : VolumeState) (t : System env) (inv : Inv env v t)
    (zeros : AllZero t.client.acbs) where
  once_told-zero :
      (m : Reply) (x : ℕ) (new : Acb)
      → Good m
      → once_told m x (find x t.client.acbs) ≡ some new
      → new.ret ≡ pos 0
  once_told-zero m x new good is = elim (Option-cases (find x t.client.acbs)) [
    | inl unused ↦ absurd (cc (rw unused at is))
    | inr (acb, live) ↦ elim (Bool-cases (tells m x == 1)) [
      | inl named ↦
          let same : told_of m acb ≡ new = cc (rw named at (rw live at is)) in
          subst (λ y. y.ret ≡ pos 0) same (told_of-zero m acb good (zeros x acb live))
      | inr other ↦
          let same : acb ≡ new = cc (rw other at (rw live at is)) in
          subst (λ y. y.ret ≡ pos 0) same (zeros x acb live)
    ]
  ]

  answer-AllZero :
      (go : Bool) (c : Client env)
      → All Good (answers env t)
      → co_reply_round env (client_view env t) ≡ ok go c
      → AllZero c.acbs
  answer-AllZero go c good run = answer_list (answers env t) refl
    where
      answer_list : (ms : List Reply) → answers env t ≡ ms → AllZero c.acbs
      answer_list [] first = absurd (cc (run, answer_empty env (client_view env t) first))
      answer_list (m ∷ ms) first =
          let (d, ran, left, same, buffer, room, blocks, kept) =
            answer_next env v t inv m ms first in
          subst (λ y. AllZero y.acbs) (ok-state true go d c (sym ran ∙ run))
            (λ x new there. once_told-zero m x new (rw first at good).0 (sym (blocks x) ∙ there))

  free-AllZero : (b : ℕ) → AllZero (free b t.client.acbs)
  free-AllZero b x acb there = elim (Bool-cases (b == x)) [
    | inl same ↦ absurd (cc (rw same at (sym (find-free b x t.client.acbs inv.distinct) ∙ there)))
    | inr other ↦ zeros x acb (rw other at (sym (find-free b x t.client.acbs inv.distinct) ∙ there))
  ]

module _ (env : Env) (v : VolumeState) (t u : System env) (inv : Inv env v t)
    (good : All Good (answers env t)) (zeros : AllZero t.client.acbs) where
  step-AllZero : Step env t u → AllZero u.client.acbs
  step-AllZero (start_read x n qiov r e) =
      let (c, run, same) = on_client-returns env (co_readv env x n qiov) t u r e in
      rw same (start_read-AllZero env (client_view env t) c zeros x n qiov r run)
  step-AllZero (start_write x n qiov r e) =
      let (c, run, same) = on_client-returns env (co_writev env x n qiov) t u r e in
      rw same (start_write-AllZero env (client_view env t) c zeros x n qiov r run)
  step-AllZero (start_flush r e) =
      let (c, run, same) = on_client-returns env (co_flush_to_disk env) t u r e in
      rw same (start_flush-AllZero env (client_view env t) c zeros r run)
  step-AllZero (ask_size size e) =
      let (c, run, same) = on_client-returns env (getsize_volume env) t u size e in
      rw same (ask_size-AllZero env (client_view env t) c zeros size run)
  step-AllZero (serve go e) =
      let (x, run, same) = on_server-returns env (handle_requests env 1) t u go e in rw same zeros
  step-AllZero (answer go e) =
      let (c, run, same) = on_client-returns env (co_reply_round env) t u go e in
      rw same (answer-AllZero env v t inv zeros go c good run)
  step-AllZero (go_on b acb result there woken e) =
      let (c, run, same) = on_client-returns env (complete_aio env b) t u result e in
      let is = complete_aio-returns env (client_view env t) b acb there result c run in
      rw (same, ← is) (free-AllZero env v t inv zeros b)

module _ (env : Env) (v : VolumeState) (volume : ℕ) (nonnull : volume ≢ 0) (disk : Bytes)
    (reliable : Reliable env.host v.fd) where
  pub reach-AllZero :
      (s t : System env) (reached : Reach env s t)
      → Inv env v s
      → queued env s ≡ []
      → answers env s ≡ []
      → env.host.contents v.fd s.server.disk ≡ disk
      → All (IsInside volume (length disk)) (all_sent reached)
      → AllZero s.client.acbs
      → AllZero t.client.acbs
  reach-AllZero s t here inv nq na bytes inside zeros = zeros
  reach-AllZero s u (next {t = t} before step) inv nq na bytes inside zeros =
      let inside' =
        All-left (IsInside volume (length disk)) (all_sent before) (sends_in step) inside in
      let (done, o, cap) =
        reach-Ordered env v volume nonnull disk reliable s t before inv nq na bytes inside' in
      let good =
        All-right Good (all_taken before) (answers env t)
          (subst (All Good) (sym (o.told)) (heard_all-Good done disk)) in
      step-AllZero env v t u (Reach-Inv env v s t inv before) good
        (reach-AllZero s t before inv nq na bytes inside' zeros) step
