-- ===== src/System/Flight/Reads.antt =====
-- What a read brings to its coroutine, in every order of the steps.
use qemu_cvbd_shraed_memory.Common.{
  ℕ, ◌+◌, ◌≡◌, ◌≢◌, refl, sym, ap, ◌∙◌, subst, Bool, true, Bool-cases, ◌⊎◌, inl, inr, some, List,
  [], ◌∷◌, ◌++◌, All, All-append, length, take_all, arith, ◌==◌, if◌then◌else◌,
}
use qemu_cvbd_shraed_memory.Common.Int.{pos}
use qemu_cvbd_shraed_memory.Common.Outcome.{ok}
use qemu_cvbd_shraed_memory.Common.Outcome.Keeps.{ok-state}
use qemu_cvbd_shraed_memory.Common.Store.{find, free, find-free}
use qemu_cvbd_shraed_memory.Iov.{Bytes}
use qemu_cvbd_shraed_memory.Iov.Gather.{flat}
use qemu_cvbd_shraed_memory.Iov.Scatter.{copy, iov_from_buf_lem}
use qemu_cvbd_shraed_memory.Message.{Request, Reply, ReadReply, read_reply}
use qemu_cvbd_shraed_memory.Host.{Env}
use qemu_cvbd_shraed_memory.Server.{VolumeState}
use qemu_cvbd_shraed_memory.Aio.{Acb}
use qemu_cvbd_shraed_memory.AsyncClient.{Client, co_reply_round}
use qemu_cvbd_shraed_memory.System.{System, client_view, after_client}
use qemu_cvbd_shraed_memory.System.Sequential.{after_all, heard_all}
use qemu_cvbd_shraed_memory.System.Flight.{asked, tells, told, IsAnswer, queued, answers, Inv}
use qemu_cvbd_shraed_memory.System.Flight.Counts.{asked-append}
use qemu_cvbd_shraed_memory.System.Flight.Logs.{sends, Starts}
use qemu_cvbd_shraed_memory.System.Flight.Told.{told_of}
use qemu_cvbd_shraed_memory.System.Flight.Answers.{answer_empty, answer_next}
use qemu_cvbd_shraed_memory.System.Flight.Futures.{
  IsRight, All-unnamed, future, future-start, told-heard_all,
}

-- The vector after a read was answered.
filled_text :
    (r : ReadReply) (acb : Acb)
    → r.size_in_bytes ≡ length r.bytes
    → flat (told_of (read_reply r) acb).qiov ≡ copy (flat acb.qiov) r.bytes
filled_text r acb size =
    (iov_from_buf_lem acb.qiov 0 r.bytes r.size_in_bytes (omega (arith, size))).0
    ∙ ap (copy (flat acb.qiov)) (take_all r.size_in_bytes r.bytes (omega (arith, size)))

-- A read with this vector and this answer is under way, or it is done and its coroutine was woken.
abbrev Fate : ℕ → Bytes → ReadReply → Acb → List Reply → Type 0
Fate a text answer acb future_answers =
    ((acb.scheduled ≡ 0)
      × (flat acb.qiov ≡ text)
      × All (IsRight a (read_reply answer)) future_answers)
    ⊎ ((acb.scheduled ≢ 0) × (acb.ret ≡ pos 0) × (flat acb.qiov ≡ copy text answer.bytes))

module _ (env : Env) (v : VolumeState) (a : ℕ) (text : Bytes) (answer : ReadReply) where
  pub record Reading (t : System env) : Type 0 where
    pub acb : Acb
    pub live : find a t.client.acbs ≡ some acb
    pub posted : acb.callback ≡ true
    pub fate : Fate a text answer acb (future env v t)

  -- A step that leaves the block alone.
  pub keeps-Reading :
      (t u : System env) (r : Reading t)
      → find a u.client.acbs ≡ some r.acb
      → (All (IsRight a (read_reply answer)) (future env v t)
          → All (IsRight a (read_reply answer)) (future env v u))
      → Reading u
  keeps-Reading t u r live right = record {
    acb = r.acb;
    live = live;
    posted = r.posted;
    fate = elim (r.fate) [
      | inl (waits, same, before) ↦ inl (waits, same, right before)
      | inr done ↦ inr done
    ];
  }

  -- Another request was started.
  pub started-Reading :
      (t : System env) (c : Client env) (r : Reading t)
      → Inv env v t
      → Inv env v (after_client env t c)
      → Starts env t c
      → find a c.acbs ≡ some r.acb
      → Reading (after_client env t c)
  started-Reading t c r inv inv' (grown, same, kept) live =
      keeps-Reading t (after_client env t c) r live λ before.
        subst (All (IsRight a (read_reply answer))) (sym (future-start env v t c extra grown same))
          (All-append (IsRight a (read_reply answer)) (future env v t) (heard_all extra late) before
            (All-unnamed a (read_reply answer) (heard_all extra late) none_named))
    where
      extra : List Request
      extra = sends env t (after_client env t c)

      late : Bytes
      late = after_all (queued env t) (env.host.contents v.fd t.server.disk)

      none_named : told (heard_all extra late) a ≡ 0
      none_named =
          let one : r.acb.scheduled + (asked (queued env t) a + told (answers env t) a) ≡ 1 =
            rw (r.posted) at (rw (r.live) at (inv.blocks a)) in
          let one' : r.acb.scheduled + (asked (queued env t ++ extra) a + told (answers env t) a)
              ≡ 1 =
            rw (grown, same) at (rw (r.posted) at (rw live at (inv'.blocks a))) in
          omega (arith, told-heard_all extra late a, asked-append (queued env t) extra a, one, one')

  -- The reply thread took an answer.
  pub answer-Reading :
      (t : System env) (go : Bool) (c : Client env)
      → Inv env v t
      → co_reply_round env (client_view env t) ≡ ok go c
      → Reading t
      → Reading (after_client env t c)
  answer-Reading t go c inv run r = answer_list (answers env t) refl
    where
      taken :
          (m : Reply) (ms : List Reply) (d : Client env)
          → answers env t ≡ m ∷ ms
          → answers env (after_client env t d) ≡ ms
          → queued env (after_client env t d) ≡ queued env t
          → find a d.acbs ≡ some (if tells m a == 1 then told_of m r.acb else r.acb)
          → Reading (after_client env t d)
      taken m ms d first left same block = elim (Bool-cases (tells m a == 1)) [
        | inr other ↦
            keeps-Reading t (after_client env t d) r (rw other at block)
              (λ before. rw (left, same) (rw first at before).1)
        | inl named ↦ elim (r.fate) [
          | inr done ↦
              let one : r.acb.scheduled + (asked (queued env t) a + (tells m a + told ms a)) ≡ 1 =
                rw (r.posted) at (rw (r.live) at (rw first at (inv.blocks a))) in
              let told_once : tells m a ≡ 1 = ground arith in
              let woken = done.0 in absurd (omega (arith, one, told_once, woken))
          | inl (waits, unread, before) ↦
              let is : m ≡ read_reply answer = (rw first at before).0 (ground arith) in
              let size : answer.size_in_bytes ≡ length answer.bytes =
                (subst (IsAnswer t.client.volume) is (rw first at (inv.answered)).0).1 in
              record {
                acb = told_of (read_reply answer) r.acb;
                live = subst (λ x. find a d.acbs ≡ some (told_of x r.acb)) is (rw named at block);
                posted = r.posted;
                fate = inr (
                  omega arith,
                  refl,
                  filled_text answer r.acb size ∙ ap (λ x. copy x answer.bytes) unread,
                );
              }
        ]
      ]

      answer_list : (ms : List Reply) → answers env t ≡ ms → Reading (after_client env t c)
      answer_list [] first = absurd (cc (run, answer_empty env (client_view env t) first))
      answer_list (m ∷ ms) first =
          let (d, ran, left, same, buffer, room, blocks, kept) =
            answer_next env v t inv m ms first in
          subst (λ y. Reading (after_client env t y)) (ok-state true go d c (sym ran ∙ run))
            (taken m ms d first left same (rw (r.live) at (blocks a)))

  -- Another coroutine went on.
  pub resumed-Reading :
      (t : System env) (b : ℕ) (c : Client env)
      → Inv env v t
      → b ≢ a
      → record (client_view env t) { acbs = free b t.client.acbs } ≡ c
      → Reading t
      → Reading (after_client env t c)
  resumed-Reading t b c inv other is r =
      subst (λ y. Reading (after_client env t y)) is
        (keeps-Reading t _ r (find-free b a t.client.acbs inv.distinct ∙ rw (r.live) (ground arith))
          (λ before. before))
