-- ===== src/System/Flight/Answers.antt =====
-- Taking an answer wakes the coroutine that waits for it.
use qemu_cvbd_shraed_memory.Common.{
  Option, none, ◌<◌, ℕ, suc, ◌+◌, ◌≡◌, ◌≢◌, refl, sym, ◌∙◌, subst, Bool, true, Bool-cases, inl, inr,
  some, List, [], ◌∷◌, arith, ◌==◌, if◌then◌else◌,
}
use qemu_cvbd_shraed_memory.Common.Outcome.{ok, stopped, blocked}
use qemu_cvbd_shraed_memory.Common.Outcome.Keeps.{ok-state}
use qemu_cvbd_shraed_memory.Common.Store.{find, update, find-update, Distinct-update}
use qemu_cvbd_shraed_memory.Message.{Reply, GetSizeReply, read_reply, fsync_reply, getsize_reply}
use qemu_cvbd_shraed_memory.Host.{Env}
use qemu_cvbd_shraed_memory.Server.{VolumeState}
use qemu_cvbd_shraed_memory.Aio.{Acb, finish_aio}
use qemu_cvbd_shraed_memory.AsyncClient.{Client, co_reply_round}
use qemu_cvbd_shraed_memory.AsyncClient.Replies.{
  filled, read_reply-round, fsync_reply-round, getsize_reply-round,
}
use qemu_cvbd_shraed_memory.System.{System, client_view, after_client}
use qemu_cvbd_shraed_memory.System.Flight.{asked, tells, told, Settles, queued, answers, work, Inv}
use qemu_cvbd_shraed_memory.System.Flight.Told.{
  once_told, update-once_told, alive, finish_aio-wakes,
}
use qemu_cvbd_shraed_memory.System.Flight.Counts.{length-update}

pub answer_empty :
    (env : Env) (c : Client env)
    → env.replies.messages c.reply_mq c.incoming ≡ []
    → co_reply_round env c ≡ stopped blocked
unfolding co_reply_round
answer_empty env c empty = ground (arith, env.replies.receive_empty c.reply_mq c.incoming)

-- An answer that names no block changes none.
untold : (r : GetSizeReply) (x : ℕ) (o : Option Acb) → o ≡ once_told (getsize_reply r) x o
untold r x none = refl
untold r x (some acb) = refl

module _ (env : Env) (v : VolumeState) (s : System env) (inv : Inv env v s) where
  block-nonnull : (a : ℕ) (acb : Acb) → find a s.client.acbs ≡ some acb → a ≢ 0
  block-nonnull a acb here null =
      cc (here, inv.no_null, subst (λ x. find x s.client.acbs ≡ some acb) null here)

  -- The block that the first answer is for.
  owner :
      (m : Reply) (ms : List Reply) (a : ℕ)
      → answers env s ≡ m ∷ ms
      → tells m a ≡ 1
      → (acb : Acb) × (find a s.client.acbs ≡ some acb) × (acb.callback ≡ true)
  owner m ms a first once =
      let n : asked (queued env s) a + (tells m a + told ms a)
          ≡ suc (asked (queued env s) a + told ms a) =
        omega (arith, once) in
      alive (find a s.client.acbs) (asked (queued env s) a + told ms a)
        (rw n at (rw first at (inv.blocks a)))

  -- A client that has taken the first answer of its queue, and woken the coroutine of its block.
  woken-Inv :
      (c : Client env) (m : Reply) (ms : List Reply) (a : ℕ) (acb woken : Acb)
      → answers env s ≡ m ∷ ms
      → ((x : ℕ) → tells m x ≡ (if a == x then 1 else 0))
      → find a s.client.acbs ≡ some acb
      → acb.callback ≡ true
      → woken.callback ≡ true
      → woken.scheduled ≡ suc acb.scheduled
      → woken.bh ≡ true
      → c.volume ≡ s.client.volume
      → c.request_mq ≡ s.client.request_mq
      → c.reply_mq ≡ s.client.reply_mq
      → c.outgoing ≡ s.server.incoming
      → c.acbs ≡ update a woken s.client.acbs
      → env.replies.messages s.client.reply_mq c.incoming ≡ ms
      → Inv env v (after_client env s c) × (work env (after_client env s c) < work env s)
  woken-Inv c m ms a acb woken first names_it here cb wcb once half sv sq sr so sa left = (
    record {
      nonnull = rw sv inv.nonnull;
      live = rw sv inv.live;
      one_request_mq = rw sq inv.one_request_mq;
      one_reply_mq = rw sr inv.one_reply_mq;
      sent = rw (sq, so, sv) inv.sent;
      answered = rw (sr, left, sv) (rw first at (inv.answered)).1;
      blocks =
          λ x. rw (sq, sr, so, sa, left, find-update a x woken acb s.client.acbs here) (settle x);
      halves = λ x other. rw (sa, find-update a x woken acb s.client.acbs here) (half_at x other);
      distinct = rw sa (Distinct-update a woken s.client.acbs inv.distinct);
      no_null =
          rw (sa, find-update a 0 woken acb s.client.acbs here)
            (ground (arith, block-nonnull a acb here, inv.no_null));
    },
    rw (sq, sr, so, sa, left, first, length-update a woken s.client.acbs) (omega arith),
  )
    where
      half_at :
          (x : ℕ) (other : Acb)
          → (if a == x then some woken else find x s.client.acbs) ≡ some other
          → other.scheduled ≢ 0
          → other.bh ≡ true
      half_at x other there run = elim (Bool-cases (a == x)) [
        | inl same ↦ let e : woken ≡ other = ground arith in subst (λ y. y.bh ≡ true) e half
        | inr differ ↦ inv.halves x other (rw differ at there) run
      ]

      settle :
          (x : ℕ)
          → Settles
              (if a == x then some woken else find x s.client.acbs)
              (asked (queued env s) x + told ms x)
      settle x = elim (Bool-cases (a == x)) [
        | inl same ↦
            let there : find x s.client.acbs ≡ some acb =
              subst (λ y. find y s.client.acbs ≡ some acb) (ground arith) here in
            let b : acb.scheduled + (asked (queued env s) x + (tells m x + told ms x)) ≡ 1 =
              rw cb at (rw there at (rw first at (inv.blocks x))) in
            let t : tells m x ≡ 1 = names_it x ∙ rw same refl in
            rw (same, wcb, once) (omega (arith, b, t))
        | inr other ↦
            let b = rw first at (inv.blocks x) in
            let t : tells m x ≡ 0 = names_it x ∙ rw other refl in
            let n : asked (queued env s) x + told ms x
                ≡ asked (queued env s) x + (tells m x + told ms x) =
              omega (arith, t) in
            rw (other, n) b
      ]

  -- With an answer in its queue, the reply thread takes it and goes on.
  pub answer_next :
      (m : Reply) (ms : List Reply)
      → answers env s ≡ m ∷ ms
      → (c : Client env) × (co_reply_round env (client_view env s) ≡ ok true c)
        × (answers env (after_client env s c) ≡ ms)
        × (queued env (after_client env s c) ≡ queued env s)
        × (c.reply_msg ≡ m)
        × (env.replies.capacity s.client.reply_mq c.incoming
            ≡ env.replies.capacity s.client.reply_mq s.server.outgoing)
        × ((x : ℕ) → find x c.acbs ≡ once_told m x (find x s.client.acbs))
        × (Inv env v (after_client env s c) × (work env (after_client env s c) < work env s))
  answer_next (read_reply r) ms first =
      let ((goes, type, vol), size) = (rw first at (inv.answered)).0 in
      let (acb, here, cb) = owner (read_reply r) ms r.header.acb first (ground arith) in
      let (shm, taken, left, kept) =
        env.replies.receive_first s.client.reply_mq (read_reply r) ms s.server.outgoing first in
      (
        _,
        read_reply-round env (client_view env s) r acb shm taken goes type
            (block-nonnull r.header.acb acb here) here cb (omega (arith, size)),
        left,
        refl,
        refl,
        kept,
        λ x. update-once_told r.header.acb x (read_reply r) acb s.client.acbs here refl,
        woken-Inv _ (read_reply r) ms r.header.acb acb (filled env (client_view env s) r acb shm)
            first (λ x. refl) here cb cb refl refl refl refl refl refl refl left,
      )
  answer_next (fsync_reply r) ms first =
      let (goes, type, vol) = (rw first at (inv.answered)).0 in
      let (acb, here, cb) = owner (fsync_reply r) ms r.header.acb first (ground arith) in
      let (shm, taken, left, kept) =
        env.replies.receive_first s.client.reply_mq (fsync_reply r) ms s.server.outgoing first in
      (
        _,
        fsync_reply-round env (client_view env s) r acb shm taken goes type
            (block-nonnull r.header.acb acb here) here cb,
        left,
        refl,
        refl,
        kept,
        λ x. update-once_told r.header.acb x (fsync_reply r) acb s.client.acbs here refl,
        woken-Inv _ (fsync_reply r) ms r.header.acb acb
            (finish_aio r.err (record acb { ret = r.err })) first (λ x. refl) here cb
            ((finish_aio-wakes r.err (record acb { ret = r.err })).0 ∙ cb)
            ((finish_aio-wakes r.err (record acb { ret = r.err })).1)
            ((finish_aio-wakes r.err (record acb { ret = r.err })).2) refl refl refl refl refl left,
      )
  answer_next (getsize_reply r) ms first =
      let (goes, type, vol) = (rw first at (inv.answered)).0 in
      let (shm, taken, left, kept) =
        env.replies.receive_first s.client.reply_mq (getsize_reply r) ms s.server.outgoing first in
      (
        _,
        getsize_reply-round env (client_view env s) r shm taken goes type,
        left,
        refl,
        refl,
        kept,
        λ x. untold r x (find x s.client.acbs),
        (
          record {
            nonnull = inv.nonnull;
            live = inv.live;
            one_request_mq = inv.one_request_mq;
            one_reply_mq = inv.one_reply_mq;
            sent = inv.sent;
            answered = rw left (rw first at (inv.answered)).1;
            blocks = λ x.
                let n : asked (queued env s) x + (0 + told ms x)
                    ≡ asked (queued env s) x + told ms x =
                  omega arith in
                rw left (rw n at (rw first at (inv.blocks x)));
            halves = inv.halves;
            distinct = inv.distinct;
            no_null = inv.no_null;
          },
          rw (left, first) (omega arith),
        ),
      )
  answer_next other ms first = absurd ((rw first at (inv.answered)).0)

  pub answer-Inv :
      (go : Bool) (c : Client env)
      → co_reply_round env (client_view env s) ≡ ok go c
      → Inv env v (after_client env s c) × (work env (after_client env s c) < work env s)
  answer-Inv go c e = answer_list (answers env s) refl
    where
      answer_list :
          (ms : List Reply)
          → answers env s ≡ ms
          → Inv env v (after_client env s c) × (work env (after_client env s c) < work env s)
      answer_list [] first = absurd (cc (e, answer_empty env (client_view env s) first))
      answer_list (m ∷ ms) first =
          let (d, run, left, same, buffer, room, blocks, kept) = answer_next m ms first in
          subst
            (λ x. Inv env v (after_client env s x) × (work env (after_client env s x) < work env s))
            (ok-state true go d c (sym run ∙ e)) kept
