-- ===== src/System/Flight/Resumes.antt =====
-- A coroutine that goes on frees its block, and keeps the count of answers.
use qemu_cvbd_shraed_memory.Common.{
  ◌<◌, ℕ, ◌+◌, ◌≡◌, ◌≢◌, ◌∙◌, subst, Bool-cases, inl, inr, none, some, true, arith, ◌==◌,
  if◌then◌else◌,
}
use qemu_cvbd_shraed_memory.Common.Int.{ℤ}
use qemu_cvbd_shraed_memory.Common.Outcome.{ok}
use qemu_cvbd_shraed_memory.Common.Store.{find, find-free, Distinct-free}
use qemu_cvbd_shraed_memory.Host.{Env}
use qemu_cvbd_shraed_memory.Server.{VolumeState}
use qemu_cvbd_shraed_memory.Aio.{Acb}
use qemu_cvbd_shraed_memory.AsyncClient.{Client}
use qemu_cvbd_shraed_memory.Cvbd.{complete_aio}
use qemu_cvbd_shraed_memory.Cvbd.Woken.{complete_aio-returns}
use qemu_cvbd_shraed_memory.System.{System, client_view, after_client}
use qemu_cvbd_shraed_memory.System.Flight.{asked, told, Settles, queued, answers, work, Inv}
use qemu_cvbd_shraed_memory.System.Flight.Counts.{length-free}

module _ (env : Env) (v : VolumeState) (s : System env) (inv : Inv env v s) where
  -- A coroutine that goes on after its bottom half frees its block, which no message names.
  pub resume-Inv :
      (a : ℕ) (acb : Acb) (result : ℤ) (c : Client env)
      → find a s.client.acbs ≡ some acb
      → acb.scheduled ≢ 0
      → complete_aio env a (client_view env s) ≡ ok result c
      → Inv env v (after_client env s c) × (work env (after_client env s c) < work env s)
  resume-Inv a acb result c here woken e =
      subst (λ x. Inv env v (after_client env s x) × (work env (after_client env s x) < work env s))
        (complete_aio-returns env (client_view env s) a acb here result c e)
        (
          record {
            nonnull = inv.nonnull;
            live = inv.live;
            one_request_mq = inv.one_request_mq;
            one_reply_mq = inv.one_reply_mq;
            sent = inv.sent;
            answered = inv.answered;
            blocks = λ x. rw (find-free a x s.client.acbs inv.distinct) (settle x);
            halves = λ x other. rw (find-free a x s.client.acbs inv.distinct) (half_at x other);
            distinct = Distinct-free a s.client.acbs inv.distinct;
            no_null = find-free a 0 s.client.acbs inv.distinct ∙ ground (arith, inv.no_null);
          },
          omega (arith, length-free a acb s.client.acbs here),
        )
    where
      half_at :
          (x : ℕ) (other : Acb)
          → (if a == x then none else find x s.client.acbs) ≡ some other
          → other.scheduled ≢ 0
          → other.bh ≡ true
      half_at x other there run = elim (Bool-cases (a == x)) [
        | inl same ↦ absurd (ground arith)
        | inr differ ↦ inv.halves x other (rw differ at there) run
      ]

      no_answers : (n : ℕ) → Settles (find a s.client.acbs) n → n ≡ 0
      no_answers n h = elim (Bool-cases acb.callback) [
        | inl e ↦
            (let one : acb.scheduled + n ≡ 1 = rw e at (rw here at h) in omega (arith, one, woken))
        | inr e ↦ rw e at (rw here at h)
      ]

      settle :
          (x : ℕ)
          → Settles
              (if a == x then none else find x s.client.acbs)
              (asked (queued env s) x + told (answers env s) x)
      settle x = elim (Bool-cases (a == x)) [
        | inl same ↦
            let here : a ≡ x = ground arith in
            rw same (
              subst (λ y. asked (queued env s) y + told (answers env s) y ≡ 0) here
                (no_answers (asked (queued env s) a + told (answers env s) a) (inv.blocks a)))
        | inr other ↦ rw other (inv.blocks x)
      ]
