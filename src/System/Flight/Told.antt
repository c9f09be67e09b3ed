-- ===== src/System/Flight/Told.antt =====
-- What an answer does to the block that it names.
use qemu_cvbd_shraed_memory.Common.{
  ℕ, suc, ◌≡◌, refl, ◌∙◌, subst, true, Bool-cases, inl, inr, Option, none, some, arith, ◌==◌,
  if◌then◌else◌,
}
use qemu_cvbd_shraed_memory.Common.Int.{ℤ, pos}
use qemu_cvbd_shraed_memory.Common.Store.{Store, find, update, find-update}
use qemu_cvbd_shraed_memory.Iov.{iov_from_buf}
use qemu_cvbd_shraed_memory.Message.{Reply, read_reply, fsync_reply}
use qemu_cvbd_shraed_memory.Aio.{Acb, finish_aio}
use qemu_cvbd_shraed_memory.System.Flight.{Settles, tells}

-- The block once the answer has been taken; a reply to another kind of request leaves it alone.
abbrev pub told_of : Reply → Acb → Acb
told_of (read_reply r) acb = record acb {
  qiov = (iov_from_buf acb.qiov 0 r.bytes r.size_in_bytes 0).iov;
  ret = pos 0;
  scheduled = suc acb.scheduled;
  bh = true;
}
told_of (fsync_reply r) acb = finish_aio r.err (record acb { ret = r.err })
told_of other acb = acb

-- The blocks, as an answer leaves them.
abbrev pub once_told : Reply → ℕ → Option Acb → Option Acb
once_told m x none = none
once_told m x (some acb) = some (if tells m x == 1 then told_of m acb else acb)

-- Of the blocks only the one that was written changes.
pub update-once_told :
    (a x : ℕ) (m : Reply) (owner : Acb) (h : Store Acb)
    → find a h ≡ some owner
    → tells m x ≡ (if a == x then 1 else 0)
    → find x (update a (told_of m owner) h) ≡ once_told m x (find x h)
update-once_told a x m owner h here named =
    find-update a x (told_of m owner) owner h here ∙ elim (Bool-cases (a == x)) [
      | inl same ↦
          let e : find x h ≡ some owner = subst (λ y. find y h ≡ some owner) (ground arith) here in
          let one : tells m x ≡ 1 = rw same at named in rw (same, e, one) refl
      | inr other ↦
          let no_one : tells m x ≡ 0 = rw other at named in
          rw other (elim (find x h) as (λ o. o ≡ once_told m x o) [
            | none ↦ refl
            | some acb ↦ rw no_one refl
          ])
    ]

-- A block that an answer is on its way for is live, and has its callback.
pub alive :
    (o : Option Acb) (n : ℕ)
    → Settles o (suc n)
    → (acb : Acb) × (o ≡ some acb) × (acb.callback ≡ true)
alive none n h = absurd (omega (arith, h))
alive (some acb) n h = elim (Bool-cases acb.callback) [
  | inl e ↦ (acb, refl, e)
  | inr e ↦ (let none_left : suc n ≡ 0 = rw e at h in absurd (omega (arith, none_left)))
]

pub finish_aio-wakes :
    (result : ℤ) (acb : Acb)
    → ((finish_aio result acb).callback ≡ acb.callback)
      × ((finish_aio result acb).scheduled ≡ suc acb.scheduled)
      × ((finish_aio result acb).bh ≡ true)
unfolding finish_aio
finish_aio-wakes result acb = (refl, refl, refl)
