-- ===== src/Cvbd/Woken.antt =====
-- cvbd.c: the bottom half of a block, which lets its coroutine go on.
use qemu_cvbd_shraed_memory.Common.{
  ℕ, ◌≡◌, ◌∙◌, sym, true, false, some, Bool-cases, inl, inr, arith,
}
use qemu_cvbd_shraed_memory.Common.Int.{ℤ}
use qemu_cvbd_shraed_memory.Common.Outcome.{ok, stopped, crashed}
use qemu_cvbd_shraed_memory.Common.Outcome.Keeps.{ok-state}
use qemu_cvbd_shraed_memory.Common.Store.{find, update, free, find-update, free-update}
use qemu_cvbd_shraed_memory.Host.{Env}
use qemu_cvbd_shraed_memory.Aio.{Acb}
use qemu_cvbd_shraed_memory.AsyncClient.{Client}
use qemu_cvbd_shraed_memory.Cvbd.{complete_aio}

module _ (env : Env) (s : Client env) (a : ℕ) (acb : Acb) (live : find a s.acbs ≡ some acb) where
  -- The coroutine returns the block's result, and the block is freed.
  pub complete_aio-done :
      acb.bh ≡ true → complete_aio env a s ≡ ok acb.ret (record s { acbs = free a s.acbs })
  unfolding complete_aio
  complete_aio-done half =
      let late : Acb = record acb { bh = false } in
      let stored : find a (update a late s.acbs) ≡ some late =
        find-update a a late acb s.acbs live ∙ ground arith in
      ground (arith, stored, free-update a late s.acbs)

  complete_aio-null : acb.bh ≡ false → complete_aio env a s ≡ stopped crashed
  unfolding complete_aio
  complete_aio-null none_left = ground arith

  pub complete_aio-returns :
      (result : ℤ) (t : Client env)
      → complete_aio env a s ≡ ok result t
      → record s { acbs = free a s.acbs } ≡ t
  complete_aio-returns result t e = elim (Bool-cases acb.bh) [
    | inl half ↦ ok-state _ _ _ _ (sym (complete_aio-done half) ∙ e)
    | inr none_left ↦ absurd (cc (e, complete_aio-null none_left))
  ]
