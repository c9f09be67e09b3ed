-- ===== src/AsyncClient/Waiting.antt =====
-- SharedMemClientASync.cpp: the wait of `send_open` against the signal of the reply thread.
use qemu_cvbd_shraed_memory.Common.{◌≡◌, refl, true, false, [], ◌∷◌, arith}
use qemu_cvbd_shraed_memory.Common.Outcome.{ok, stopped, blocked}
use qemu_cvbd_shraed_memory.Message.{Reply, reply_header, req_open}
use qemu_cvbd_shraed_memory.Host.{Env}
use qemu_cvbd_shraed_memory.AsyncClient.{
  Client, wait_to_complete, signal_completion, co_reply, co_reply_round,
}

-- The answer to `send_open` is the only message in the reply queue. Where the thread waits before
-- the reply thread takes the answer, the signal wakes it. In the other order the signal is lost: the
-- thread waits, and the reply thread, whose queue is empty, can never signal again.
pub lost_wakeup :
    (env : Env) (s : Client env) (m : Reply)
    → env.replies.messages s.reply_mq s.incoming ≡ m ∷ []
    → (reply_header m).stop ≡ false
    → (reply_header m).type ≡ req_open
    → (early after late stuck : Client env) × (wait_to_complete env s ≡ ok tt early)
      × (co_reply_round env early ≡ ok true after)
      × (after.waiting ≡ false)
      × (co_reply_round env s ≡ ok true late)
      × (wait_to_complete env late ≡ ok tt stuck)
      × (stuck.waiting ≡ true)
      × (co_reply_round env stuck ≡ stopped blocked)
unfolding wait_to_complete co_reply_round co_reply signal_completion
lost_wakeup env s m one st ty =
    let (shm, taken, empty, kept) = env.replies.receive_first s.reply_mq m [] s.incoming one in
    let none_left = env.replies.receive_empty s.reply_mq shm empty in
    let signalled : Client env = record s { reply_msg = m; incoming = shm; waiting = false } in
    (
      record s { waiting = true },
      signalled,
      signalled,
      record signalled { waiting = true },
      refl,
      ground arith,
      refl,
      ground arith,
      refl,
      refl,
      ground arith,
    )
