-- ===== src/AsyncClient/Ending.antt =====
-- SharedMemClientASync.cpp: the destructor of the client.
use qemu_cvbd_shraed_memory.Common.{Bool, true, false, ◌≡◌, ◌<◌, none, some, length, ltb, arith}
use qemu_cvbd_shraed_memory.Common.Outcome.{
  ok, stopped, crashed, M, ◌>>=◌, ◌>>◌, pure, stop, branch,
}
use qemu_cvbd_shraed_memory.Host.{Env}
use qemu_cvbd_shraed_memory.AsyncClient.{Client}
use qemu_cvbd_shraed_memory.Message.{Header, blank, Reply, fsync_reply}
use qemu_cvbd_shraed_memory.Message.Sizes.{header_size, reply_size, reply_size-header_size}
use qemu_cvbd_shraed_memory.Common.Int.{pos}

module _ (env : Env) where
  open env use {replies}

  -- `getStopRequest<Header>()`: of the message only the header is the program's.
  abbrev pub stop_header : Header
  stop_header = record blank { stop = true }

  abbrev pub stop_message : Reply
  stop_message = fsync_reply (record { header = stop_header; err = pos 0 })

  -- `reply_mq_->try_send(getStopRequest<Header>(), reply_size, 0)`: unless the queue is full,
  -- `reply_size` bytes are copied from an object of `header_size` bytes.
  unfoldable pub try_stop : M (Client env) Bool
  try_stop s = elim (replies.send s.reply_mq stop_message s.incoming) [
    | none ↦ ok false s
    | some shm ↦
        branch (ltb header_size reply_size) (stop crashed) (pure true) (record s { incoming = shm })
  ]

  -- `~SharedMemClient`. The message buffers are freed first, and nothing here reads them again.
  unfoldable pub destroy : M (Client env) (Unit {0})
  unfolding try_stop
  destroy = do remove_name; _ ← try_stop; pure tt
    where
      remove_name : M (Client env) (Unit {0})
      remove_name s = ok tt (record s { incoming = (replies.remove s.volume_name s.incoming).1 })

  -- While the reply queue has room, the destructor reads past the end of the stop message. Where the
  -- queue is full and cannot be sent to, it returns, and no stop message has reached the reply thread:
  -- its queue holds what it held, and has lost its name.
  pub destroy_lem :
      (s full : Client env)
      → length (replies.messages s.reply_mq s.incoming) < replies.capacity s.reply_mq s.incoming
      → replies.send full.reply_mq stop_message (replies.remove full.volume_name full.incoming).1
        ≡ none
      → (destroy s ≡ stopped crashed)
        × (t : Client env) × (destroy full ≡ ok tt t)
        × (replies.messages full.reply_mq t.incoming ≡ replies.messages full.reply_mq full.incoming)
  unfolding destroy
  destroy_lem s full room no_room =
      let (same, cap) = replies.remove_keeps s.volume_name s.reply_mq s.incoming in
      let (shm, sent) =
        replies.send_room s.reply_mq stop_message (replies.remove s.volume_name s.incoming).1
          (rw (same, cap) room) in
      (
        ground (arith, sent, reply_size-header_size),
        record full { incoming = (replies.remove full.volume_name full.incoming).1 },
        ground (arith, no_room),
        (replies.remove_keeps full.volume_name full.reply_mq full.incoming).0,
      )
