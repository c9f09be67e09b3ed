-- ===== src/System/Flight/Tests/Flushing.antt =====
-- An example for a flush among other requests.
use qemu_cvbd_shraed_memory.Common.{◌≡◌, refl, true, List, [], ◌∷◌, replicate, ◌++◌, arith}
use qemu_cvbd_shraed_memory.Common.Int.{pos, to_u64, to_i64}
use qemu_cvbd_shraed_memory.Common.Outcome.{ok}
use qemu_cvbd_shraed_memory.Common.Store.{find, update, free}
use qemu_cvbd_shraed_memory.Host.Simple.{simple}
use qemu_cvbd_shraed_memory.Iov.{iov_to_buf, iov_from_buf}
use qemu_cvbd_shraed_memory.Message.{Request}
use qemu_cvbd_shraed_memory.Server.{handle_requests, round, dispatch, fsync, write}
use qemu_cvbd_shraed_memory.Aio.{Acb, finish_aio}
use qemu_cvbd_shraed_memory.AsyncClient.{
  co_reply_round, shared_mem_fsync, co_reply, fsync_done, complete, shared_mem_writev,
  shared_mem_readv,
}
use qemu_cvbd_shraed_memory.Cvbd.{
  yielded, co_flush_to_disk, co_writev, co_readv, is_request_aligned, complete_aio,
}
use qemu_cvbd_shraed_memory.System.{System, on_client, on_server}
use qemu_cvbd_shraed_memory.System.Tests.{volume, idle}
use qemu_cvbd_shraed_memory.System.Sequential.OneFile.{one_file-Reliable}
use qemu_cvbd_shraed_memory.System.Flight.{start_read, serve, answer, Reach, here, next, queued}
use qemu_cvbd_shraed_memory.System.Sequential.{after_all}
use qemu_cvbd_shraed_memory.System.Flight.Logs.{all_sent}
use qemu_cvbd_shraed_memory.System.Flight.Barrier.{co_flush_to_disk-covers}
use qemu_cvbd_shraed_memory.System.Flight.Tests.{state_of, wrote, waiting, until_read}

-- A write, a flush and a read are posted; the server serves the first two, and the reply thread takes
-- the flush's answer.
abbrev flushing : System simple
flushing = state_of (on_client simple (co_flush_to_disk simple) wrote)

abbrev reading : System simple
reading =
    state_of (on_client simple (co_readv simple (pos 8) (pos 8) (replicate 4096 0 ∷ [])) flushing)

abbrev write_served : System simple
write_served = state_of (on_server simple (handle_requests simple 1) reading)

abbrev flush_served : System simple
flush_served = state_of (on_server simple (handle_requests simple 1) write_served)

abbrev flushed : System simple
flushed = state_of (on_client simple (co_reply_round simple) flush_served)

flush_posted : on_client simple (co_flush_to_disk simple) wrote ≡ ok (yielded 2) flushing
unfolding find update on_client co_writev co_flush_to_disk is_request_aligned to_u64 to_i64
    shared_mem_writev shared_mem_fsync iov_to_buf finish_aio complete
flush_posted = refl

read_posted :
    on_client simple (co_readv simple (pos 8) (pos 8) (replicate 4096 0 ∷ [])) flushing
    ≡ ok (yielded 4) reading
unfolding find update on_client co_writev co_readv co_flush_to_disk is_request_aligned to_u64 to_i64
    shared_mem_writev shared_mem_readv shared_mem_fsync iov_to_buf finish_aio complete
read_posted = refl

from_flush : Reach simple flushing flushed
unfolding find update on_server handle_requests round dispatch write fsync on_client co_writev
    co_readv co_flush_to_disk is_request_aligned to_u64 to_i64 shared_mem_writev shared_mem_readv
    shared_mem_fsync iov_to_buf iov_from_buf finish_aio co_reply_round co_reply fsync_done complete
from_flush =
    next
      (next
        (next
          (next here (start_read (pos 8) (pos 8) (replicate 4096 0 ∷ []) (yielded 4) read_posted))
          (serve true refl))
        (serve true refl))
      (answer true refl)

abbrev woken : Acb
woken = record waiting { scheduled = 1; bh = true }

co_flush_to_disk-covers_example :
    (z : System simple) × (on_client simple (complete_aio simple 2) flushed ≡ ok (pos 0) z)
    × (z.client.acbs ≡ free 2 flushed.client.acbs)
    × (done_later : List Request) × (done_later ++ queued simple z ≡ all_sent from_flush)
    × (z.server.disk ≡ after_all done_later (after_all (all_sent until_read) idle.server.disk))
unfolding find until_read from_flush co_flush_to_disk fsync_done shared_mem_fsync
co_flush_to_disk-covers_example =
    co_flush_to_disk-covers simple volume idle wrote flushing flushed one_file-Reliable until_read 2
      flush_posted from_flush woken (omega arith) refl refl refl refl refl refl
      (
        ((refl, refl, refl), refl, omega arith, omega arith, omega arith),
        ((refl, refl, refl), (((refl, refl, refl), refl, omega arith, omega arith), tt)),
      )
      refl (omega arith)
