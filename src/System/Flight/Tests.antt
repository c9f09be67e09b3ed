-- ===== src/System/Flight/Tests.antt =====
-- Examples for the theorems on many coroutines.
mod Flushing
use qemu_cvbd_shraed_memory.Common.{
  ℕ, ◌+◌, ◌≡◌, ◌≤◌, ◌⊎◌, refl, true, false, List, [], ◌∷◌, replicate, ◌++◌, length, take, drop,
  arith,
}
use qemu_cvbd_shraed_memory.Common.Int.{pos, to_u64, to_i64}
use qemu_cvbd_shraed_memory.Common.Outcome.{Outcome, ok, thrown, stopped, blocked}
use qemu_cvbd_shraed_memory.Common.Store.{find, update, free}
use qemu_cvbd_shraed_memory.Host.Simple.{simple}
use qemu_cvbd_shraed_memory.Iov.{iov_to_buf, iov_from_buf}
use qemu_cvbd_shraed_memory.Message.{Request}
use qemu_cvbd_shraed_memory.Server.{handle_requests, round, dispatch, fsync, read, write}
use qemu_cvbd_shraed_memory.Aio.{Acb, finish_aio}
use qemu_cvbd_shraed_memory.AsyncClient.{
  co_reply_round, handle_co_reply, shared_mem_fsync, co_reply, fsync_done, read_done, complete,
  shared_mem_writev, shared_mem_readv,
}
use qemu_cvbd_shraed_memory.Cvbd.{
  yielded, co_flush_to_disk, co_writev, co_readv, is_request_aligned, complete_aio, in_bytes,
}
use qemu_cvbd_shraed_memory.System.{System, on_client, on_server}
use qemu_cvbd_shraed_memory.System.Tests.{volume, idle}
use qemu_cvbd_shraed_memory.System.Sequential.OneFile.{one_file-Reliable}
use qemu_cvbd_shraed_memory.System.Flight.{
  start_flush, start_read, start_write, serve, answer, Reach, Settles, here, next, queued, answers,
  work, asked, told,
}
use qemu_cvbd_shraed_memory.System.Sequential.{at, after_all, heard_all}
use qemu_cvbd_shraed_memory.System.Flight.Logs.{all_sent, all_taken}
use qemu_cvbd_shraed_memory.System.Flight.Linear.{flight-Ordered}
use qemu_cvbd_shraed_memory.System.Flight.Completes.{all_complete}
use qemu_cvbd_shraed_memory.System.Flight.Delivery.{co_readv-delivers}
use qemu_cvbd_shraed_memory.Iov.Gather.{flat}
use qemu_cvbd_shraed_memory.Iov.Scatter.{copy}
use qemu_cvbd_shraed_memory.System.Flight.Safety.{
  stay, move, reply_thread_lem, wakes_once, settles_in,
}

abbrev state_of : {A : Type 0} → Outcome (System simple) A → System simple
state_of (ok a s) = s
state_of (thrown s) = s
state_of (stopped e) = idle

-- Two flushes are posted, and the server answers the first.
abbrev one : System simple
one = state_of (on_client simple (co_flush_to_disk simple) idle)

abbrev one_more : System simple
one_more = state_of (on_client simple (co_flush_to_disk simple) one)

abbrev served : System simple
served = state_of (on_server simple (handle_requests simple 1) one_more)

abbrev answered : System simple
answered = state_of (on_client simple (co_reply_round simple) served)

reached : Reach simple idle served
unfolding find update on_server handle_requests round dispatch fsync on_client co_flush_to_disk
    shared_mem_fsync
reached =
    next (next (next here (start_flush (yielded 1) refl)) (start_flush (yielded 2) refl))
      (serve true refl)

reply_thread_lem_example :
    ((answers simple served ≡ [])
      × (on_client simple (co_reply_round simple) served ≡ stopped blocked))
    ⊎ ((u : System simple) × (on_client simple (co_reply_round simple) served ≡ ok true u))
unfolding find
reply_thread_lem_example =
    reply_thread_lem simple volume idle served (omega arith) refl refl refl refl refl refl reached

abbrev waiting : Acb
waiting = record { size = 0; ret = pos 0; qiov = []; callback = true; scheduled = 0; bh = false }

wakes_once_example : 0 + (asked (queued simple served) 2 + told (answers simple served) 2) ≡ 1
unfolding find update on_server handle_requests round dispatch fsync on_client co_flush_to_disk
    shared_mem_fsync
wakes_once_example =
    wakes_once simple volume idle served (omega arith) refl refl refl refl refl refl 2 waiting
      reached refl refl

settles_in_example : 1 + work simple answered ≤ 2 + length served.client.acbs + 1
unfolding find update on_server handle_requests round dispatch fsync on_client co_flush_to_disk
    shared_mem_fsync co_reply_round co_reply fsync_done finish_aio complete
settles_in_example =
    settles_in simple volume idle served (omega arith) refl refl refl refl refl refl 1 answered
      reached (move stay (answer true refl) (λ e. e))

-- Eight sectors at sector 8: a write and a read are posted, the server serves both, and the reply thread
-- takes the answer.
abbrev wrote : System simple
wrote = state_of (on_client simple (co_writev simple (pos 8) (pos 8) (replicate 4096 7 ∷ [])) idle)

abbrev asks_too : System simple
asks_too =
    state_of (on_client simple (co_readv simple (pos 8) (pos 8) (replicate 4096 0 ∷ [])) wrote)

abbrev first_served : System simple
first_served = state_of (on_server simple (handle_requests simple 1) asks_too)

abbrev both_served : System simple
both_served = state_of (on_server simple (handle_requests simple 1) first_served)

abbrev delivered : System simple
delivered = state_of (on_client simple (co_reply_round simple) both_served)

mixed : Reach simple idle delivered
unfolding find update on_server handle_requests round dispatch write read on_client co_writev
    co_readv is_request_aligned to_u64 to_i64 shared_mem_writev shared_mem_readv iov_to_buf
    iov_from_buf finish_aio co_reply_round co_reply read_done complete
mixed =
    next
      (next
        (next
          (next (next here (start_write (pos 8) (pos 8) (replicate 4096 7 ∷ []) (yielded 1) refl))
            (start_read (pos 8) (pos 8) (replicate 4096 0 ∷ []) (yielded 2) refl))
          (serve true refl))
        (serve true refl))
      (answer true refl)

flight-Ordered_example :
    (done : List Request) × (done ++ queued simple delivered ≡ all_sent mixed)
    × (delivered.server.disk ≡ after_all done idle.server.disk)
    × (all_taken mixed ++ answers simple delivered ≡ heard_all done idle.server.disk)
unfolding find mixed
flight-Ordered_example =
    flight-Ordered simple volume idle delivered one_file-Reliable mixed (omega arith) refl refl refl
      refl refl refl
      (
        ((refl, refl, refl), refl, omega arith, omega arith, omega arith),
        (((refl, refl, refl), refl, omega arith, omega arith), tt),
      )

-- The same steps, cut at the call of the read.
until_read : Reach simple idle wrote
unfolding find update on_client co_writev is_request_aligned to_u64 to_i64 shared_mem_writev
    iov_to_buf finish_aio complete
until_read = next here (start_write (pos 8) (pos 8) (replicate 4096 7 ∷ []) (yielded 1) refl)

posts :
    on_client simple (co_readv simple (pos 8) (pos 8) (replicate 4096 0 ∷ [])) wrote
    ≡ ok (yielded 2) asks_too
unfolding find update on_client co_writev co_readv is_request_aligned to_u64 to_i64
    shared_mem_writev shared_mem_readv iov_to_buf finish_aio complete
posts = refl

from_read : Reach simple asks_too delivered
unfolding find update on_server handle_requests round dispatch write read on_client co_writev
    co_readv is_request_aligned to_u64 to_i64 shared_mem_writev shared_mem_readv iov_to_buf
    iov_from_buf finish_aio co_reply_round co_reply read_done complete
from_read = next (next (next here (serve true refl)) (serve true refl)) (answer true refl)

abbrev full : Acb
full = record {
  size = 4096;
  ret = pos 0;
  qiov = replicate 4096 7 ∷ [];
  callback = true;
  scheduled = 1;
  bh = true;
}

co_readv-delivers_example :
    (z : System simple) × (on_client simple (complete_aio simple 2) delivered ≡ ok (pos 0) z)
    × (z.client.acbs ≡ free 2 delivered.client.acbs)
    × (flat full.qiov
        ≡ copy (flat (replicate 4096 0 ∷ [])) (
            take (in_bytes 512 (pos 8)) (
              drop
                (at (to_i64 (in_bytes 512 (pos 8))))
                (after_all (all_sent until_read) idle.server.disk))))
unfolding find until_read from_read
co_readv-delivers_example =
    co_readv-delivers simple volume idle wrote asks_too delivered one_file-Reliable until_read
      (pos 8) (pos 8) (replicate 4096 0 ∷ []) 2 posts from_read full (omega arith) refl refl refl
      refl refl refl
      (
        ((refl, refl, refl), refl, omega arith, omega arith, omega arith),
        (((refl, refl, refl), refl, omega arith, omega arith), tt),
      )
      (((tt, tt), tt), tt) refl (omega arith)

both_posted : Reach simple idle asks_too
unfolding until_read
both_posted = next until_read (start_read (pos 8) (pos 8) (replicate 4096 0 ∷ []) (yielded 2) posts)

all_complete_example :
    (mid u : System simple) × (on_server simple
        (handle_requests simple (length (queued simple asks_too)))
        asks_too
      ≡ ok true mid)
    × (on_client simple (handle_co_reply simple (length (answers simple mid))) mid ≡ ok true u)
    × (queued simple u ≡ [])
    × (answers simple u ≡ [])
    × ((a : ℕ) → Settles (find a u.client.acbs) 0)
    × (u.server.disk ≡ after_all (all_sent both_posted) idle.server.disk)
unfolding find until_read both_posted co_readv shared_mem_readv
all_complete_example =
    all_complete simple volume idle asks_too one_file-Reliable both_posted (omega arith) refl refl
      refl refl refl refl
      (
        ((refl, refl, refl), refl, omega arith, omega arith, omega arith),
        (((refl, refl, refl), refl, omega arith, omega arith), tt),
      )
      (omega arith)
