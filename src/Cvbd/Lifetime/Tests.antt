-- ===== src/Cvbd/Lifetime/Tests.antt =====
-- Examples for the life of a device, on a machine with one file.
use qemu_cvbd_shraed_memory.Common.{
  ℕ, ◌≡◌, ◌≢◌, refl, true, false, none, some, List, [], ◌∷◌, ◌++◌, length, replicate, arith,
}
use qemu_cvbd_shraed_memory.Common.Int.{pos, to_u64, to_i64}
use qemu_cvbd_shraed_memory.Common.Outcome.{Outcome, ok, thrown, stopped, blocked}
use qemu_cvbd_shraed_memory.Common.Store.{find, update}
use qemu_cvbd_shraed_memory.Iov.{Bytes, iov_to_buf}
use qemu_cvbd_shraed_memory.Message.{
  codes, blank, Request, open_request, open_reply, req_open, init_open, close_request,
  getsize_request, getsize_reply, Reply, req_getsize, c_string,
}
use qemu_cvbd_shraed_memory.Host.Simple.{simple, Table}
use qemu_cvbd_shraed_memory.Server.{
  Server, VolumeState, new_volume, handle_requests, round, dispatch, open_file, c_str, open_mq,
  open_volume, after_open, answer_open, sys,
}
use qemu_cvbd_shraed_memory.Queues.{start_server, create_queues, create_queue}
use qemu_cvbd_shraed_memory.Queues.Starting.{start}
use qemu_cvbd_shraed_memory.AsyncClient.{
  Client, handle_co_reply, shared_mem_writev, complete, co_reply_round, finish_open,
  wait_to_complete, post_open, signal_completion, co_reply,
}
use qemu_cvbd_shraed_memory.System.Flight.{queued, answers, Reach, here, next, start_write, Settles}
use qemu_cvbd_shraed_memory.AsyncClient.Making.{Fresh, new_client}
use qemu_cvbd_shraed_memory.Cvbd.Lifetime.{
  State, wait_first, signal_first, answered, answered_open, create_volume, cvbd_open, cvbd_close,
  cvbd_getlength,
}
use qemu_cvbd_shraed_memory.Cvbd.Lifetime.Opening.{cvbd_open-quiet}
use qemu_cvbd_shraed_memory.System.{System, on_client, on_server}
use qemu_cvbd_shraed_memory.System.Sequential.OneFile.{one_file-Reliable}
use qemu_cvbd_shraed_memory.System.Sequential.{after_all}
use qemu_cvbd_shraed_memory.System.Flight.Logs.{all_sent}
use qemu_cvbd_shraed_memory.Cvbd.{yielded, co_writev, is_request_aligned}
use qemu_cvbd_shraed_memory.Cvbd.Lifetime.Running.{cvbd_open-completes}
use qemu_cvbd_shraed_memory.Aio.{finish_aio}
use qemu_cvbd_shraed_memory.Cvbd.Lifetime.Closing.{
  closing, cvbd_close_outcomes, cvbd_getlength-stale,
}

abbrev zero_name : ℕ → Bytes
zero_name n = codes "0"

abbrev table : {A : Type 0} → Table A
table = record { exists = true; room = 32; queue = [] }

abbrev no_queue : {A : Type 0} → Table A
no_queue = record { exists = false; room = 0; queue = [] }

-- A reply buffer that an answer of 77 bytes was in.
abbrev old_reply : Reply
old_reply = getsize_reply (record { header = blank; size_in_bytes = pos 77 })

abbrev fresh : Fresh
fresh = record { request_msg = close_request blank; reply_msg = old_reply; volume = 5; id = 0 }

abbrev volume : VolumeState
volume = record { volume_name = codes "v"; volume_id = 0; fd = 3; reply_mq = 0 }

abbrev no_device : State simple zero_name fresh
no_device = record {
  request_alignment = 0;
  missing_reads = 0;
  reads = 0;
  writes = 0;
  read_modify_writes = 0;
  handle = none;
  options = record { export = some (codes "v") };
  server = record {
    disk = replicate 16 0;
    errno = 0;
    heap = [];
    request_mq = 0;
    incoming = table;
    outgoing = no_queue;
  };
}

cvbd_open-quiet_example :
    (cvbd_open simple zero_name fresh (some (codes "v")) 5 signal_first no_device ≡ stopped blocked)
    × (t : State simple zero_name fresh) × (c : Client simple) × (cvbd_open simple zero_name fresh
          (some (codes "v"))
          5
          wait_first
          no_device
        ≡ ok (pos 0) t)
    × (t.handle ≡ some c)
    × (c.volume ≢ 0)
    × (find c.volume t.server.heap ≡ some volume)
    × (t.server.request_mq ≡ c.request_mq)
    × (0 ≡ c.reply_mq)
    × (queued simple (record { client = c; server = t.server }) ≡ [])
    × (answers simple (record { client = c; server = t.server }) ≡ [])
    × (c.acbs ≡ [])
    × (t.server.disk ≡ replicate 16 0)
    × (t.request_alignment ≡ 4096)
    × (t.options.export ≡ none)
    × (t.server.outgoing.room ≡ 32)
unfolding c_string
cvbd_open-quiet_example =
    cvbd_open-quiet simple zero_name fresh no_device 5 (codes "v") 0 0 table 3 (replicate 16 0)
      (replicate 16 0) (omega arith) (omega arith, tt) (omega arith) (omega arith) refl refl refl
      refl refl (omega arith) refl refl refl

abbrev client : Client simple
client = record {
  request_mq = 0;
  reply_mq = 0;
  request_msg = close_request blank;
  reply_msg = old_reply;
  volume_name = codes "v";
  volume = 5;
  id = 1;
  waiting = false;
  outgoing = table;
  incoming = table;
  acbs = [];
}

abbrev open_device : State simple zero_name fresh
open_device = record no_device {
  handle = some client;
  server = record (no_device.server) { heap = (5, volume) ∷ []; outgoing = table };
}

abbrev asking : Request
asking = getsize_request (record { stop = false; type = req_getsize; id = 2; volume = 5; acb = 0 })

-- The file has 16 bytes.
cvbd_getlength-stale_example :
    (t : State simple zero_name fresh) × (cvbd_getlength simple zero_name fresh open_device
      ≡ ok (pos 77) t)
    × (t.server.incoming.queue ≡ asking ∷ [])
    × (t.server ≡ record (open_device.server) { incoming = t.server.incoming })
unfolding to_i64 to_u64
cvbd_getlength-stale_example =
    cvbd_getlength-stale simple zero_name fresh open_device client refl (omega arith)

-- The reply queue is full, and the request queue has room.
abbrev full_device : State simple zero_name fresh
full_device = record open_device {
  server = record (open_device.server) { outgoing = record table { room = 0 } };
}

cvbd_close_outcomes_example :
    (t : State simple zero_name fresh) × (cvbd_close simple zero_name fresh full_device ≡ ok tt t)
    × (t.handle ≡ none)
    × (t.server.incoming.queue ≡ closing simple zero_name fresh full_device client ∷ [])
    × (t.server.outgoing.queue ≡ [])
    × (t.server.heap ≡ full_device.server.heap)
    × (t.server.disk ≡ full_device.server.disk)
cvbd_close_outcomes_example = cvbd_close_outcomes simple zero_name fresh full_device client refl

-- A file of two blocks: the server starts, the device opens, and a write of its second block is posted.
abbrev two_blocks : State simple zero_name fresh
two_blocks = record no_device { server = record (no_device.server) { disk = replicate 8192 0 } }

abbrev served : Server simple
served = record (two_blocks.server) { incoming = table }

abbrev attached : Client simple
attached = record client {
  request_msg = open_request (record {
    header = record { stop = false; type = req_open; id = 1; volume = 5; acb = 0 };
    volume_name = codes "v" ++ replicate 7 0;
    reply_mq_name = codes "v" ++ replicate 7 0;
  });
  reply_msg = open_reply (record {
    header = record { stop = false; type = req_open; id = 1; volume = 1; acb = 0 };
    volume = 1;
    err = pos 0;
  });
  volume = 1;
}

abbrev running : State simple zero_name fresh
running = record two_blocks {
  request_alignment = 4096;
  handle = some attached;
  options = record { export = none };
  server = record served { heap = (1, volume) ∷ []; outgoing = table };
}

abbrev ready : System simple
ready = record { client = attached; server = running.server }

abbrev second_block : List Bytes
second_block = replicate 4096 7 ∷ []

abbrev state_of : {A : Type 0} → System simple → Outcome (System simple) A → System simple
state_of s (ok a t) = t
state_of s (thrown t) = t
state_of s (stopped e) = s

abbrev wrote : System simple
wrote = state_of ready (on_client simple (co_writev simple (pos 8) (pos 8) second_block) ready)

starts : start simple zero_name (two_blocks.server) ≡ ok tt served
unfolding start start_server create_queues create_queue
starts = refl

opens :
    cvbd_open simple zero_name fresh
      (some (codes "v"))
      5
      wait_first
      (record two_blocks { server = served })
    ≡ ok (pos 0) running
unfolding cvbd_open create_volume answered_open answered on_client on_server handle_requests round
    dispatch open_file c_str c_string open_mq open_volume after_open answer_open co_reply_round
    finish_open wait_to_complete post_open init_open new_client sys signal_completion co_reply find
    new_volume
opens = refl

posted : Reach simple ready wrote
unfolding find update on_client co_writev is_request_aligned to_u64 to_i64 shared_mem_writev
    iov_to_buf finish_aio complete
posted = next here (start_write (pos 8) (pos 8) second_block (yielded 1) refl)

cvbd_open-completes_example :
    (mid z : System simple) × (on_server simple
        (handle_requests simple (length (queued simple wrote)))
        wrote
      ≡ ok true mid)
    × (on_client simple (handle_co_reply simple (length (answers simple mid))) mid ≡ ok true z)
    × (queued simple z ≡ [])
    × (answers simple z ≡ [])
    × ((a : ℕ) → Settles (find a z.client.acbs) 0)
    × (z.server.disk ≡ after_all (all_sent posted) (replicate 8192 0))
unfolding find posted c_string
cvbd_open-completes_example =
    cvbd_open-completes simple zero_name fresh two_blocks running 5 wait_first (codes "v") 0 0 3
      table table (replicate 8192 0) (replicate 8192 0) served attached wrote one_file-Reliable
      starts opens refl posted (omega arith) (omega arith, tt) (omega arith) (omega arith) refl refl
      refl refl refl refl (((refl, refl, refl), refl, omega arith, omega arith, omega arith), tt)
      (omega arith)
