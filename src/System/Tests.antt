-- ===== src/System/Tests.antt =====
-- Examples for the theorems on the client and the server together.
use qemu_cvbd_shraed_memory.Common.{
  ℕ, ◌≡◌, refl, false, true, some, List, [], ◌∷◌, ◌++◌, replicate, arith, ◌≢◌,
}
use qemu_cvbd_shraed_memory.Common.Int.{pos, to_u64, to_i64}
use qemu_cvbd_shraed_memory.Common.Outcome.{ok}
use qemu_cvbd_shraed_memory.Common.Store.{find}
use qemu_cvbd_shraed_memory.Iov.{Bytes}
use qemu_cvbd_shraed_memory.Iov.Gather.{flat}
use qemu_cvbd_shraed_memory.Message.{
  codes, blank, write_request, open_reply, Header, RequestType, Request, read_request,
  fsync_request, getsize_request, close_request, read_reply, fsync_reply, getsize_reply, req_write,
  req_read, req_fsync, req_getsize,
}
use qemu_cvbd_shraed_memory.Host.Simple.{simple, Table}
use qemu_cvbd_shraed_memory.Server.{VolumeState, Server, handle_requests}
use qemu_cvbd_shraed_memory.Aio.{Acb}
use qemu_cvbd_shraed_memory.AsyncClient.{Client}
use qemu_cvbd_shraed_memory.Cvbd.{is_request_aligned, yielded}
use qemu_cvbd_shraed_memory.System.{System, write_then_read, flush}
use qemu_cvbd_shraed_memory.System.Exchange.{write_then_read_lem}
use qemu_cvbd_shraed_memory.System.Flush.{flush-fsync}
use qemu_cvbd_shraed_memory.Host.{ret}
use qemu_cvbd_shraed_memory.System.Sequential.{Stands}
use qemu_cvbd_shraed_memory.System.Sequential.OneFile.{one_file-Reliable}
use qemu_cvbd_shraed_memory.System.Sequential.Stopping.{handle_requests-stop}

abbrev pub volume : VolumeState
volume = record { volume_name = codes "v"; volume_id = 0; fd = 3; reply_mq = 0 }

abbrev empty_table : {A : Type 0} → Table A
empty_table = record { exists = true; room = 32; queue = [] }

abbrev server : Server simple
server = record {
  disk = replicate 8192 0;
  errno = 0;
  heap = (5, volume) ∷ [];
  request_mq = 0;
  incoming = empty_table;
  outgoing = empty_table;
}

abbrev client : Client simple
client = record {
  request_mq = 0;
  reply_mq = 0;
  request_msg =
      write_request
        (record { header = blank; offset = pos 0; size_in_bytes = 0; bytes = replicate 4096 0 });
  reply_msg = open_reply (record { header = blank; volume = 5; err = pos 0 });
  volume_name = codes "v";
  volume = 5;
  id = 1;
  waiting = false;
  outgoing = empty_table;
  incoming = empty_table;
  acbs = [];
}

abbrev pub idle : System simple
idle = record { client = client; server = server }

abbrev from : List Bytes
from = replicate 1024 7 ∷ replicate 3072 8 ∷ []

abbrev pub to : List Bytes
to = replicate 4096 0 ∷ []

abbrev written_disk : Bytes
written_disk = replicate 4096 0 ++ flat from

-- Eight sectors at sector 8, in two entries, read back into one.
write_then_read_lem_example :
    (a : ℕ) × (t : System simple) × (acb : Acb) × (write_then_read simple
        (pos 8)
        (pos 8)
        from
        to
        idle
      ≡ ok (yielded a) t)
    × (find a t.client.acbs ≡ some acb)
    × (acb.ret ≡ pos 0)
    × (acb.scheduled ≡ 1)
    × (flat acb.qiov ≡ flat from)
unfolding is_request_aligned to_u64 to_i64 find
write_then_read_lem_example =
    write_then_read_lem simple idle volume (pos 8) (pos 8) from to 4096 written_disk written_disk
      (flat from) refl (omega arith) refl (omega arith) refl refl refl refl (omega arith) refl
      (omega arith) (omega arith) refl refl (omega arith) refl refl refl

flush-fsync_example :
    (t : System simple) × (flush simple idle ≡ ok (pos 0) t)
    × (t.server.disk ≡ replicate 8192 0)
    × (t.client.acbs ≡ [])
unfolding find
flush-fsync_example =
    flush-fsync simple idle volume (ret tt) (replicate 8192 0) (omega arith) refl refl refl refl
      (omega arith) refl (omega arith) refl

abbrev head : RequestType → Header
head type = record { stop = false; type = type; id = 1; volume = 5; acb = 9 }

-- A write, a read that overlaps it, a flush, and a request for the size.
abbrev four : List Request
four =
    write_request
      (record { header = head req_write; offset = pos 2; size_in_bytes = 2; bytes = 7 ∷ 8 ∷ [] })
    ∷ read_request (record { header = head req_read; offset = pos 1; size_in_bytes = 2 })
    ∷ fsync_request (head req_fsync)
    ∷ getsize_request (head req_getsize)
    ∷ []

abbrev stop_message : Request
stop_message = close_request (record blank { stop = true })

-- Behind them a stop message, and a flush that is not served.
abbrev behind : List Request
behind = fsync_request (head req_fsync) ∷ []

abbrev busy : Server simple
busy = record server {
  disk = replicate 5 0;
  incoming = record empty_table { queue = four ++ stop_message ∷ behind };
}

five_nonnull : ◌≢◌ {A = ℕ} 5 0
five_nonnull = omega arith

handle_requests-stop_example :
    (t : Server simple) × (handle_requests simple 9 busy ≡ ok false t)
    × Stands simple 5 volume 0
        (0 ∷ 0 ∷ 7 ∷ 8 ∷ 0 ∷ [])
        behind
        (read_reply (record { header = head req_read; size_in_bytes = 2; bytes = 0 ∷ 7 ∷ [] })
          ∷ fsync_reply (record { header = head req_fsync; err = pos 0 })
          ∷ getsize_reply (record { header = head req_getsize; size_in_bytes = pos 5 })
          ∷ [])
        t
unfolding find
handle_requests-stop_example =
    handle_requests-stop simple 5 volume five_nonnull one_file-Reliable 0 (replicate 5 0) four
      behind [] busy stop_message 9
      (record { one_queue = refl; live = refl; bytes = refl; queue = refl; answers = refl })
      (
        ((refl, refl, refl), refl, omega arith, omega arith, omega arith),
        (
          ((refl, refl, refl), refl, omega arith, omega arith),
          ((refl, refl, refl), ((refl, refl, refl), tt)),
        ),
      )
      refl (omega arith) (omega arith)
