-- ===== src/SyncIo/Lifetime/Tests.antt =====
-- Examples for the life of a device, on a machine with one file.
use qemu_cvbd_shraed_memory.Common.{ℕ, ◌≡◌, refl, false, none, some, [], replicate, length, arith}
use qemu_cvbd_shraed_memory.Common.Int.{pos, to_u64, to_i64}
use qemu_cvbd_shraed_memory.Common.Outcome.{ok}
use qemu_cvbd_shraed_memory.Iov.{Bytes, overwrite}
use qemu_cvbd_shraed_memory.Message.{codes, blank, close_request, open_reply, c_string}
use qemu_cvbd_shraed_memory.Host.Simple.{simple, Table}
use qemu_cvbd_shraed_memory.Aio.{minus_einval}
use qemu_cvbd_shraed_memory.Cvbd.{is_request_aligned}
use qemu_cvbd_shraed_memory.SyncIo.Tests.{length-replicate, whole_file, table, server, small_disk}
use qemu_cvbd_shraed_memory.SyncIo.Lifetime.{Fresh, State, cvbd_open, session}
use qemu_cvbd_shraed_memory.SyncIo.Lifetime.Opening.{cvbd_open-fails}
use qemu_cvbd_shraed_memory.SyncIo.Lifetime.Session.{session_lem}

abbrev zero_name : ℕ → Bytes
zero_name n = codes "0"

abbrev fresh : Fresh
fresh = record {
  request_msg = close_request blank;
  reply_msg = open_reply (record { header = blank; volume = 5; err = pos 0 });
  volume = 5;
  id = 0;
}

abbrev no_queue : {A : Type 0} → Table A
no_queue = record { exists = false; room = 0; queue = [] }

abbrev no_device : Bytes → State simple zero_name fresh
no_device disk = record {
  request_alignment = 0;
  missing_reads = 0;
  reads = 0;
  writes = 0;
  read_modify_writes = 0;
  handle = none;
  options = record { export = some (codes "v") };
  world = record (server disk) { heap = []; outgoing = no_queue };
}

abbrev without_server : State simple zero_name fresh
without_server = record (no_device small_disk) {
  world = record (server small_disk) { incoming = no_queue };
}

cvbd_open-fails_example :
    (t u : State simple zero_name fresh) × (cvbd_open simple zero_name fresh none 0 without_server
      ≡ ok minus_einval t)
    × (t.handle ≡ none)
    × (t.world ≡ without_server.world)
    × (cvbd_open simple zero_name fresh (some (codes "v")) 0 without_server ≡ ok minus_einval u)
    × (u.handle ≡ none)
    × (u.world ≡ record (without_server.world) { outgoing = record table { exists = false } })
cvbd_open-fails_example =
    cvbd_open-fails simple zero_name fresh without_server (codes "v") 0 (omega arith) refl

unfoldable disk : Bytes
disk = replicate 16384 0

length-disk : length disk ≡ 16384
unfolding disk
length-disk = length-replicate 16384 0

-- Sixteen sectors at sector 8.
session_lem_example :
    (t : State simple zero_name fresh) × (after : Bytes) × (session simple zero_name fresh
        (some (codes "v"))
        0
        (pos 8)
        (pos 16)
        (replicate 8192 7)
        (replicate 8192 1)
        (no_device disk)
      ≡ ok (pos 0, pos 0, (pos 0, replicate 8192 7)) t)
    × (t.handle ≡ none)
    × (t.world.incoming.queue ≡ [])
    × (t.world.disk ≡ after)
    × (after ≡ overwrite disk 4096 (replicate 8192 7))
unfolding c_string is_request_aligned to_u64 to_i64
session_lem_example =
    session_lem simple zero_name fresh (no_device disk) (codes "v") 0 0 table 0 3 disk disk
      whole_file (pos 8) (pos 16) 4096 (replicate 8192 7) (replicate 8192 1) (omega arith)
      (omega arith, tt) (omega arith) (omega arith) refl refl refl refl refl (omega arith) refl refl
      refl refl refl (omega arith) (length-replicate 8192 7) (length-replicate 8192 1)
      (omega (arith, length-disk))
