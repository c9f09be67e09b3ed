-- ===== src/Server/Tests.antt =====
-- Examples for the file server, on a machine with one file of 16 bytes.
use qemu_cvbd_shraed_memory.Common.{ℕ, ◌≡◌, refl, true, false, [], ◌∷◌, ◌++◌, replicate, arith}
use qemu_cvbd_shraed_memory.Common.Int.{ℤ, pos}
use qemu_cvbd_shraed_memory.Common.Outcome.{ok, stopped, crashed}
use qemu_cvbd_shraed_memory.Iov.{Bytes}
use qemu_cvbd_shraed_memory.Message.{
  codes, Header, RequestType, req_write, req_read, req_close, WriteRequest, ReadRequest,
  OpenRequest, Reply, open_reply, c_string,
}
use qemu_cvbd_shraed_memory.Host.{Env, fail}
use qemu_cvbd_shraed_memory.Host.Simple.{simple, one_file, Table}
use qemu_cvbd_shraed_memory.Server.{
  VolumeState, Server, neg, close, open_file, getsize, fsync, read, write,
}
use qemu_cvbd_shraed_memory.Server.Volumes.{null_volume}
use qemu_cvbd_shraed_memory.Server.Opening.{volume, open_unanswered, open_truncate_fails}

abbrev opened : VolumeState
opened = record { volume_name = codes "v"; volume_id = 0; fd = 3; reply_mq = 0 }

abbrev empty_table : {A : Type 0} → Table A
empty_table = record { exists = true; room = 32; queue = [] }

abbrev header : RequestType → ℕ → Header
header type volume = record { stop = false; type = type; id = 1; volume = volume; acb = 9 }

abbrev server : Server simple
server = record {
  disk = replicate 16 0;
  errno = 0;
  heap = (5, opened) ∷ [];
  request_mq = 0;
  incoming = empty_table;
  outgoing = empty_table;
}

abbrev writing : ℕ → WriteRequest
writing volume = record {
  header = header req_write volume;
  offset = pos 4;
  size_in_bytes = 3;
  bytes = 1 ∷ 2 ∷ 3 ∷ 4 ∷ [];
}

abbrev reading : ℕ → ReadRequest
reading volume = record { header = header req_read volume; offset = pos 4; size_in_bytes = 3 }

abbrev written_disk : Bytes
written_disk = replicate 4 0 ++ (1 ∷ 2 ∷ 3 ∷ replicate 9 0)

null_volume_example :
    (getsize simple (header req_close 0) server ≡ stopped crashed)
    × (fsync simple (header req_close 0) server ≡ stopped crashed)
    × (read simple (reading 0) server ≡ stopped crashed)
    × (write simple (writing 0) server ≡ ok tt server)
    × (close simple (header req_close 0) server ≡ ok tt server)
null_volume_example =
    null_volume simple server (header req_close 0) (reading 0) (writing 0) (omega arith) refl refl
      refl

-- Machines on which files cannot be made, and on which `ftruncate` fails.
abbrev no_files : Env
no_files = record simple {
  host = record one_file { open_rdwr = λ name d. (fail 2, d); open_creat = λ name d. (fail 13, d) };
}

abbrev no_truncate : Env
no_truncate = record simple { host = record one_file { ftruncate = λ fd n d. (fail 27, d) } }

abbrev opening : OpenRequest
opening = record {
  header = header req_close 0;
  volume_name = 118 ∷ 0 ∷ [];
  reply_mq_name = 118 ∷ 0 ∷ [];
}

abbrev lone : Server no_files
lone = record {
  disk = [];
  errno = 0;
  heap = [];
  request_mq = 0;
  incoming = empty_table;
  outgoing = empty_table;
}

open_unanswered_example :
    (s' : Server no_files) × (open_file no_files opening lone ≡ ok tt s')
    × (s'.outgoing ≡ lone.outgoing)
    × (s'.heap ≡ [])
unfolding c_string
open_unanswered_example =
    open_unanswered no_files lone opening (codes "v") [] [] 13 refl refl refl (omega arith)

-- What the client hears, with the address of the new volume.
abbrev reply : ℤ → Reply
reply err = open_reply (record { header = header req_close 6; volume = 6; err = err })

abbrev full : Server no_truncate
full = record {
  disk = replicate 16 0;
  errno = 0;
  heap = (5, opened) ∷ [];
  request_mq = 0;
  incoming = empty_table;
  outgoing = empty_table;
}

open_truncate_fails_example :
    (s' : Server no_truncate) × (open_file no_truncate opening full ≡ ok tt s')
    × (s'.outgoing.queue ≡ reply (neg 27) ∷ [])
    × (s'.disk ≡ full.disk)
    × (s'.heap ≡ full.heap)
unfolding c_string
open_truncate_fails_example =
    open_truncate_fails no_truncate full opening (codes "v") (codes "v") 3 0 full.disk full.disk
      refl refl refl refl (omega arith) 27 (omega arith) refl
