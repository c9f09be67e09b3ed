-- ===== src/Server/Descriptors/Tests.antt =====
-- Examples for volumes and descriptors, on a machine that keeps a list of the open descriptors.
use qemu_cvbd_shraed_memory.Common.{
  ℕ, ◌+◌, ◌-◌, List, ◌==◌, if◌then◌else◌, ◌≡◌, refl, true, false, [], ◌∷◌, ◌++◌, length, arith,
}
use qemu_cvbd_shraed_memory.Common.Int.{pos}
use qemu_cvbd_shraed_memory.Common.Outcome.{ok}
use qemu_cvbd_shraed_memory.Common.Store.{find, free}
use qemu_cvbd_shraed_memory.Message.{
  codes, Header, RequestType, req_open, req_write, req_close, Request, write_request, open_request,
  close_request, open_reply, c_string,
}
use qemu_cvbd_shraed_memory.Host.{Env, Host, Sys, ret, fail}
use qemu_cvbd_shraed_memory.Host.Simple.{simple, next_address, next_nonnull}
use qemu_cvbd_shraed_memory.Server.{
  VolumeState, Server, handle_requests, round, dispatch, open_file, c_str, open_mq, open_volume,
  new_volume, after_open, answer_open, send_reply, send_on, deref, close_volume, sys, close, write,
}
use qemu_cvbd_shraed_memory.Server.Descriptors.{Descriptors, Follows, Owns, one}
use qemu_cvbd_shraed_memory.Server.Descriptors.Runs.{handle_requests-Owns}

-- A machine whose files cannot be written or read: its state is the descriptors that are open.
abbrev close_one : ℕ → List ℕ → List ℕ
close_one fd [] = []
close_one fd (x ∷ xs) = if x == fd then xs else x ∷ close_one fd xs

abbrev open_one : List ℕ → Sys ℕ × List ℕ
open_one d = (ret (next_address d), next_address d ∷ d)

abbrev descriptors_only : Host
descriptors_only = record {
  Disk = List ℕ;
  open_rdwr = λ name d. open_one d;
  open_creat = λ name d. (fail 13, d);
  ftruncate = λ fd n d. (ret tt, d);
  fstat_size = λ fd d. (fail 5, d);
  fsync = λ fd d. (fail 5, d);
  pwrite = λ fd bytes o d. (fail 5, d);
  pread = λ fd n o d. (fail 5, d);
  close = close_one;
  alloc = next_address;
  contents = λ fd d. [];
  pwrite_in_file = λ fd bytes o n d d' e fits. absurd (cc);
  pread_lem = λ fd n o bytes d d' e. absurd (cc);
  alloc_nonnull = next_nonnull;
}

abbrev open_count : List ℕ → ℕ → ℕ
open_count [] x = 0
open_count (fd ∷ d) x = one fd x + open_count d x

close_one_lem :
    (fd : ℕ) (d : List ℕ) (x : ℕ) → open_count (close_one fd d) x ≡ open_count d x - one fd x
close_one_lem fd [] x = omega arith
close_one_lem fd (y ∷ d) x = ground (arith, close_one_lem fd d x)

abbrev counted : Descriptors descriptors_only
counted = record {
  uses = open_count;
  open_rdwr_ret = λ name fd d d' e x. ground arith;
  open_rdwr_fail = λ name n d d' e x. absurd (cc);
  open_creat_ret = λ name fd d d' e x. absurd (cc);
  open_creat_fail = λ name n d d' e x. ground arith;
  close_uses = close_one_lem;
  ftruncate_keeps = λ fd n d x. refl;
  fstat_size_keeps = λ fd d x. refl;
  fsync_keeps = λ fd d x. refl;
  pwrite_keeps = λ fd bytes o d x. refl;
  pread_keeps = λ fd n o d x. refl;
}

abbrev machine : Env
machine = record simple { host = descriptors_only }

abbrev volume_on : ℕ → VolumeState
volume_on fd = record { volume_name = codes "v"; volume_id = 0; fd = fd; reply_mq = 0 }

abbrev header : RequestType → ℕ → Header
header type volume = record { stop = false; type = type; id = 1; volume = volume; acb = 9 }

-- A request to open, a write without a volume, a request to close, and one more.
abbrev requests : List Request
requests =
    open_request (record {
      header = header req_open 0;
      volume_name = codes "v" ++ 0 ∷ [];
      reply_mq_name = codes "v" ++ 0 ∷ [];
    })
    ∷ write_request
        (record { header = header req_write 0; offset = pos 0; size_in_bytes = 0; bytes = [] })
    ∷ close_request (header req_close 5)
    ∷ close_request (header req_close 6)
    ∷ []

-- Descriptor 4 belongs to the volume at address 5, and descriptor 1 to none.
abbrev before : Server machine
before = record {
  disk = 4 ∷ 1 ∷ [];
  errno = 0;
  heap = (5, volume_on 4) ∷ [];
  request_mq = 0;
  incoming = record { exists = true; room = 32; queue = requests };
  outgoing = record { exists = true; room = 32; queue = [] };
}

abbrev after : Server machine
after = record before {
  disk = 6 ∷ 1 ∷ [];
  heap = (6, volume_on 6) ∷ [];
  incoming = record { exists = true; room = 32; queue = close_request (header req_close 6) ∷ [] };
  outgoing = record {
    exists = true;
    room = 32;
    queue = open_reply (record { header = header req_open 6; volume = 6; err = pos 0 }) ∷ [];
  };
}

run : handle_requests machine 3 before ≡ ok true after
unfolding handle_requests round dispatch open_file c_str c_string open_mq open_volume new_volume
    after_open answer_open send_reply send_on deref sys close close_volume write find free
run = refl

handle_requests-Owns_example :
    (ms : List Request) × (length ms ≡ 3)
    × (requests ≡ ms ++ after.incoming.queue)
    × Follows machine counted ms before after
    × Owns machine counted (one 1) after
handle_requests-Owns_example =
    handle_requests-Owns machine counted (one 1) 3 before after run (λ x. omega arith)
