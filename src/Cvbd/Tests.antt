-- ===== src/Cvbd/Tests.antt =====
-- Examples for the asynchronous driver.
use qemu_cvbd_shraed_memory.Common.{
  ◌+◌, ◌%◌, ◌≡◌, ◌↔◌, refl, true, false, [], ◌∷◌, length, replicate, arith,
}
use qemu_cvbd_shraed_memory.Common.Int.{pos, negsuc, to_u64, to_i64}
use qemu_cvbd_shraed_memory.Common.Outcome.{ok, stopped, aborted}
use qemu_cvbd_shraed_memory.Iov.{Bytes}
use qemu_cvbd_shraed_memory.Message.{
  codes, blank, WriteRequest, write_request, open_reply, req_write,
}
use qemu_cvbd_shraed_memory.Host.Simple.{simple, Table}
use qemu_cvbd_shraed_memory.AsyncClient.{Client}
use qemu_cvbd_shraed_memory.Cvbd.{is_request_aligned, yielded, co_rw, co_writev, complete_aio}
use qemu_cvbd_shraed_memory.Cvbd.Alignment.{is_request_aligned_iff}
use qemu_cvbd_shraed_memory.Cvbd.Requests.{
  tries, co_rw_misaligned, co_rw_too_large, co_writev_completes,
}

abbrev table : {A : Type 0} → Table A
table = record { exists = true; room = 32; queue = [] }

abbrev client : Client simple
client = record {
  request_mq = 0;
  reply_mq = 0;
  request_msg =
      write_request
        (record { header = blank; offset = pos 0; size_in_bytes = 0; bytes = replicate 4096 0 });
  reply_msg = open_reply (record { header = blank; volume = 5; err = pos 0 });
  volume_name = codes "v";
  volume = 5;
  id = 1;
  waiting = false;
  outgoing = table;
  incoming = table;
  acbs = [];
}

-- Eight sectors before the first one count as aligned, as do eight.
is_request_aligned_iff_example :
    (is_request_aligned 512 (negsuc 7) (pos 16) ≡ true) ↔ ((8 % 8 ≡ 0) × (16 % 8 ≡ 0))
is_request_aligned_iff_example = is_request_aligned_iff 512 (negsuc 7) (pos 16) refl

co_rw_misaligned_example :
    (s' : Client simple) × (tries simple 3 (pos 1) (pos 8) [] false client ≡ ok tt s')
    × (length s'.acbs ≡ 3 + 0)
    × (s'.outgoing ≡ client.outgoing)
    × (s'.id ≡ 1)
unfolding is_request_aligned to_u64
co_rw_misaligned_example = co_rw_misaligned simple (pos 1) (pos 8) [] false refl 3 client

co_rw_too_large_example : co_rw simple (pos 0) (pos 1032) [] true client ≡ stopped aborted
unfolding is_request_aligned to_u64
co_rw_too_large_example =
    co_rw_too_large simple client (pos 0) (pos 1032) [] refl true (omega arith)

abbrev page : Bytes
page = replicate 4096 7

abbrev request : WriteRequest
request = record {
  header = record { stop = false; type = req_write; id = 2; volume = 5; acb = 1 };
  offset = pos 4096;
  size_in_bytes = 4096;
  bytes = page;
}

co_writev_completes_example :
    (s' s'' : Client simple) × (co_writev simple (pos 8) (pos 8) (page ∷ []) client
      ≡ ok (yielded 1) s')
    × (complete_aio simple 1 s' ≡ ok (pos 0) s'')
    × (s''.outgoing.queue ≡ write_request request ∷ [])
    × (s''.acbs ≡ [])
    × (s''.id ≡ 1 + 1)
unfolding is_request_aligned to_u64 to_i64
co_writev_completes_example =
    co_writev_completes simple client (pos 8) (pos 8) (page ∷ []) refl (omega arith) (omega arith)
