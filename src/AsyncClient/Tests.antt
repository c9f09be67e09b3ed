-- ===== src/AsyncClient/Tests.antt =====
-- Examples for the client, with one request in flight.
use qemu_cvbd_shraed_memory.Common.{◌≡◌, refl, true, false, some, List, [], ◌∷◌, arith}
use qemu_cvbd_shraed_memory.Common.Int.{pos}
use qemu_cvbd_shraed_memory.Common.Outcome.{ok, stopped, blocked}
use qemu_cvbd_shraed_memory.Common.Store.{find}
use qemu_cvbd_shraed_memory.Iov.Gather.{flat}
use qemu_cvbd_shraed_memory.Message.{
  codes, Header, RequestType, req_read, req_open, ReadReply, Reply, read_reply, open_reply,
  close_request,
}
use qemu_cvbd_shraed_memory.Host.Simple.{simple, Table}
use qemu_cvbd_shraed_memory.Aio.{Acb}
use qemu_cvbd_shraed_memory.AsyncClient.{Client, wait_to_complete, co_reply_round}
use qemu_cvbd_shraed_memory.AsyncClient.Replies.{co_reply-read}
use qemu_cvbd_shraed_memory.AsyncClient.Waiting.{lost_wakeup}

abbrev header : RequestType → Header
header type = record { stop = false; type = type; id = 1; volume = 5; acb = 9 }

abbrev table : {A : Type 0} → List A → Table A
table queue = record { exists = true; room = 32; queue = queue }

abbrev in_flight : Acb
in_flight = record {
  size = 4;
  ret = pos 0;
  qiov = (1 ∷ 2 ∷ []) ∷ (3 ∷ 4 ∷ []) ∷ [];
  callback = true;
  scheduled = 0;
  bh = false;
}

-- A client with these replies in its queue.
abbrev client : List Reply → Client simple
client replies = record {
  request_mq = 0;
  reply_mq = 0;
  request_msg = close_request (header req_open);
  reply_msg = open_reply (record { header = header req_open; volume = 5; err = pos 0 });
  volume_name = codes "v";
  volume = 5;
  id = 1;
  waiting = false;
  outgoing = table [];
  incoming = table replies;
  acbs = (9, in_flight) ∷ [];
}

-- Three bytes answer a request for four.
abbrev short_read : ReadReply
short_read = record { header = header req_read; size_in_bytes = 3; bytes = 7 ∷ 8 ∷ 9 ∷ 0 ∷ [] }

co_reply-read_example :
    (s' : Client simple) × (acb' : Acb) × (co_reply_round simple
        (client (read_reply short_read ∷ []))
      ≡ ok true s')
    × (find 9 s'.acbs ≡ some acb')
    × (acb'.ret ≡ pos 0)
    × (flat acb'.qiov ≡ 7 ∷ 8 ∷ 9 ∷ 4 ∷ [])
    × (acb'.scheduled ≡ 1)
unfolding find
co_reply-read_example =
    co_reply-read simple (client (read_reply short_read ∷ [])) short_read in_flight (table []) refl
      refl refl (omega arith) refl refl (omega arith)

abbrev answer : Reply
answer = open_reply (record { header = header req_open; volume = 5; err = pos 0 })

lost_wakeup_example :
    (early after late stuck : Client simple) × (wait_to_complete simple (client (answer ∷ []))
      ≡ ok tt early)
    × (co_reply_round simple early ≡ ok true after)
    × (after.waiting ≡ false)
    × (co_reply_round simple (client (answer ∷ [])) ≡ ok true late)
    × (wait_to_complete simple late ≡ ok tt stuck)
    × (stuck.waiting ≡ true)
    × (co_reply_round simple stuck ≡ stopped blocked)
lost_wakeup_example = lost_wakeup simple (client (answer ∷ [])) answer refl refl refl
