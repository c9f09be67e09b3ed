-- ===== src/SyncClient/Requests.antt =====
-- SharedMemClient.cpp: `shared_mem_write` and `shared_mem_read` over a device.
use qemu_cvbd_shraed_memory.Common.{
  ℕ, suc, ◌+◌, ◌≤◌, ◌≡◌, refl, true, false, some, length, take, drop, arith, length-append,
  length-take, take-append, take_all, append-nil, ◌-◌,
}
use qemu_cvbd_shraed_memory.Common.Int.{pos}
use qemu_cvbd_shraed_memory.Common.Outcome.{ok}
use qemu_cvbd_shraed_memory.Iov.{Bytes, overwrite}
use qemu_cvbd_shraed_memory.Message.{
  max_data_size, req_read, req_write, Header, RequestType, WriteRequest, ReadRequest, Layout,
  write_request, read_request, read_reply,
}
use qemu_cvbd_shraed_memory.SyncClient.{Port, SharedMemClient, shared_mem_write, shared_mem_read}
use qemu_cvbd_shraed_memory.SyncClient.Device.{Device}

-- The start of an array after a copy to it.
pub take-overwrite : (v new : Bytes) (n : ℕ) → length new ≡ n → take n (overwrite v 0 new) ≡ new
take-overwrite v new n e =
    let z : n - length new ≡ 0 = omega arith in
    rw (take-append n new (drop (0 + length new) v), take_all n new (omega arith), z, append-nil)
      refl

module _ {port : Port} {request_mq reply_mq volume : ℕ}
    (device : Device port request_mq reply_mq volume) (layout : Layout) where
  -- A client that has opened the device's volume, with no request in flight.
  pub record Attached (s : SharedMemClient port layout) : Type 0 where
    pub same_requests : s.request_mq ≡ request_mq
    pub same_replies : s.reply_mq ≡ reply_mq
    pub same_volume : s.volume ≡ volume
    pub ready : device.Ready s.world

  abbrev pub disk_of : SharedMemClient port layout → Bytes
  disk_of s = device.disk s.world

  module _ (s : SharedMemClient port layout) (o n : ℕ) (attached : Attached s)
      (small : n ≤ max_data_size) (inside : o + n ≤ length (disk_of s)) where
    abbrev next_head : RequestType → Header
    next_head type = record { stop = false; type = type; id = suc s.id; volume = s.volume; acb = 0 }

    pub shared_mem_write-done :
        (message : Bytes)
        → n ≤ length message
        → (s' : SharedMemClient port layout) × (shared_mem_write port layout message n (pos o) s
            ≡ ok true s')
          × Attached s'
          × (disk_of s' ≡ overwrite (disk_of s) o (take n message))
    unfolding shared_mem_write
    shared_mem_write-done message enough =
        let old : Bytes = (layout.as_write s.request_msg).bytes in
        let bytes : Bytes = overwrite old 0 (take n message) in
        let m : WriteRequest = record {
          header = next_head req_write;
          offset = pos o;
          size_in_bytes = n;
          bytes = bytes;
        } in
        let len : length (take n message) ≡ n = omega (arith, length-take n message) in
        let long : n ≤ length bytes =
          omega
            (arith, len, length-append (take n message) (drop (0 + length (take n message)) old)) in
        let (w, sent, ready, effect) =
          device.write_lem s.world m o attached.ready refl refl attached.same_volume refl small long
            inside in
        (
          record s { id = suc s.id; request_msg = write_request m; world = w },
          ground (arith, sent, attached.same_requests),
          record {
            same_requests = attached.same_requests;
            same_replies = attached.same_replies;
            same_volume = attached.same_volume;
            ready = ready;
          },
          rw (take-overwrite old (take n message) n len) at effect,
        )

    pub shared_mem_read-done :
        (s' : SharedMemClient port layout) × (shared_mem_read port layout n (pos o) s
          ≡ ok (some (take n (drop o (disk_of s)))) s')
        × Attached s'
        × (disk_of s' ≡ disk_of s)
    unfolding shared_mem_read
    shared_mem_read-done =
        let m : ReadRequest = record {
          header = next_head req_read;
          offset = pos o;
          size_in_bytes = n;
        } in
        let (t, w, reply, sent, received, ready, same, type, size, text) =
          device.read_lem s.world m o attached.ready refl refl attached.same_volume refl small
            inside in
        (
          record s {
            id = suc s.id;
            request_msg = read_request m;
            reply_msg = read_reply reply;
            world = w;
          },
          ground (
            arith,
            sent,
            received,
            type,
            size,
            text,
            attached.same_requests,
            attached.same_replies,
            layout.as_read_reply_lem reply,
          ),
          record {
            same_requests = attached.same_requests;
            same_replies = attached.same_replies;
            same_volume = attached.same_volume;
            ready = ready;
          },
          same,
        )
