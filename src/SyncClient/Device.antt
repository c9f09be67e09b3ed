-- ===== src/SyncClient/Device.antt =====
-- SharedMemClient.cpp: what a client may expect behind its queues.
use qemu_cvbd_shraed_memory.Common.{ℕ, ◌+◌, ◌≤◌, ◌≡◌, false, some, length, take, drop}
use qemu_cvbd_shraed_memory.Common.Int.{pos}
use qemu_cvbd_shraed_memory.Iov.{Bytes, overwrite}
use qemu_cvbd_shraed_memory.Message.{
  max_data_size, req_read, req_write, WriteRequest, ReadRequest, ReadReply, write_request,
  read_request, read_reply,
}
use qemu_cvbd_shraed_memory.SyncClient.{Port}

-- A volume behind a port, as one array of bytes: a write request inside the array takes effect and
-- has no answer, a read request inside it is answered with the bytes asked for.
pub record Device (port : Port) (request_mq reply_mq volume : ℕ) : Type 1 where
  pub Ready : port.World → Type 0
  pub disk : port.World → Bytes
  pub write_lem :
      (w : port.World) (r : WriteRequest) (o : ℕ)
      → Ready w
      → r.header.stop ≡ false
      → r.header.type ≡ req_write
      → r.header.volume ≡ volume
      → r.offset ≡ pos o
      → r.size_in_bytes ≤ max_data_size
      → r.size_in_bytes ≤ length r.bytes
      → o + r.size_in_bytes ≤ length (disk w)
      → (w' : port.World) × (port.send request_mq (write_request r) w ≡ some w')
        × Ready w'
        × (disk w' ≡ overwrite (disk w) o (take r.size_in_bytes r.bytes))
  pub read_lem :
      (w : port.World) (r : ReadRequest) (o : ℕ)
      → Ready w
      → r.header.stop ≡ false
      → r.header.type ≡ req_read
      → r.header.volume ≡ volume
      → r.offset ≡ pos o
      → r.size_in_bytes ≤ max_data_size
      → o + r.size_in_bytes ≤ length (disk w)
      → (sent : port.World) × (w' : port.World) × (reply : ReadReply) × (port.send request_mq
            (read_request r)
            w
          ≡ some sent)
        × (port.receive reply_mq sent ≡ some (read_reply reply, w'))
        × Ready w'
        × (disk w' ≡ disk w)
        × (reply.header.type ≡ req_read)
        × (reply.size_in_bytes ≡ r.size_in_bytes)
        × (take r.size_in_bytes reply.bytes ≡ take r.size_in_bytes (drop o (disk w)))
