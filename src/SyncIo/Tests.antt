-- ===== src/SyncIo/Tests.antt =====
-- Examples for the synchronous driver, over the server of a machine with one file. The request of 16
-- sectors at sector 1016 takes two messages.
use qemu_cvbd_shraed_memory.Common.{
  ℕ, zero, suc, false, ◌≡◌, ◌≢◌, refl, true, [], ◌∷◌, replicate, length, take, drop, arith,
  length-take, length-drop,
}
use qemu_cvbd_shraed_memory.Common.Int.{pos, to_u64, to_i64}
use qemu_cvbd_shraed_memory.Common.Outcome.{ok}
use qemu_cvbd_shraed_memory.Common.Store.{find, free}
use qemu_cvbd_shraed_memory.Iov.{Bytes, overwrite}
use qemu_cvbd_shraed_memory.Message.{
  codes, blank, req_open, OpenRequest, close_request, open_reply, init_open, c_string,
}
use qemu_cvbd_shraed_memory.Host.Simple.{simple, one_file, Table, zero_layout}
use qemu_cvbd_shraed_memory.Server.{VolumeState, Server}
use qemu_cvbd_shraed_memory.Cvbd.{is_request_aligned}
use qemu_cvbd_shraed_memory.SyncClient.{SharedMemClient, send_open, release_volume}
use qemu_cvbd_shraed_memory.SyncClient.Device.{Device}
use qemu_cvbd_shraed_memory.SyncClient.Requests.{Attached, disk_of}
use qemu_cvbd_shraed_memory.SyncIo.{cvbd_write, cvbd_read, cvbd_getlength}
use qemu_cvbd_shraed_memory.SyncIo.Writing.{cvbd_write_lem}
use qemu_cvbd_shraed_memory.SyncIo.Reading.{cvbd_read_lem}
use qemu_cvbd_shraed_memory.System.Volume.{served, WholeCalls, volume_device}
use qemu_cvbd_shraed_memory.System.Synchronous.{cvbd_write-cvbd_read}
use qemu_cvbd_shraed_memory.System.Opening.{send_open-Attached}
use qemu_cvbd_shraed_memory.System.Closing.{cvbd_getlength-size, release_volume-close}

pub length-replicate : (n a : ℕ) → length (replicate n a) ≡ n
length-replicate zero a = refl
length-replicate (suc n) a = omega (arith, length-replicate n a)

pub whole_file : WholeCalls one_file 3
whole_file = record {
  write_whole = λ bytes o d h. (overwrite d o bytes, ground arith);
  read_whole = λ n o d h.
      (take n (drop o d), d, refl, omega (arith, length-take n (drop o d), length-drop o d));
}

abbrev pub volume : VolumeState
volume = record { volume_name = codes "v"; volume_id = 0; fd = 3; reply_mq = 0 }

abbrev pub table : {A : Type 0} → Table A
table = record { exists = true; room = 32; queue = [] }

abbrev pub server : Bytes → Server simple
server disk = record {
  disk = disk;
  errno = 0;
  heap = (5, volume) ∷ [];
  request_mq = 0;
  incoming = table;
  outgoing = table;
}

abbrev pub client : Bytes → SharedMemClient (served simple) zero_layout
client disk = record {
  request_mq = 0;
  reply_mq = 0;
  request_msg = close_request blank;
  reply_msg = open_reply (record { header = blank; volume = 5; err = pos 0 });
  volume_name = codes "v";
  volume = 5;
  id = 1;
  world = server disk;
}

pub five_nonnull : ◌≢◌ {A = ℕ} 5 0
five_nonnull = omega arith

abbrev pub device : Device (served simple) 0 0 5
device = volume_device simple 0 5 volume five_nonnull whole_file

pub client-Attached : (disk : Bytes) → Attached device zero_layout (client disk)
unfolding find
client-Attached disk = record {
  same_requests = refl;
  same_replies = refl;
  same_volume = refl;
  ready = record {
    one_queue = refl;
    live = refl;
    no_requests = refl;
    request_room = omega arith;
    no_replies = refl;
    reply_room = omega arith;
  };
}

unfoldable disk : Bytes
disk = replicate 528384 0

length-disk : length disk ≡ 528384
unfolding disk
length-disk = length-replicate 528384 0

abbrev buffer : Bytes
buffer = replicate 8192 7

abbrev other : Bytes
other = replicate 8192 1

cvbd_write_lem_example :
    (s' : SharedMemClient (served simple) zero_layout) × (cvbd_write
        (served simple)
        zero_layout
        512
        (pos 1016)
        (pos 16)
        buffer
        (client disk)
      ≡ ok (pos 0) s')
    × Attached device zero_layout s'
    × (disk_of device zero_layout s' ≡ overwrite disk 520192 buffer)
unfolding is_request_aligned to_u64 to_i64
cvbd_write_lem_example =
    cvbd_write_lem device zero_layout 512 (pos 1016) (pos 16) 520192 buffer (client disk) refl refl
      (omega arith) (length-replicate 8192 7) (client-Attached disk) (omega (arith, length-disk))

cvbd_read_lem_example :
    (s' : SharedMemClient (served simple) zero_layout) × (cvbd_read
        (served simple)
        zero_layout
        512
        (pos 1016)
        (pos 16)
        other
        (client disk)
      ≡ ok (pos 0, take 8192 (drop 520192 disk)) s')
    × Attached device zero_layout s'
    × (disk_of device zero_layout s' ≡ disk)
unfolding is_request_aligned to_u64 to_i64
cvbd_read_lem_example =
    cvbd_read_lem device zero_layout 512 (pos 1016) (pos 16) 520192 other (client disk) refl refl
      (omega arith) (length-replicate 8192 1) (client-Attached disk) (omega (arith, length-disk))

cvbd_write-cvbd_read_example :
    (t u : SharedMemClient (served simple) zero_layout) × (cvbd_write
        (served simple)
        zero_layout
        512
        (pos 1016)
        (pos 16)
        buffer
        (client disk)
      ≡ ok (pos 0) t)
    × (cvbd_read (served simple) zero_layout 512 (pos 1016) (pos 16) other t ≡ ok (pos 0, buffer) u)
    × (u.world.disk ≡ overwrite disk 520192 buffer)
unfolding is_request_aligned to_u64 to_i64
cvbd_write-cvbd_read_example =
    cvbd_write-cvbd_read simple 0 5 volume five_nonnull whole_file (pos 1016) (pos 16) 520192 buffer
      other (client disk) refl refl (omega arith) (length-replicate 8192 7)
      (length-replicate 8192 1) (client-Attached disk) (omega (arith, length-disk))

-- The request that opens the volume "v" from a zeroed buffer.
abbrev opening : OpenRequest
opening = record {
  header = record { stop = false; type = req_open; id = 2; volume = 5; acb = 0 };
  volume_name = 118 ∷ replicate 7 0;
  reply_mq_name = 118 ∷ replicate 7 0;
}

abbrev pub small_disk : Bytes
small_disk = replicate 16 0

send_open-Attached_example :
    (t : SharedMemClient (served simple) zero_layout) × (nonnull : t.volume ≢ 0) × (send_open
        (served simple)
        zero_layout
        (client small_disk)
      ≡ ok (pos 0) t)
    × Attached (volume_device simple 0 t.volume volume nonnull whole_file) zero_layout t
    × (t.world.disk ≡ small_disk)
unfolding init_open c_string
send_open-Attached_example =
    send_open-Attached simple (client small_disk) opening (codes "v") (codes "v") 3 small_disk
      small_disk whole_file refl refl refl refl refl (omega arith) refl refl refl (omega arith) refl

cvbd_getlength-size_example :
    (t : SharedMemClient (served simple) zero_layout) × (cvbd_getlength
        (served simple)
        zero_layout
        (client small_disk)
      ≡ ok (pos 16) t)
    × Attached device zero_layout t
    × (t.world.disk ≡ small_disk)
cvbd_getlength-size_example =
    cvbd_getlength-size simple 0 5 volume five_nonnull whole_file (client small_disk)
      (client-Attached small_disk) 16 small_disk refl (omega arith)

release_volume-close_example :
    (t : SharedMemClient (served simple) zero_layout) × (release_volume
        (served simple)
        zero_layout
        (client small_disk)
      ≡ ok true t)
    × (t.world.disk ≡ small_disk)
    × (t.world.heap ≡ [])
    × (t.world.outgoing ≡ table)
    × (t.world.incoming.queue ≡ [])
unfolding free
release_volume-close_example =
    release_volume-close simple 0 5 volume five_nonnull whole_file (client small_disk)
      (client-Attached small_disk)
