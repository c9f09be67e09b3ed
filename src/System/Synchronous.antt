-- ===== src/System/Synchronous.antt =====
-- From `cvbd_write` over the server's file to `cvbd_read`: the bytes come back.
use qemu_cvbd_shraed_memory.Common.{
  ℕ, ◌+◌, ◌^◌, ◌≡◌, ◌≢◌, ◌≤◌, ◌<◌, ◌∙◌, true, length, take, drop, arith,
}
use qemu_cvbd_shraed_memory.Common.Int.{ℤ, pos, to_i64}
use qemu_cvbd_shraed_memory.Common.Outcome.{ok}
use qemu_cvbd_shraed_memory.Iov.{Bytes, overwrite}
use qemu_cvbd_shraed_memory.Host.{Env}
use qemu_cvbd_shraed_memory.Server.{VolumeState}
use qemu_cvbd_shraed_memory.Server.Files.{read-overwrite}
use qemu_cvbd_shraed_memory.Cvbd.{in_bytes, is_request_aligned}
use qemu_cvbd_shraed_memory.SyncClient.{SharedMemClient}
use qemu_cvbd_shraed_memory.SyncClient.Requests.{Attached}
use qemu_cvbd_shraed_memory.SyncIo.{cvbd_write, cvbd_read}
use qemu_cvbd_shraed_memory.SyncIo.Lists.{length-overwrite}
use qemu_cvbd_shraed_memory.SyncIo.Writing.{cvbd_write_lem}
use qemu_cvbd_shraed_memory.SyncIo.Reading.{cvbd_read_lem}
use qemu_cvbd_shraed_memory.System.Volume.{served, WholeCalls, volume_device}

pub cvbd_write-cvbd_read-Attached :
    (env : Env) (q volume : ℕ) (v : VolumeState) (nonnull : volume ≢ 0)
    (whole : WholeCalls env.host v.fd) (sector_num nb_sectors : ℤ) (o : ℕ) (buffer other : Bytes)
    (s : SharedMemClient (served env) env.layout)
    → is_request_aligned env.bdrv_sector_size sector_num nb_sectors ≡ true
    → to_i64 (in_bytes env.bdrv_sector_size sector_num) ≡ pos o
    → o + in_bytes env.bdrv_sector_size nb_sectors < 2 ^ 63
    → length buffer ≡ in_bytes env.bdrv_sector_size nb_sectors
    → length other ≡ in_bytes env.bdrv_sector_size nb_sectors
    → Attached (volume_device env q volume v nonnull whole) env.layout s
    → o + in_bytes env.bdrv_sector_size nb_sectors ≤ length (env.host.contents v.fd s.world.disk)
    → (t u : SharedMemClient (served env) env.layout) × (cvbd_write
          (served env)
          env.layout
          env.bdrv_sector_size
          sector_num
          nb_sectors
          buffer
          s
        ≡ ok (pos 0) t)
      × (cvbd_read (served env) env.layout env.bdrv_sector_size sector_num nb_sectors other t
          ≡ ok (pos 0, buffer) u)
      × (env.host.contents v.fd u.world.disk
          ≡ overwrite (env.host.contents v.fd s.world.disk) o buffer)
      × Attached (volume_device env q volume v nonnull whole) env.layout u
cvbd_write-cvbd_read-Attached env q volume v nonnull whole sector_num nb_sectors o buffer other s
      aligned first fits len len' attached room =
    let device = volume_device env q volume v nonnull whole in
    let disk = env.host.contents v.fd s.world.disk in
    let l = in_bytes env.bdrv_sector_size nb_sectors in
    let (t, wrote, attached', effect) =
      cvbd_write_lem device env.layout env.bdrv_sector_size sector_num nb_sectors o buffer s aligned
        first fits len attached room in
    let same_length = length-overwrite disk buffer o (omega arith) in
    let (u, got, attached'', same) =
      cvbd_read_lem device env.layout env.bdrv_sector_size sector_num nb_sectors o other t aligned
        first fits len' attached' (rw effect (omega (arith, same_length))) in
    let back : take l (drop o (env.host.contents v.fd t.world.disk)) ≡ buffer =
      rw effect (read-overwrite disk buffer o l (omega arith) len) in
    (t, u, wrote, rw back at got, same ∙ effect, attached'')

-- An attached client of the synchronous driver writes an aligned range of its volume, and then
-- reads the same range into another buffer, through the server that serves each message before the
-- client goes on: both calls return 0, the second buffer then holds the first, and the server's
-- file has changed in this range only. The range may have any size inside the file and below 2^63;
-- the buffers have its length, and system calls inside the file are not cut short.
pub cvbd_write-cvbd_read :
    (env : Env) (q volume : ℕ) (v : VolumeState) (nonnull : volume ≢ 0)
    (whole : WholeCalls env.host v.fd) (sector_num nb_sectors : ℤ) (o : ℕ) (buffer other : Bytes)
    (s : SharedMemClient (served env) env.layout)
    → is_request_aligned env.bdrv_sector_size sector_num nb_sectors ≡ true
    → to_i64 (in_bytes env.bdrv_sector_size sector_num) ≡ pos o
    → o + in_bytes env.bdrv_sector_size nb_sectors < 2 ^ 63
    → length buffer ≡ in_bytes env.bdrv_sector_size nb_sectors
    → length other ≡ in_bytes env.bdrv_sector_size nb_sectors
    → Attached (volume_device env q volume v nonnull whole) env.layout s
    → o + in_bytes env.bdrv_sector_size nb_sectors ≤ length (env.host.contents v.fd s.world.disk)
    → (t u : SharedMemClient (served env) env.layout) × (cvbd_write
          (served env)
          env.layout
          env.bdrv_sector_size
          sector_num
          nb_sectors
          buffer
          s
        ≡ ok (pos 0) t)
      × (cvbd_read (served env) env.layout env.bdrv_sector_size sector_num nb_sectors other t
          ≡ ok (pos 0, buffer) u)
      × (env.host.contents v.fd u.world.disk
          ≡ overwrite (env.host.contents v.fd s.world.disk) o buffer)
cvbd_write-cvbd_read env q volume v nonnull whole sector_num nb_sectors o buffer other s aligned
      first fits len len' attached room =
    let (t, u, wrote, got, changed, attached') =
      cvbd_write-cvbd_read-Attached env q volume v nonnull whole sector_num nb_sectors o buffer
        other s aligned first fits len len' attached room in
    (t, u, wrote, got, changed)
