-- ===== src/SyncIo/Lifetime/Session.antt =====
-- cvbd_syncio.c: closing a device, and a device's whole life.
use qemu_cvbd_shraed_memory.Common.{
  ℕ, ◌+◌, ◌^◌, ◌≡◌, ◌≢◌, ◌≤◌, ◌<◌, refl, ap, ◌∙◌, Bool, true, none, some, [], length, drop, arith,
}
use qemu_cvbd_shraed_memory.Common.Int.{ℤ, pos, to_i64}
use qemu_cvbd_shraed_memory.Common.Outcome.{ok, M}
use qemu_cvbd_shraed_memory.Common.Store.{free}
use qemu_cvbd_shraed_memory.Iov.{Bytes, overwrite}
use qemu_cvbd_shraed_memory.Message.{c_string, max_queue_size}
use qemu_cvbd_shraed_memory.Message.Names.{NoNul}
use qemu_cvbd_shraed_memory.Host.{Env, ret}
use qemu_cvbd_shraed_memory.Server.{VolumeState, open_path}
use qemu_cvbd_shraed_memory.Cvbd.{in_bytes, is_request_aligned}
use qemu_cvbd_shraed_memory.Queues.{queue_name}
use qemu_cvbd_shraed_memory.SyncClient.{SharedMemClient, release_volume}
use qemu_cvbd_shraed_memory.SyncClient.Requests.{Attached}
use qemu_cvbd_shraed_memory.System.Volume.{served, WholeCalls, volume_device}
use qemu_cvbd_shraed_memory.System.Closing.{release_volume-close}
use qemu_cvbd_shraed_memory.System.Synchronous.{cvbd_write-cvbd_read-Attached}
use qemu_cvbd_shraed_memory.SyncIo.{cvbd_write, cvbd_read}
use qemu_cvbd_shraed_memory.SyncIo.Lifetime.{
  Fresh, State, on_handle, destroy_client, cvbd_close, session,
}
use qemu_cvbd_shraed_memory.SyncIo.Lifetime.Opening.{cvbd_open-Attached}

volume_name-release_volume :
    (env : Env) (c d : SharedMemClient (served env) env.layout) (done : Bool)
    → release_volume (served env) env.layout c ≡ ok done d
    → d.volume_name ≡ c.volume_name
unfolding release_volume
volume_name-release_volume env c d done e = ground arith

module _ (env : Env) (decimal : ℕ → Bytes) (fresh : Fresh) (s : State env decimal fresh)
    (c : SharedMemClient (served env) env.layout) (held : s.handle ≡ some c)
    (current : c.world ≡ s.world) where
  on_handle-ok :
      {A : Type 0} (m : M (SharedMemClient (served env) env.layout) A) (a : A)
      (d : SharedMemClient (served env) env.layout)
      → m c ≡ ok a d
      → on_handle env decimal fresh m s ≡ ok a (record s { handle = some d; world = d.world })
  unfolding on_handle
  on_handle-ok m a d run =
      let same : record c { world = s.world } ≡ c = rw (← current) refl in
      ground (arith, held, ap m same ∙ run)

  -- Closing a device whose client is attached to a volume: the server has closed the volume's file
  -- and freed the volume, has no request left and has sent no reply, and the client's reply queue is
  -- removed by its name. The driver's handle is no client any more.
  pub cvbd_close_lem :
      (q volume : ℕ) (v : VolumeState) (nonnull : volume ≢ 0) (whole : WholeCalls env.host v.fd)
      → Attached (volume_device env q volume v nonnull whole) env.layout c
      → (t : State env decimal fresh) × (cvbd_close env decimal fresh s ≡ ok tt t)
        × (t.handle ≡ none)
        × (t.world.disk ≡ env.host.close v.fd s.world.disk)
        × (t.world.heap ≡ free volume s.world.heap)
        × (env.requests.messages q t.world.incoming ≡ [])
        × (t.world.outgoing ≡ (env.replies.remove c.volume_name s.world.outgoing).1)
  unfolding cvbd_close destroy_client
  cvbd_close_lem q volume v nonnull whole attached =
      let (d, run, disk, heap, outgoing, left) =
        release_volume-close env q volume v nonnull whole c attached in
      let run' = on_handle-ok (release_volume (served env) env.layout) true d run in
      let name = volume_name-release_volume env c d true run in
      (
        record s {
          handle = none;
          world = record (d.world) {
            outgoing = (env.replies.remove d.volume_name d.world.outgoing).1;
          };
        },
        ground (arith, run'),
        refl,
        rw (← current) disk,
        rw (← current) heap,
        left,
        rw (outgoing, name, current) refl,
      )

-- The whole life of a device. A server runs, whose request queue is the one that the client will
-- find, is empty and has room; the name is not empty, holds no NUL, fits into the arrays of the
-- request, and is followed by NUL there; its reply queue can be created, its file opens,
-- `ftruncate` succeeds, and later calls on the file are not cut short inside it. A range that is
-- aligned and lies inside the file and below 2^63 is written from one buffer of its length and
-- read into another: opening, writing and reading return 0, the buffer read into then holds the
-- bytes written, and closing returns; at the end the driver has no client, the request queue is
-- empty, and the file that the server has closed has changed in this range only.
pub session_lem :
    (env : Env) (decimal : ℕ → Bytes) (fresh : Fresh) (s : State env decimal fresh) (name : Bytes)
    (q k : ℕ) (shm : env.replies.Shm) (errno fd : ℕ) (d d' : env.host.Disk)
    (whole : WholeCalls env.host fd) (sector_num nb_sectors : ℤ) (o : ℕ) (buffer other : Bytes)
    → 0 < length name
    → NoNul name
    → length name ≤ length (env.layout.as_open fresh.request_msg).volume_name
    → length name ≤ length (env.layout.as_open fresh.request_msg).reply_mq_name
    → c_string (drop (length name) (env.layout.as_open fresh.request_msg).volume_name) ≡ some []
    → c_string (drop (length name) (env.layout.as_open fresh.request_msg).reply_mq_name) ≡ some []
    → env.requests.open_only (queue_name env decimal 0) s.world.incoming ≡ some q
    → s.world.request_mq ≡ q
    → env.requests.messages q s.world.incoming ≡ []
    → 0 < env.requests.capacity q s.world.incoming
    → env.replies.create_only name max_queue_size (env.replies.remove name s.world.outgoing).1
      ≡ some (k, shm)
    → env.host.open_rdwr (open_path name) s.world.disk ≡ (ret fd, d)
    → env.host.ftruncate fd (2 ^ 34) d ≡ (ret tt, d')
    → is_request_aligned env.bdrv_sector_size sector_num nb_sectors ≡ true
    → to_i64 (in_bytes env.bdrv_sector_size sector_num) ≡ pos o
    → o + in_bytes env.bdrv_sector_size nb_sectors < 2 ^ 63
    → length buffer ≡ in_bytes env.bdrv_sector_size nb_sectors
    → length other ≡ in_bytes env.bdrv_sector_size nb_sectors
    → o + in_bytes env.bdrv_sector_size nb_sectors ≤ length (env.host.contents fd d')
    → (t : State env decimal fresh) × (after : env.host.Disk) × (session env decimal fresh
          (some name)
          errno
          sector_num
          nb_sectors
          buffer
          other
          s
        ≡ ok (pos 0, pos 0, (pos 0, buffer)) t)
      × (t.handle ≡ none)
      × (env.requests.messages q t.world.incoming ≡ [])
      × (t.world.disk ≡ env.host.close fd after)
      × (env.host.contents fd after ≡ overwrite (env.host.contents fd d') o buffer)
unfolding session
session_lem env decimal fresh s name q k shm errno fd d d' whole sector_num nb_sectors o buffer
      other some_name no_nul fits mq_fits end mq_end found served_mq idle room created opens
      truncates aligned first small len len' inside =
    let (s1, c, nonnull, opened, held, current, attached, disk, alignment, options) =
      cvbd_open-Attached env decimal fresh s name q k shm errno fd d d' whole some_name no_nul fits
        mq_fits end mq_end found served_mq idle room created opens truncates in
    let v : VolumeState = record { volume_name = name; volume_id = 0; fd = fd; reply_mq = k } in
    let (c2, c3, wrote, got, changed, attached') =
      cvbd_write-cvbd_read-Attached env q c.volume v nonnull whole sector_num nb_sectors o buffer
        other c aligned first small len len' attached (rw (current, disk) inside) in
    let s2 : State env decimal fresh = record s1 { handle = some c2; world = c2.world } in
    let s3 : State env decimal fresh = record s1 { handle = some c3; world = c3.world } in
    let wrote' =
      on_handle-ok env decimal fresh s1 c held current
        (cvbd_write (served env) env.layout env.bdrv_sector_size sector_num nb_sectors buffer)
        (pos 0) c2 wrote in
    let got' =
      on_handle-ok env decimal fresh s2 c2 refl refl
        (cvbd_read (served env) env.layout env.bdrv_sector_size sector_num nb_sectors other)
        (pos 0, buffer) c3 got in
    let (t, closed, freed, shut, heap, left, outgoing) =
      cvbd_close_lem env decimal fresh s3 c3 refl refl q c.volume v nonnull whole attached' in
    (
      t,
      c3.world.disk,
      ground (arith, opened, wrote', got', closed),
      freed,
      left,
      shut,
      rw (← disk, ← current) changed,
    )
