-- ===== src/SyncIo/Reading.antt =====
-- cvbd_syncio.c: `cvbd_read` over a device.
use qemu_cvbd_shraed_memory.Common.{
  ℕ, zero, suc, ◌+◌, ◌-◌, ◌%◌, ◌^◌, ◌≤◌, ◌<◌, ◌≡◌, refl, sym, ap, ◌∙◌, true, false, length, take,
  drop, arith, ltb, dec_lt, length-take, length-drop, drop-drop, drop-take,
}
use qemu_cvbd_shraed_memory.Common.Int.{ℤ, pos, to_u64, to_i64}
use qemu_cvbd_shraed_memory.Common.Outcome.{ok}
use qemu_cvbd_shraed_memory.Chunk.{init, is_valid}
use qemu_cvbd_shraed_memory.Chunk.Partition.{
  at, span, piece, is_valid-at, next-at, span_pos, span_le,
}
use qemu_cvbd_shraed_memory.Iov.{Bytes, overwrite}
use qemu_cvbd_shraed_memory.Message.{max_data_size, Layout}
use qemu_cvbd_shraed_memory.Cvbd.{in_bytes, is_request_aligned}
use qemu_cvbd_shraed_memory.SyncClient.{Port, SharedMemClient}
use qemu_cvbd_shraed_memory.SyncClient.Device.{Device}
use qemu_cvbd_shraed_memory.SyncClient.Requests.{Attached, disk_of, shared_mem_read-done}
use qemu_cvbd_shraed_memory.SyncIo.{msgq_max_size, read_piece, read_loop, chunks, cvbd_read}
use qemu_cvbd_shraed_memory.SyncIo.Lists.{
  length-overwrite, overwrite-overwrite, overwrite_nothing, take-take, copy_over,
}
use qemu_cvbd_shraed_memory.SyncIo.Offsets.{relative_off-at, in_request-at, to_i64-small}

module _ (sector_size : ℕ) (sector_num nb_sectors : ℤ) (o l : ℕ)
    (first : to_i64 (in_bytes sector_size sector_num) ≡ pos o)
    (bytes : in_bytes sector_size nb_sectors ≡ l) (fits : o + l < 2 ^ 63) {port : Port}
    {request_mq reply_mq volume : ℕ} (device : Device port request_mq reply_mq volume)
    (layout : Layout) where
  read_piece-done :
      (buffer : Bytes) (c n : ℕ) (s : SharedMemClient port layout)
      → length buffer ≡ l
      → o ≤ c
      → 0 < n
      → n ≤ max_data_size
      → c + n ≤ o + l
      → Attached device layout s
      → o + l ≤ length (disk_of device layout s)
      → (s' : SharedMemClient port layout) × (read_piece port layout sector_size sector_num
            nb_sectors buffer
            (piece c n)
            s
          ≡ ok (overwrite buffer (c - o) (take n (drop c (disk_of device layout s)))) s')
        × Attached device layout s'
        × (disk_of device layout s' ≡ disk_of device layout s)
  unfolding read_piece to_u64
  read_piece-done buffer c n s len low some_left small high attached room =
      let rel =
        relative_off-at sector_size sector_num nb_sectors o l first bytes fits c low
          (omega arith) in
      let inside =
        in_request-at sector_size sector_num nb_sectors o l first bytes fits (c - o)
          (omega arith) in
      let got = take n (drop c (disk_of device layout s)) in
      let k : (c - o) % 2 ^ 64 ≡ c - o = omega arith in
      let m : n % 2 ^ 64 ≡ n = omega arith in
      let short : length got ≤ n =
        omega (arith, length-take n (drop c (disk_of device layout s))) in
      let no_overrun : ltb (length buffer) (c - o + length got) ≡ false = ground arith in
      let (s', run, attached', same) =
        shared_mem_read-done device layout s c n attached small (omega arith) in
      (s', rw rel (ground (arith, inside, k, m, run, no_overrun)), attached', same)

  read_loop-done :
      (f : ℕ) (buffer : Bytes) (c : ℕ) (s : SharedMemClient port layout) (disk : Bytes)
      → disk_of device layout s ≡ disk
      → length buffer ≡ l
      → o ≤ c
      → c ≤ o + l
      → o + l - c < f
      → Attached device layout s
      → o + l ≤ length disk
      → (s' : SharedMemClient port layout) × (read_loop port layout sector_size sector_num
            nb_sectors f buffer
            (at o l msgq_max_size c)
            s
          ≡ ok (overwrite buffer (c - o) (take (o + l - c) (drop c disk))) s')
        × Attached device layout s'
        × (disk_of device layout s' ≡ disk)
  unfolding read_loop
  read_loop-done zero buffer c s disk is len low high fuel attached room = absurd (omega arith)
  read_loop-done (suc f) buffer c s disk is len low high fuel attached room =
      let b = msgq_max_size in
      let x = take (o + l - c) (drop c disk) in
      let len_x : length x ≡ o + l - c =
        omega (arith, length-take (o + l - c) (drop c disk), length-drop c disk) in
      elim (dec_lt c (o + l)) [
        | no none_left ↦
            let over : is_valid (at o l b c) ≡ false = ground (arith, is_valid-at o l b c) in
            (s, rw (over, overwrite_nothing buffer x (c - o) (omega arith)) refl, attached, is)
        | yes more ↦
            let valid : is_valid (at o l b c) ≡ true = ground (arith, is_valid-at o l b c) in
            let n = span o l b c in
            let some_left = span_pos o l b c (omega arith) more in
            let high' = span_le o l b c (omega arith) high in
            let (t, once, attached', same) =
              read_piece-done buffer c n s len low some_left (omega arith) high' attached
                (rw is room) in
            let head : take n (drop c (disk_of device layout s)) ≡ take n x =
              rw is (sym (take-take n (o + l - c) (drop c disk) (omega arith))) in
            let len_head : length (take n x) ≡ n = omega (arith, length-take n x) in
            let buffer' = overwrite buffer (c - o) (take n x) in
            let (s', rest, attached'', same') =
              read_loop-done f buffer' (c + n) t disk (same ∙ is)
                (length-overwrite buffer (take n x) (c - o) (omega arith) ∙ len) (omega arith) high'
                (omega arith) attached' room in
            let shift : take (o + l - (c + n)) (drop (c + n) disk) ≡ drop n x = sym (
              drop-take n (o + l - c) (drop c disk)
              ∙ rw (drop-drop c n disk) (ap (λ k. take k (drop (c + n) disk)) (omega arith))) in
            let k : c + n - o ≡ c - o + n = omega arith in
            let all = overwrite-overwrite buffer x (c - o) n (omega arith) (omega arith) in
            (
              s',
              ground (
                arith,
                valid,
                next-at o l b c (omega arith) high,
                once,
                head,
                rest,
                shift,
                k,
                all,
              ),
              attached'',
              same',
            )
      ]

-- `cvbd_read` by a client attached to a device, of an aligned request that lies inside the disk and
-- below 2^63, with a buffer of the request's length, however many messages it takes: it returns 0
-- with the disk's bytes at the request's offset in the buffer, leaves the disk as it was, and the
-- client stays attached. No assertion fails, and no copy leaves the buffer.
pub cvbd_read_lem :
    {port : Port} {request_mq reply_mq volume : ℕ} (device : Device port request_mq reply_mq volume)
    (layout : Layout) (sector_size : ℕ) (sector_num nb_sectors : ℤ) (o : ℕ) (buffer : Bytes)
    (s : SharedMemClient port layout)
    → is_request_aligned sector_size sector_num nb_sectors ≡ true
    → to_i64 (in_bytes sector_size sector_num) ≡ pos o
    → o + in_bytes sector_size nb_sectors < 2 ^ 63
    → length buffer ≡ in_bytes sector_size nb_sectors
    → Attached device layout s
    → o + in_bytes sector_size nb_sectors ≤ length (disk_of device layout s)
    → (s' : SharedMemClient port layout) × (cvbd_read port layout sector_size sector_num nb_sectors
          buffer s
        ≡ ok (pos 0, take (in_bytes sector_size nb_sectors) (drop o (disk_of device layout s))) s')
      × Attached device layout s'
      × (disk_of device layout s' ≡ disk_of device layout s)
unfolding cvbd_read chunks init
cvbd_read_lem device layout sector_size sector_num nb_sectors o buffer s aligned first fits len
      attached room =
    let l = in_bytes sector_size nb_sectors in
    let size : to_i64 l ≡ pos l = to_i64-small l (omega arith) in
    let got = take l (drop o (disk_of device layout s)) in
    let (s', run, attached', same) =
      read_loop-done sector_size sector_num nb_sectors o l first refl fits device layout (suc l)
        buffer o s (disk_of device layout s) refl len (omega arith) (omega arith) (omega arith)
        attached room in
    let z : o - o ≡ 0 = omega arith in
    let y : o + l - o ≡ l = omega arith in
    let len_got : length got ≡ length buffer = omega (
      arith,
      length-take l (drop o (disk_of device layout s)),
      length-drop o (disk_of device layout s),
    ) in
    let run' = rw (z, y, copy_over buffer got len_got) at run in
    (s', rw (aligned, first, size) (ground (arith, run')), attached', same)
