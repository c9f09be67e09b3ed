-- ===== src/SyncIo/Writing.antt =====
-- cvbd_syncio.c: `cvbd_write` over a device.
use qemu_cvbd_shraed_memory.Common.{
  ℕ, zero, suc, ◌+◌, ◌-◌, ◌%◌, ◌^◌, ◌≤◌, ◌<◌, ◌≡◌, refl, sym, ap, ◌∙◌, true, false, length, take,
  drop, arith, dec_lt, length-take, length-drop, drop-drop,
}
use qemu_cvbd_shraed_memory.Common.Int.{ℤ, pos, to_u64, to_i64}
use qemu_cvbd_shraed_memory.Common.Outcome.{ok}
use qemu_cvbd_shraed_memory.Chunk.{init, is_valid}
use qemu_cvbd_shraed_memory.Chunk.Partition.{
  at, span, piece, is_valid-at, next-at, span_pos, span_le,
}
use qemu_cvbd_shraed_memory.Iov.{Bytes, overwrite}
use qemu_cvbd_shraed_memory.Message.{max_data_size, Layout}
use qemu_cvbd_shraed_memory.Cvbd.{in_bytes, is_request_aligned}
use qemu_cvbd_shraed_memory.SyncClient.{Port, SharedMemClient}
use qemu_cvbd_shraed_memory.SyncClient.Device.{Device}
use qemu_cvbd_shraed_memory.SyncClient.Requests.{Attached, disk_of, shared_mem_write-done}
use qemu_cvbd_shraed_memory.SyncIo.{msgq_max_size, write_piece, write_loop, chunks, cvbd_write}
use qemu_cvbd_shraed_memory.SyncIo.Lists.{length-overwrite, overwrite-overwrite, overwrite_nothing}
use qemu_cvbd_shraed_memory.SyncIo.Offsets.{relative_off-at, in_request-at, to_i64-small}

module _ (sector_size : ℕ) (sector_num nb_sectors : ℤ) (o l : ℕ)
    (first : to_i64 (in_bytes sector_size sector_num) ≡ pos o)
    (bytes : in_bytes sector_size nb_sectors ≡ l) (fits : o + l < 2 ^ 63) {port : Port}
    {request_mq reply_mq volume : ℕ} (device : Device port request_mq reply_mq volume)
    (layout : Layout) where
  abbrev State : Type 0
  State = SharedMemClient port layout

  write_piece-done :
      (buffer : Bytes) (c n : ℕ) (s : State)
      → length buffer ≡ l
      → o ≤ c
      → 0 < n
      → n ≤ max_data_size
      → c + n ≤ o + l
      → Attached device layout s
      → o + l ≤ length (disk_of device layout s)
      → (s' : State) × (write_piece port layout sector_size sector_num nb_sectors buffer
            (piece c n)
            s
          ≡ ok tt s')
        × Attached device layout s'
        × (disk_of device layout s'
            ≡ overwrite (disk_of device layout s) c (take n (drop (c - o) buffer)))
  unfolding write_piece to_u64
  write_piece-done buffer c n s len low some_left small high attached room =
      let rel =
        relative_off-at sector_size sector_num nb_sectors o l first bytes fits c low
          (omega arith) in
      let inside =
        in_request-at sector_size sector_num nb_sectors o l first bytes fits (c - o)
          (omega arith) in
      let k : (c - o) % 2 ^ 64 ≡ c - o = omega arith in
      let m : n % 2 ^ 64 ≡ n = omega arith in
      let (s', run, attached', effect) =
        shared_mem_write-done device layout s c n attached small (omega arith) (drop (c - o) buffer)
          (omega (arith, length-drop (c - o) buffer)) in
      (s', rw rel (ground (arith, inside, k, m, run)), attached', effect)

  write_loop-done :
      (f : ℕ) (buffer : Bytes) (c : ℕ) (s : State)
      → length buffer ≡ l
      → o ≤ c
      → c ≤ o + l
      → o + l - c < f
      → Attached device layout s
      → o + l ≤ length (disk_of device layout s)
      → (s' : State) × (write_loop port layout sector_size sector_num nb_sectors f buffer
            (at o l msgq_max_size c)
            s
          ≡ ok tt s')
        × Attached device layout s'
        × (disk_of device layout s' ≡ overwrite (disk_of device layout s) c (drop (c - o) buffer))
  unfolding write_loop
  write_loop-done zero buffer c s len low high fuel attached room = absurd (omega arith)
  write_loop-done (suc f) buffer c s len low high fuel attached room = elim (dec_lt c (o + l)) [
    | no none_left ↦
        let over : is_valid (at o l msgq_max_size c) ≡ false =
          ground (arith, is_valid-at o l msgq_max_size c) in
        (
          s,
          rw over refl,
          attached,
          sym (
              overwrite_nothing (disk_of device layout s) (drop (c - o) buffer) c
                (omega (arith, length-drop (c - o) buffer))),
        )
    | yes more ↦
        let valid : is_valid (at o l msgq_max_size c) ≡ true =
          ground (arith, is_valid-at o l msgq_max_size c) in
        let n = span o l msgq_max_size c in
        let (t, once, attached', effect) =
          write_piece-done buffer c n s len low (span_pos o l msgq_max_size c (omega arith) more)
            (omega arith) (span_le o l msgq_max_size c (omega arith) high) attached room in
        let x = drop (c - o) buffer in
        let some_left = span_pos o l msgq_max_size c (omega arith) more in
        let high' = span_le o l msgq_max_size c (omega arith) high in
        let len_x : length x ≡ l - (c - o) = omega (arith, length-drop (c - o) buffer) in
        let same_length =
          length-overwrite (disk_of device layout s) (take n x) c
            (omega (arith, length-take n x)) in
        let shift : drop (c + n - o) buffer ≡ drop n x =
          ap (λ k. drop k buffer) (omega arith) ∙ sym (drop-drop (c - o) n buffer) in
        let (s', rest, attached'', final) =
          write_loop-done f buffer (c + n) t len (omega arith)
            (span_le o l msgq_max_size c (omega arith) high) (omega arith) attached'
            (rw effect (omega (arith, same_length))) in
        (
          s',
          ground (arith, valid, next-at o l msgq_max_size c (omega arith) high, once, rest),
          attached'',
          final
              ∙ rw (effect, shift)
                  (overwrite-overwrite (disk_of device layout s) x c n (omega arith) (omega arith)),
        )
  ]

-- `cvbd_write` by a client attached to a device, of an aligned request that lies inside the disk and
-- below 2^63, with a buffer of the request's length, however many messages it takes: it returns 0,
-- the disk then holds the buffer at the request's offset and is otherwise as it was, and the client
-- stays attached. No assertion fails, and no copy leaves the buffer.
pub cvbd_write_lem :
    {port : Port} {request_mq reply_mq volume : ℕ} (device : Device port request_mq reply_mq volume)
    (layout : Layout) (sector_size : ℕ) (sector_num nb_sectors : ℤ) (o : ℕ) (buffer : Bytes)
    (s : SharedMemClient port layout)
    → is_request_aligned sector_size sector_num nb_sectors ≡ true
    → to_i64 (in_bytes sector_size sector_num) ≡ pos o
    → o + in_bytes sector_size nb_sectors < 2 ^ 63
    → length buffer ≡ in_bytes sector_size nb_sectors
    → Attached device layout s
    → o + in_bytes sector_size nb_sectors ≤ length (disk_of device layout s)
    → (s' : SharedMemClient port layout) × (cvbd_write port layout sector_size sector_num nb_sectors
          buffer s
        ≡ ok (pos 0) s')
      × Attached device layout s'
      × (disk_of device layout s' ≡ overwrite (disk_of device layout s) o buffer)
unfolding cvbd_write chunks init
cvbd_write_lem device layout sector_size sector_num nb_sectors o buffer s aligned first fits len
      attached room =
    let l = in_bytes sector_size nb_sectors in
    let size : to_i64 l ≡ pos l = to_i64-small l (omega arith) in
    let (s', run, attached', effect) =
      write_loop-done sector_size sector_num nb_sectors o l first refl fits device layout (suc l)
        buffer o s len (omega arith) (omega arith) (omega arith) attached room in
    let z : o - o ≡ 0 = omega arith in
    (s', rw (aligned, first, size) (ground (arith, run)), attached', rw z at effect)
