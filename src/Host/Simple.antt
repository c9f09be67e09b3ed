-- ===== src/Host/Simple.antt =====
-- A machine that keeps the laws of `Host`: queues as lists in tables, and a disk of one file.
use qemu_cvbd_shraed_memory.Common.{
  ℕ, suc, ◌+◌, ◌≤◌, ◌<◌, ◌≡◌, ◌≢◌, refl, Bool, true, false, Option, none, some, List, [], ◌∷◌, ◌++◌,
  length, take, drop, arith, ltb, leb, if◌then◌else◌, length-take, take_all, take-length-take, sym,
  replicate,
}
use qemu_cvbd_shraed_memory.Common.Int.{ℤ, pos, negsuc}
use qemu_cvbd_shraed_memory.Common.Store.{Fresh}
use qemu_cvbd_shraed_memory.Iov.{Bytes, overwrite}
use qemu_cvbd_shraed_memory.Message.{
  Request, write_request, read_request, open_request, header_of, Reply, read_reply, open_reply,
  getsize_reply, fsync_reply, reply_header, Layout,
}
use qemu_cvbd_shraed_memory.Host.{Sys, ret, fail, Ipc, Host, Env}

-- One queue in shared memory: whether its name exists, its capacity and its messages.
pub record Table (A : Type 0) : Type 0 where
  pub exists : Bool
  pub room : ℕ
  pub queue : List A

module _ {A : Type 0} where
  abbrev pub put_in : ℕ → A → Table A → Option (Table A)
  put_in h m t =
      if ltb (length t.queue) t.room then some (record t { queue = t.queue ++ m ∷ [] }) else none

  abbrev pub take_out : ℕ → Table A → Option (A × Table A)
  take_out h t = elim (t.queue) [ [] ↦ none | m ∷ ms ↦ some (m, record t { queue = ms }) ]

  pub put_in_room :
      (h : ℕ) (m : A) (t : Table A)
      → length t.queue < t.room
      → (t' : Table A) × (put_in h m t ≡ some t')
  put_in_room h m t r = (record t { queue = t.queue ++ m ∷ [] }, ground arith)

  pub put_in_messages :
      (h : ℕ) (m : A) (t t' : Table A)
      → put_in h m t ≡ some t'
      → (t'.queue ≡ t.queue ++ m ∷ []) × (t'.room ≡ t.room)
  put_in_messages h m t t' e = ground arith

  pub take_out_first :
      (h : ℕ) (m : A) (ms : List A) (t : Table A)
      → t.queue ≡ m ∷ ms
      → (t' : Table A) × (take_out h t ≡ some (m, t')) × (t'.queue ≡ ms) × (t'.room ≡ t.room)
  take_out_first h m ms t e = (record t { queue = ms }, ground arith, refl, refl)

  pub take_out_empty : (h : ℕ) (t : Table A) → t.queue ≡ [] → take_out h t ≡ none
  take_out_empty h t e = ground arith

module _ {A : Type 0} where
  abbrev pub open_queue : Table A → Option ℕ
  open_queue t = if t.exists then some 0 else none

  abbrev pub new_queue : ℕ → Table A → Option (ℕ × Table A)
  new_queue n t =
      let fresh : Table A = record { exists = true; room = n; queue = [] } in
      elim (t.exists) [ true ↦ none | false ↦ some (0, fresh) ]

  pub new_queue_lem :
      (n h : ℕ) (t t' : Table A)
      → new_queue n t ≡ some (h, t')
      → (t'.queue ≡ []) × (t'.room ≡ n) × (open_queue t' ≡ some h)
  new_queue_lem n h t t' e = ground arith

-- All names and handles mean the one queue.
abbrev pub one_queue : (A : Type 0) → Ipc A
one_queue A = record {
  Shm = Table A;
  open_only = λ name t. open_queue t;
  create_only = λ name n t. new_queue n t;
  remove = λ name t. (t.exists, record t { exists = false });
  send = put_in;
  receive = take_out;
  messages = λ h t. t.queue;
  capacity = λ h t. t.room;
  send_room = put_in_room;
  send_messages = put_in_messages;
  receive_first = take_out_first;
  receive_empty = take_out_empty;
  create_messages = λ name n h t t' e. new_queue_lem n h t t' e;
  remove_keeps = λ name h t. (refl, refl);
}

-- Writes past the end of the file fail with ENOSPC, and negative offsets with EINVAL.
abbrev pub write_file : ℕ → Bytes → ℤ → Bytes → Sys ℕ × Bytes
write_file fd bytes (pos o) d =
    if leb (o + length bytes) (length d)
    then (ret (length bytes), overwrite d o bytes)
    else (fail 28, d)
write_file fd bytes (negsuc o) d = (fail 22, d)

abbrev pub read_file : ℕ → ℕ → ℤ → Bytes → Sys Bytes × Bytes
read_file fd n (pos o) d = (ret (take n (drop o d)), d)
read_file fd n (negsuc o) d = (fail 22, d)

pub write_file_lem :
    (fd : ℕ) (bytes : Bytes) (o n : ℕ) (d d' : Bytes)
    → write_file fd bytes (pos o) d ≡ (ret n, d')
    → o + n ≤ length d
    → d' ≡ overwrite d o (take n bytes)
write_file_lem fd bytes o n d d' e h =
    let all : take (length bytes) bytes ≡ bytes = take_all (length bytes) bytes (omega arith) in
    ground (arith, all)

pub read_file_lem :
    (fd n o : ℕ) (bytes d d' : Bytes)
    → read_file fd n (pos o) d ≡ (ret bytes, d')
    → (length bytes ≤ n) × (bytes ≡ take (length bytes) (drop o d)) × (d' ≡ d)
read_file_lem fd n o bytes d d' e =
    let same : take n (drop o d) ≡ bytes = ground arith in
    let rest : d ≡ d' = ground arith in
    (
      rw (← same) (omega (arith, length-take n (drop o d))),
      rw (← same) (sym (take-length-take n (drop o d))),
      sym rest,
    )

abbrev total : List ℕ → ℕ
total [] = 0
total (n ∷ ns) = n + total ns

-- Above every address in use.
abbrev pub next_address : List ℕ → ℕ
next_address used = suc (total used)

pub next_nonnull : (used : List ℕ) → next_address used ≢ 0
next_nonnull used = omega arith

Fresh-below : (a : ℕ) (used : List ℕ) → total used < a → Fresh a used
Fresh-below a [] h = tt
Fresh-below a (b ∷ used) h = (omega arith, Fresh-below a used (omega arith))

pub next_fresh : (used : List ℕ) → Fresh (next_address used) used
next_fresh used = Fresh-below (next_address used) used (omega arith)

abbrev pub one_file : Host
one_file = record {
  Disk = Bytes;
  open_rdwr = λ name d. (ret 3, d);
  open_creat = λ name d. (ret 3, d);
  ftruncate = λ fd n d. (ret tt, d);
  fstat_size = λ fd d. (ret (length d), d);
  fsync = λ fd d. (ret tt, d);
  pwrite = write_file;
  pread = read_file;
  close = λ fd d. d;
  alloc = next_address;
  contents = λ fd d. d;
  pwrite_in_file = write_file_lem;
  pread_lem = read_file_lem;
  alloc_nonnull = next_nonnull;
}

-- A cast to another member than the stored one reads zeros.
abbrev pub zero_layout : Layout
zero_layout = record {
  as_write = λ m. elim m [
    | write_request r ↦ r
    | other ↦ record { header = header_of other; offset = pos 0; size_in_bytes = 0; bytes = [] }
  ];
  as_read = λ m. elim m [
    | read_request r ↦ r
    | other ↦ record { header = header_of other; offset = pos 0; size_in_bytes = 0 }
  ];
  as_open = λ m. elim m [
    | open_request r ↦ r
    | other ↦ record {
      header = header_of other;
      volume_name = replicate 8 0;
      reply_mq_name = replicate 8 0;
    }
  ];
  as_read_reply = λ m. elim m [
    | read_reply r ↦ r
    | other ↦ record { header = reply_header other; size_in_bytes = 0; bytes = [] }
  ];
  as_open_reply = λ m. elim m [
    | open_reply r ↦ r
    | other ↦ record { header = reply_header other; volume = 0; err = pos 0 }
  ];
  as_getsize_reply = λ m. elim m [
    | getsize_reply r ↦ r
    | other ↦ record { header = reply_header other; size_in_bytes = pos 0 }
  ];
  as_fsync_reply = λ m. elim m [
    | fsync_reply r ↦ r
    | other ↦ record { header = reply_header other; err = pos 0 }
  ];
  as_write_lem = λ r. refl;
  as_read_lem = λ r. refl;
  as_open_lem = λ r. refl;
  as_read_reply_lem = λ r. refl;
  as_open_reply_lem = λ r. refl;
  as_getsize_reply_lem = λ r. refl;
  as_fsync_reply_lem = λ r. refl;
}

abbrev pub simple : Env
simple = record {
  host = one_file;
  requests = one_queue Request;
  replies = one_queue Reply;
  layout = zero_layout;
  path_max = 8;
  bdrv_sector_size = 512;
  slice_new = next_address;
  slice_nonnull = next_nonnull;
  slice_fresh = next_fresh;
}
