-- ===== src/Host/Double.antt =====
-- A machine that keeps the laws of `Host`, with two files and two reply queues: descriptor 0 and handle
-- 0 mean the first, all others the second.
use qemu_cvbd_shraed_memory.Common.{
  ℕ, zero, suc, ◌+◌, ◌≤◌, ◌<◌, ◌≡◌, refl, false, Option, none, some, List, [], ◌∷◌, ◌++◌, length,
  take, drop, arith,
}
use qemu_cvbd_shraed_memory.Common.Int.{pos}
use qemu_cvbd_shraed_memory.Iov.{Bytes, overwrite}
use qemu_cvbd_shraed_memory.Message.{Request, Reply}
use qemu_cvbd_shraed_memory.Host.{Sys, ret, Ipc, Host, Env}
use qemu_cvbd_shraed_memory.Host.Simple.{
  Table, put_in, take_out, put_in_room, take_out_empty, open_queue, new_queue, write_file,
  read_file, write_file_lem, read_file_lem, next_address, next_nonnull, next_fresh, zero_layout,
  one_queue,
}

-- One of two things, or both with one replaced.
module _ {B : Type 0} where
  abbrev pub one_of : ℕ → B × B → B
  one_of zero p = p.0
  one_of (suc h) p = p.1

  abbrev pub put_back : ℕ → B → B × B → B × B
  put_back zero b p = (b, p.1)
  put_back (suc h) b p = (p.0, b)

  pub one_of-put_back : (h : ℕ) (b : B) (p : B × B) → one_of h (put_back h b p) ≡ b
  one_of-put_back zero b p = refl
  one_of-put_back (suc h) b p = refl

abbrev pub Pair : Type 0 → Type 0
Pair A = Table A × Table A

module _ {A : Type 0} where
  abbrev pub send_to : ℕ → A → Pair A → Option (Pair A)
  send_to h m p = elim (put_in h m (one_of h p)) [ none ↦ none | some t ↦ some (put_back h t p) ]

  abbrev pub receive_from : ℕ → Pair A → Option (A × Pair A)
  receive_from h p = elim (take_out h (one_of h p)) [
    | none ↦ none
    | some (m, t) ↦ some (m, put_back h t p)
  ]

  pub send_to_room :
      (h : ℕ) (m : A) (p : Pair A)
      → length (one_of h p).queue < (one_of h p).room
      → (p' : Pair A) × (send_to h m p ≡ some p')
  send_to_room h m p room =
      let (t, sent) = put_in_room h m (one_of h p) room in (put_back h t p, ground (arith, sent))

  pub send_to_messages :
      (h : ℕ) (m : A) (p p' : Pair A)
      → send_to h m p ≡ some p'
      → ((one_of h p').queue ≡ (one_of h p).queue ++ m ∷ [])
        × ((one_of h p').room ≡ (one_of h p).room)
  send_to_messages zero m p p' e = ground arith
  send_to_messages (suc h) m p p' e = ground arith

  pub receive_from_first :
      (h : ℕ) (m : A) (ms : List A) (p : Pair A)
      → (one_of h p).queue ≡ m ∷ ms
      → (p' : Pair A) × (receive_from h p ≡ some (m, p'))
        × ((one_of h p').queue ≡ ms)
        × ((one_of h p').room ≡ (one_of h p).room)
  receive_from_first zero m ms p first =
      ((record (p.0) { queue = ms }, p.1), ground arith, refl, refl)
  receive_from_first (suc h) m ms p first =
      ((p.0, record (p.1) { queue = ms }), ground arith, refl, refl)

  pub receive_from_empty : (h : ℕ) (p : Pair A) → (one_of h p).queue ≡ [] → receive_from h p ≡ none
  receive_from_empty h p empty = ground (arith, take_out_empty h (one_of h p) empty)

  abbrev pub create_first : ℕ → Pair A → Option (ℕ × Pair A)
  create_first n p = elim (new_queue n p.0) [ none ↦ none | some (h, t) ↦ some (0, (t, p.1)) ]

  abbrev pub open_first : Pair A → Option ℕ
  open_first p = open_queue p.0

  pub create_first_lem :
      (n h : ℕ) (p p' : Pair A)
      → create_first n p ≡ some (h, p')
      → ((one_of h p').queue ≡ []) × ((one_of h p').room ≡ n) × (open_first p' ≡ some h)
  create_first_lem n h p p' e = ground arith

  pub remove_first_keeps :
      (h : ℕ) (p : Pair A)
      → let q : Pair A = (record (p.0) { exists = false }, p.1) in
        ((one_of h q).queue ≡ (one_of h p).queue) × ((one_of h q).room ≡ (one_of h p).room)
  remove_first_keeps zero p = (refl, refl)
  remove_first_keeps (suc h) p = (refl, refl)

  -- Another handle than the one that a message goes to.
  pub send_to_first : (m : A) (p p' : Pair A) → send_to 0 m p ≡ some p' → p'.1 ≡ p.1
  send_to_first m p p' e = ground arith

  pub send_to_second : (m : A) (p p' : Pair A) → send_to 1 m p ≡ some p' → p'.0 ≡ p.0
  send_to_second m p p' e = ground arith

abbrev pub two_queues : (A : Type 0) → Ipc A
two_queues A = record {
  Shm = Pair A;
  open_only = λ name p. open_first p;
  create_only = λ name n p. create_first n p;
  remove = λ name p. (p.0.exists, (record (p.0) { exists = false }, p.1));
  send = send_to;
  receive = receive_from;
  messages = λ h p. (one_of h p).queue;
  capacity = λ h p. (one_of h p).room;
  send_room = send_to_room;
  send_messages = send_to_messages;
  receive_first = receive_from_first;
  receive_empty = receive_from_empty;
  create_messages = λ name n h p p' e. create_first_lem n h p p' e;
  remove_keeps = λ name h p. remove_first_keeps h p;
}

-- The call on one of the two files.
abbrev pub on_one :
    {C : Type 0} → ℕ → (Bytes → Sys C × Bytes) → Bytes × Bytes → Sys C × (Bytes × Bytes)
on_one fd call p = let (r, d) = call (one_of fd p) in (r, put_back fd d p)

pub write_one_lem :
    (fd : ℕ) (bytes : Bytes) (o n : ℕ) (d d' : Bytes × Bytes)
    → on_one fd (write_file fd bytes (pos o)) d ≡ (ret n, d')
    → o + n ≤ length (one_of fd d)
    → one_of fd d' ≡ overwrite (one_of fd d) o (take n bytes)
write_one_lem zero bytes o n d d' e fits =
    write_file_lem zero bytes o n d.0 d'.0 (ground (arith, e)) fits
write_one_lem (suc fd) bytes o n d d' e fits =
    write_file_lem (suc fd) bytes o n d.1 d'.1 (ground (arith, e)) fits

pub read_one_lem :
    (fd n o : ℕ) (bytes : Bytes) (d d' : Bytes × Bytes)
    → on_one fd (read_file fd n (pos o)) d ≡ (ret bytes, d')
    → (length bytes ≤ n)
      × (bytes ≡ take (length bytes) (drop o (one_of fd d)))
      × (one_of fd d' ≡ one_of fd d)
read_one_lem zero n o bytes d d' e = read_file_lem zero n o bytes d.0 d'.0 (ground (arith, e))
read_one_lem (suc fd) n o bytes d d' e =
    read_file_lem (suc fd) n o bytes d.1 d'.1 (ground (arith, e))

abbrev pub two_files : Host
two_files = record {
  Disk = Bytes × Bytes;
  open_rdwr = λ name d. (ret 0, d);
  open_creat = λ name d. (ret 0, d);
  ftruncate = λ fd n d. (ret tt, d);
  fstat_size = λ fd d. (ret (length (one_of fd d)), d);
  fsync = λ fd d. (ret tt, d);
  pwrite = λ fd bytes o. on_one fd (write_file fd bytes o);
  pread = λ fd n o. on_one fd (read_file fd n o);
  close = λ fd d. d;
  alloc = next_address;
  contents = one_of;
  pwrite_in_file = write_one_lem;
  pread_lem = read_one_lem;
  alloc_nonnull = next_nonnull;
}

abbrev pub double : Env
double = record {
  host = two_files;
  requests = one_queue Request;
  replies = two_queues Reply;
  layout = zero_layout;
  path_max = 8;
  bdrv_sector_size = 512;
  slice_new = next_address;
  slice_nonnull = next_nonnull;
  slice_fresh = next_fresh;
}
