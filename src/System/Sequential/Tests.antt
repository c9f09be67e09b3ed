-- ===== src/System/Sequential/Tests.antt =====
-- An example for a server with two volumes, on the machine with two files.
use qemu_cvbd_shraed_memory.Common.{
  ℕ, zero, suc, ◌+◌, ◌≡◌, ◌≢◌, ◌≤◌, ap, ◌⊎◌, inl, inr, refl, true, false, Bool-cases, some, List,
  [], ◌∷◌, ◌++◌, length, take, drop, arith, ◌==◌, if◌then◌else◌, replicate, length-take,
  length-drop,
}
use qemu_cvbd_shraed_memory.Common.Int.{pos}
use qemu_cvbd_shraed_memory.Common.Outcome.{ok}
use qemu_cvbd_shraed_memory.Common.Store.{Store, find}
use qemu_cvbd_shraed_memory.Iov.{Bytes, overwrite}
use qemu_cvbd_shraed_memory.Message.{
  codes, RequestType, req_write, req_read, req_fsync, Header, Request, write_request, read_request,
  fsync_request,
}
use qemu_cvbd_shraed_memory.Host.Simple.{Table}
use qemu_cvbd_shraed_memory.Host.Double.{
  double, two_files, one_of, put_back, send_to_first, send_to_second,
}
use qemu_cvbd_shraed_memory.Server.{VolumeState, Server, handle_requests}
use qemu_cvbd_shraed_memory.System.Volume.{WholeCalls}
use qemu_cvbd_shraed_memory.System.Sequential.{Reliable, after_all, heard_all}
use qemu_cvbd_shraed_memory.System.Sequential.Several.{Apart}
use qemu_cvbd_shraed_memory.System.Sequential.Shared.{own, Shares}
use qemu_cvbd_shraed_memory.System.Sequential.Shared.Serves.{handle_requests-several}

abbrev state_at : ℕ → VolumeState
state_at fd = record { volume_name = codes "v"; volume_id = 0; fd = fd; reply_mq = fd }

abbrev heap : Store VolumeState
heap = (5, state_at 0) ∷ (6, state_at 1) ∷ []

abbrev bytes : ℕ → Bytes
bytes a = if a == 5 then replicate 5 0 else replicate 3 1

abbrev head : RequestType → ℕ → Header
head type volume = record { stop = false; type = type; id = 1; volume = volume; acb = 9 }

-- Two clients take turns.
abbrev four : List Request
four =
    write_request
      (record { header = head req_write 5; offset = pos 2; size_in_bytes = 2; bytes = 7 ∷ 8 ∷ [] })
    ∷ write_request
        (record { header = head req_write 6; offset = pos 0; size_in_bytes = 1; bytes = 9 ∷ [] })
    ∷ read_request (record { header = head req_read 5; offset = pos 0; size_in_bytes = 4 })
    ∷ fsync_request (head req_fsync 6)
    ∷ []

abbrev table : {A : Type 0} → List A → Table A
table queue = record { exists = true; room = 32; queue = queue }

abbrev busy : Server double
busy = record {
  disk = (replicate 5 0, replicate 3 1);
  errno = 0;
  heap = heap;
  request_mq = 0;
  incoming = table four;
  outgoing = (table [], table []);
}

two_files-Reliable : (fd : ℕ) → Reliable two_files fd
two_files-Reliable fd = record {
  whole = whole fd;
  synced = λ d. (d, refl, refl);
  sized = λ d. (d, refl, refl);
}
  where
    whole : (fd : ℕ) → WholeCalls two_files fd
    whole zero = record {
      write_whole = λ b o d h. (put_back 0 (overwrite d.0 o b) d, ground arith);
      read_whole = λ n o d h. (
        take n (drop o d.0),
        d,
        refl,
        omega (arith, length-take n (drop o d.0), length-drop o d.0),
      );
    }
    whole (suc k) = record {
      write_whole = λ b o d h. (put_back 1 (overwrite d.1 o b) d, ground arith);
      read_whole = λ n o d h. (
        take n (drop o d.1),
        d,
        refl,
        omega (arith, length-take n (drop o d.1), length-drop o d.1),
      );
    }

first-Apart : Apart double (state_at 0) (state_at 1)
first-Apart = record {
  write_apart = λ b o d. refl;
  read_apart = λ n o d. refl;
  sync_apart = λ d. refl;
  size_apart = λ d. refl;
  send_apart = λ m s s' e.
      let same = send_to_first m s s' e in (ap (λ t. t.queue) same, ap (λ t. t.room) same);
}

second-Apart : Apart double (state_at 1) (state_at 0)
second-Apart = record {
  write_apart = λ b o d. refl;
  read_apart = λ n o d. refl;
  sync_apart = λ d. refl;
  size_apart = λ d. refl;
  send_apart = λ m s s' e.
      let same = send_to_second m s s' e in (ap (λ t. t.queue) same, ap (λ t. t.room) same);
}

heap_cases :
    (a : ℕ) (v : VolumeState)
    → find a heap ≡ some v
    → ((a ≡ 5) × (v ≡ state_at 0)) ⊎ ((a ≡ 6) × (v ≡ state_at 1))
unfolding find
heap_cases a v there = elim (Bool-cases (5 == a)) [
  | inl five ↦ inl (ground arith, ground arith)
  | inr other ↦ inr (ground arith, ground arith)
]

-- What holds of both volumes holds of every volume.
both :
    (P : ℕ → VolumeState → Type 0)
    → P 5 (state_at 0)
    → P 6 (state_at 1)
    → (a : ℕ) (v : VolumeState) → find a heap ≡ some v
    → P a v
both P five six a v there = elim (heap_cases a v there) [
  | inl (at, is) ↦ rw (at, is) five
  | inr (at, is) ↦ rw (at, is) six
]

separate :
    (a b : ℕ) (v w : VolumeState)
    → find a heap ≡ some v
    → find b heap ≡ some w
    → a ≢ b
    → Apart double v w
separate a b v w there there' =
    both (λ x y. x ≢ b → Apart double y w)
      (λ differ.
        both (λ x y. 5 ≢ x → Apart double (state_at 0) y) (λ n. absurd (n refl)) (λ n. first-Apart)
          b w there' differ)
      (λ differ.
        both (λ x y. 6 ≢ x → Apart double (state_at 1) y) (λ n. second-Apart) (λ n. absurd (n refl))
          b w there' differ)
      a v there

handle_requests-several_example :
    (t : Server double) × (handle_requests double 4 busy ≡ ok true t)
    × Shares double heap 0
        (λ a. after_all (own a four) (bytes a))
        (λ a. [] ++ heard_all (own a four) (bytes a))
        []
        t
unfolding find
handle_requests-several_example =
    handle_requests-several double heap 0 (λ a v there. two_files-Reliable v.fd) separate
      (λ a. length (bytes a)) bytes (λ a. []) four busy (λ a. refl)
      (record {
        one_queue = refl;
        objects = refl;
        queue = refl;
        held =
            both
              (λ a v.
                (one_of v.fd busy.disk ≡ bytes a) × ((one_of v.reply_mq busy.outgoing).queue ≡ []))
              (refl, refl) (refl, refl);
      })
      (
        (
          state_at 0,
          refl,
          omega arith,
          ((refl, refl, refl), refl, omega arith, omega arith, omega arith),
        ),
        (
          (
            state_at 1,
            refl,
            omega arith,
            ((refl, refl, refl), refl, omega arith, omega arith, omega arith),
          ),
          (
            (state_at 0, refl, omega arith, ((refl, refl, refl), refl, omega arith, omega arith)),
            ((state_at 1, refl, omega arith, (refl, refl, refl)), tt),
          ),
        ),
      )
      (both (λ a v. 0 + length (own a four) ≤ (one_of v.reply_mq busy.outgoing).room) (omega arith)
        (omega arith))
