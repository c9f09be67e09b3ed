-- ===== src/Server/Opening.antt =====
-- server.c: the ways `IOHandler::open` ends, and what the client hears of each.
use qemu_cvbd_shraed_memory.Common.{ℕ, ◌^◌, ◌≡◌, ◌≢◌, ◌<◌, refl, some, [], ◌∷◌, ◌++◌, length, arith}
use qemu_cvbd_shraed_memory.Common.Int.{ℤ, pos}
use qemu_cvbd_shraed_memory.Common.Outcome.{ok}
use qemu_cvbd_shraed_memory.Common.Store.{addresses, find, find-cons_self, free-cons_self}
use qemu_cvbd_shraed_memory.Iov.{Bytes}
use qemu_cvbd_shraed_memory.Message.{OpenRequest, Reply, open_reply, c_string}
use qemu_cvbd_shraed_memory.Host.{Env, ret, fail}
use qemu_cvbd_shraed_memory.Server.{
  VolumeState, Server, open_path, enoent, neg, sys, c_str, open_mq, new_volume, answer_open,
  open_volume, after_create, after_open, open_file,
}

-- Where the volume's name is a C string, its file does not exist, and creating it fails with an
-- error other than 0, the server sends nothing, so that the client that asked stays without an
-- answer, and makes no volume.
pub open_unanswered :
    (env : Env) (s : Server env) (req : OpenRequest) (name : Bytes) (d d' : env.host.Disk) (e : ℕ)
    → c_string req.volume_name ≡ some name
    → env.host.open_rdwr (open_path name) s.disk ≡ (fail enoent, d)
    → env.host.open_creat (open_path name) d ≡ (fail e, d')
    → e ≢ 0
    → (s' : Server env) × (open_file env req s ≡ ok tt s')
      × (s'.outgoing ≡ s.outgoing)
      × (s'.heap ≡ s.heap)
unfolding open_file c_str sys after_open after_create answer_open
open_unanswered env s req name d d' e cn o1 o2 ne =
    (record s { disk = d'; errno = e }, ground arith, refl, refl)

module _ (env : Env) (s : Server env) (req : OpenRequest) (name mq_name : Bytes) (fd mq : ℕ)
    (d d' : env.host.Disk) (named : c_string req.volume_name ≡ some name)
    (queue_named : c_string req.reply_mq_name ≡ some mq_name)
    (opened : env.host.open_rdwr (open_path name) s.disk ≡ (ret fd, d))
    (queue : env.replies.open_only mq_name s.outgoing ≡ some mq)
    (room : length (env.replies.messages mq s.outgoing) < env.replies.capacity mq s.outgoing) where
  abbrev pub vol : ℕ
  vol = env.host.alloc (addresses s.heap)

  abbrev pub answer : ℤ → Reply
  answer err =
      open_reply (record { header = record (req.header) { volume = vol }; volume = vol; err = err })

  abbrev pub volume : VolumeState
  volume = record { volume_name = name; volume_id = 0; fd = fd; reply_mq = mq }

  pub open_file-opened :
      (shm : env.replies.Shm)
      → env.host.ftruncate fd (2 ^ 34) d ≡ (ret tt, d')
      → env.replies.send mq (answer (pos 0)) s.outgoing ≡ some shm
      → open_file env req s
        ≡ ok tt (record s { disk = d'; heap = (vol, volume) ∷ s.heap; outgoing = shm })
  unfolding open_file c_str sys after_open open_volume open_mq new_volume answer_open
  open_file-opened shm t sent =
      ground (arith, find-cons_self vol volume s.heap, env.host.alloc_nonnull (addresses s.heap))

  -- Where the file opens, the names in the request are C strings, the client's queue exists and
  -- has room, and `ftruncate` succeeds: the one message sent tells the client success and the
  -- address of a new volume, which the server then has, with the file and the queue; the address
  -- is not null.
  open_succeeds :
      env.host.ftruncate fd (2 ^ 34) d ≡ (ret tt, d')
      → (s' : Server env) × (open_file env req s ≡ ok tt s')
        × (env.replies.messages mq s'.outgoing
            ≡ env.replies.messages mq s.outgoing ++ answer (pos 0) ∷ [])
        × (find vol s'.heap ≡ some volume)
        × (vol ≢ 0)
  open_succeeds t =
      let (shm, sent) = env.replies.send_room mq (answer (pos 0)) s.outgoing room in
      (
        record s { disk = d'; heap = (vol, volume) ∷ s.heap; outgoing = shm },
        open_file-opened shm t sent,
        (env.replies.send_messages mq (answer (pos 0)) s.outgoing shm sent).0,
        find-cons_self vol volume s.heap,
        env.host.alloc_nonnull (addresses s.heap),
      )

  -- Where the file opens, the names in the request are C strings, the client's queue exists and
  -- has room, and `ftruncate` fails with an error other than 0: the one message sent has the
  -- negative error, the descriptor is closed, and the server has the volumes that it had before.
  pub open_truncate_fails :
      (e : ℕ)
      → e ≢ 0
      → env.host.ftruncate fd (2 ^ 34) d ≡ (fail e, d')
      → (s' : Server env) × (open_file env req s ≡ ok tt s')
        × (env.replies.messages mq s'.outgoing
            ≡ env.replies.messages mq s.outgoing ++ answer (neg e) ∷ [])
        × (s'.disk ≡ env.host.close fd d')
        × (s'.heap ≡ s.heap)
  unfolding open_file c_str sys after_open open_volume open_mq new_volume answer_open
  open_truncate_fails e ne t =
      let (shm, sent) = env.replies.send_room mq (answer (neg e)) s.outgoing room in
      (
        record s { disk = env.host.close fd d'; errno = e; outgoing = shm },
        ground (
          arith,
          find-cons_self vol volume s.heap,
          free-cons_self vol volume s.heap,
          env.host.alloc_nonnull (addresses s.heap),
        ),
        (env.replies.send_messages mq (answer (neg e)) s.outgoing shm sent).0,
        refl,
        refl,
      )
