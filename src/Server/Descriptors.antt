-- ===== src/Server/Descriptors.antt =====
-- server.c: the descriptors that the server has open, and its volumes.
pub mod Quiet
pub mod Closes
pub mod Opens
pub mod Owning
pub mod Runs
mod Tests
use qemu_cvbd_shraed_memory.Common.{
  ℕ, zero, suc, ◌++◌, ◌+◌, ◌-◌, ◌^◌, ◌≡◌, ◌≢◌, refl, sym, ap, ◌∙◌, ◌⊎◌, inl, inr, Bool, true, false,
  Bool-cases, Option-cases, subst, Option, none, some, List, [], ◌∷◌, ◌==◌, ltb, arith,
  if◌then◌else◌,
}
use qemu_cvbd_shraed_memory.Common.Int.{ℤ, pos, ltb_ℤ}
use qemu_cvbd_shraed_memory.Common.Outcome.{Outcome, ok, thrown, stopped, M, pure, branch}
use qemu_cvbd_shraed_memory.Common.Outcome.Keeps.{
  Keeps, ok-bind, ok-then, ok-state, Keeps->>=, Keeps->>, Keeps-branch, Keeps-pure, Keeps-assert,
}
use qemu_cvbd_shraed_memory.Common.Store.{Store, addresses, find, free, free-cons_self}
use qemu_cvbd_shraed_memory.Iov.{Bytes}
use qemu_cvbd_shraed_memory.Message.{
  Header, WriteRequest, ReadRequest, OpenRequest, OpenReply, open_reply, Request, header_of,
  req_open, req_close, RequestType, Reply,
}
use qemu_cvbd_shraed_memory.Host.{Env, Host, Sys, ret, fail}
use qemu_cvbd_shraed_memory.Server.{
  VolumeState, Server, sys, c_str, open_mq, new_volume, deref, in_array, send_on, send_reply,
  close_volume, close, answer_open, open_volume, after_create, after_open, open_file, open_path,
  enoent, neg, getsize, fsync, write, read,
}

abbrev pub one : ℕ → ℕ → ℕ
one fd x = if fd == x then 1 else 0

-- How many volumes hold a descriptor.
abbrev pub held : Store VolumeState → ℕ → ℕ
held [] x = 0
held ((a, v) ∷ h) x = one v.fd x + held h x

-- How often a number is open as a descriptor of the server's process, and what the calls do to it.
pub record Descriptors (host : Host) : Type 1 where
  pub uses : host.Disk → ℕ → ℕ
  pub open_rdwr_ret :
      (name : Bytes) (fd : ℕ) (d d' : host.Disk)
      → host.open_rdwr name d ≡ (ret fd, d')
      → (x : ℕ) → uses d' x ≡ one fd x + uses d x
  pub open_rdwr_fail :
      (name : Bytes) (e : ℕ) (d d' : host.Disk)
      → host.open_rdwr name d ≡ (fail e, d')
      → (x : ℕ) → uses d' x ≡ uses d x
  pub open_creat_ret :
      (name : Bytes) (fd : ℕ) (d d' : host.Disk)
      → host.open_creat name d ≡ (ret fd, d')
      → (x : ℕ) → uses d' x ≡ one fd x + uses d x
  pub open_creat_fail :
      (name : Bytes) (e : ℕ) (d d' : host.Disk)
      → host.open_creat name d ≡ (fail e, d')
      → (x : ℕ) → uses d' x ≡ uses d x
  pub close_uses : (fd : ℕ) (d : host.Disk) (x : ℕ) → uses (host.close fd d) x ≡ uses d x - one fd x
  pub ftruncate_keeps :
      (fd n : ℕ) (d : host.Disk) (x : ℕ) → uses (host.ftruncate fd n d).1 x ≡ uses d x
  pub fstat_size_keeps :
      (fd : ℕ) (d : host.Disk) (x : ℕ) → uses (host.fstat_size fd d).1 x ≡ uses d x
  pub fsync_keeps : (fd : ℕ) (d : host.Disk) (x : ℕ) → uses (host.fsync fd d).1 x ≡ uses d x
  pub pwrite_keeps :
      (fd : ℕ) (bytes : Bytes) (o : ℤ) (d : host.Disk) (x : ℕ)
      → uses (host.pwrite fd bytes o d).1 x ≡ uses d x
  pub pread_keeps :
      (fd n : ℕ) (o : ℤ) (d : host.Disk) (x : ℕ) → uses (host.pread fd n o d).1 x ≡ uses d x

module _ (env : Env) (descriptors : Descriptors env.host) where
  open descriptors use {uses}

  -- The volumes, the descriptors and the request queue, as they are.
  abbrev pub Still : Store VolumeState → (ℕ → ℕ) → ℕ → env.requests.Shm → Server env → Type 0
  Still heap used mq queue s =
      (s.heap ≡ heap)
      × ((x : ℕ) → uses s.disk x ≡ used x)
      × (s.request_mq ≡ mq)
      × (s.incoming ≡ queue)

  -- After an `open` that fails: all is as it was, and the last answer in a queue of replies has a
  -- negative error, or no file could be created.
  abbrev pub Refused : Store VolumeState → (ℕ → ℕ) → ℕ → env.requests.Shm → Server env → Type 0
  Refused heap used mq queue s =
      Still heap used mq queue s
      × (((h : ℕ) × (reply : OpenReply) × (earlier : List Reply) × (env.replies.messages h
                s.outgoing
              ≡ earlier ++ open_reply reply ∷ [])
            × (ltb_ℤ reply.err (pos 0) ≡ true))
          ⊎ ((name : Bytes) × (e : ℕ) × (d : env.host.Disk) × (d' : env.host.Disk)
              × (env.host.open_creat (open_path name) d ≡ (fail e, d'))))

  -- After an `open` that is answered with error 0: one volume more, which holds the one descriptor
  -- more, and the answer behind the replies that its client has not taken yet.
  abbrev pub Opened : Store VolumeState → (ℕ → ℕ) → ℕ → env.requests.Shm → Server env → Type 0
  Opened heap used mq queue s =
      (a : ℕ) × (v : VolumeState) × (reply : OpenReply) × (before : List Reply) × (a ≢ 0)
      × Still ((a, v) ∷ heap) (λ x. one v.fd x + used x) mq queue s
      × (env.replies.messages v.reply_mq s.outgoing ≡ before ++ open_reply reply ∷ [])
      × (reply.volume ≡ a)
      × (reply.err ≡ pos 0)

  -- After a `close` of a volume: it is gone, and its descriptor is closed once.
  abbrev pub Closed : Store VolumeState → (ℕ → ℕ) → ℕ → env.requests.Shm → ℕ → Server env → Type 0
  Closed heap used mq queue a s =
      (v : VolumeState) × (find a heap ≡ some v)
      × Still (free a heap) (λ x. used x - one v.fd x) mq queue s

  -- What a request of a type, with a volume, may do to the volumes and to the descriptors.
  abbrev pub Moves : RequestType → ℕ → Server env → Server env → Type 0
  Moves req_open a s t =
      Refused s.heap (uses s.disk) s.request_mq s.incoming t
      ⊎ Opened s.heap (uses s.disk) s.request_mq s.incoming t
  Moves req_close zero s t = Still s.heap (uses s.disk) s.request_mq s.incoming t
  Moves req_close (suc a) s t = Closed s.heap (uses s.disk) s.request_mq s.incoming (suc a) t
  Moves _ a s t = Still s.heap (uses s.disk) s.request_mq s.incoming t

  -- Requests one after the other, each of them first taken from the queue. None stops the server.
  abbrev pub Follows : List Request → Server env → Server env → Type 0
  Follows [] s t = s ≡ t
  Follows (m ∷ ms) s t =
      (shm : env.requests.Shm) × (u : Server env) × (env.requests.receive s.request_mq s.incoming
        ≡ some (m, shm))
      × ((header_of m).stop ≡ false)
      × Moves (header_of m).type (header_of m).volume (record s { incoming = shm }) u
      × Follows ms u t

  -- The server has no descriptor open but those of its volumes, once for each, and some others.
  abbrev pub Owns : (ℕ → ℕ) → Server env → Type 0
  Owns others s = (x : ℕ) → uses s.disk x ≡ others x + held s.heap x
