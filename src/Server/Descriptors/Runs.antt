-- ===== src/Server/Descriptors/Runs.antt =====
-- SharedMemServer.h: volumes and descriptors while the loop of `handle_requests` runs.
use qemu_cvbd_shraed_memory.Common.{
  ℕ, zero, suc, length, ◌++◌, ◌≡◌, refl, sym, ap, ap₂, ◌∙◌, inl, inr, true, false, Bool-cases,
  Option-cases, subst, some, List, [], ◌∷◌, arith,
}
use qemu_cvbd_shraed_memory.Common.Outcome.{ok, pure, terminate}
use qemu_cvbd_shraed_memory.Common.Outcome.Keeps.{ok-bind, ok-then}
use qemu_cvbd_shraed_memory.Message.{
  req_unknow, Header, Request, req_write, req_read, req_getsize, req_fsync, header_of, req_open,
  req_close, RequestType,
}
use qemu_cvbd_shraed_memory.Host.{Env}
use qemu_cvbd_shraed_memory.Server.{Server, close_volume, close, dispatch, round, handle_requests}
use qemu_cvbd_shraed_memory.Server.Descriptors.{Descriptors, Still, Moves, Follows, Owns}
use qemu_cvbd_shraed_memory.Server.Descriptors.Quiet.{
  write-Still, read-Still, getsize-Still, fsync-Still,
}
use qemu_cvbd_shraed_memory.Server.Descriptors.Owning.{Moves-Owns}
use qemu_cvbd_shraed_memory.Server.Descriptors.Opens.{open_file-Opens}
use qemu_cvbd_shraed_memory.Server.Descriptors.Closes.{close_null, close-Closed}

module _ (env : Env) (descriptors : Descriptors env.host) where
  open descriptors use {uses}

  here : (s : Server env) → Still env descriptors s.heap (uses s.disk) s.request_mq s.incoming s
  here s = (refl, λ x. refl, refl, refl)

  close-Moves :
      (h : Header) (s s' : Server env)
      → close env h s ≡ ok tt s'
      → Moves env descriptors req_close h.volume s s'
  unfolding close
  close-Moves h s s' e = go h.volume e
    where
      go : (a : ℕ) → close_volume env a s ≡ ok tt s' → Moves env descriptors req_close a s s'
      go zero e =
          close_null env descriptors s.heap (uses s.disk) s.request_mq s.incoming s s' tt e (here s)
      go (suc a) e =
          close-Closed env descriptors s.heap (uses s.disk) s.request_mq s.incoming (suc a) s s'
            (omega arith) e (here s)

  dispatch-Moves :
      (m : Request) (s s' : Server env)
      → dispatch env m s ≡ ok tt s'
      → Moves env descriptors (header_of m).type (header_of m).volume s s'
  unfolding dispatch
  dispatch-Moves m s s' e = go ((header_of m).type) refl
    where
      go :
          (k : RequestType)
          → (header_of m).type ≡ k
          → Moves env descriptors k (header_of m).volume s s'
      go req_write k =
          write-Still env descriptors s.heap (uses s.disk) s.request_mq s.incoming
            (env.layout.as_write m) s s' tt (ground arith) (here s)
      go req_read k =
          read-Still env descriptors s.heap (uses s.disk) s.request_mq s.incoming
            (env.layout.as_read m) s s' tt (ground arith) (here s)
      go req_open k =
          open_file-Opens env descriptors s.heap (uses s.disk) s.request_mq s.incoming
            (env.layout.as_open m) s s' (ground arith) (here s)
      go req_close k = close-Moves (header_of m) s s' (ground arith)
      go req_getsize k =
          getsize-Still env descriptors s.heap (uses s.disk) s.request_mq s.incoming (header_of m) s
            s' tt (ground arith) (here s)
      go req_fsync k =
          fsync-Still env descriptors s.heap (uses s.disk) s.request_mq s.incoming (header_of m) s
            s' tt (ground arith) (here s)
      go req_unknow k =
          let same : s ≡ s' = ground arith in
          subst (Still env descriptors s.heap (uses s.disk) s.request_mq s.incoming) same (here s)

  -- A round that does not end the loop.
  round-Moves :
      (s s' : Server env)
      → round env s ≡ ok true s'
      → (m : Request) × (shm : env.requests.Shm) × (env.requests.receive s.request_mq s.incoming
          ≡ some (m, shm))
        × ((header_of m).stop ≡ false)
        × Moves env descriptors
            (header_of m).type
            (header_of m).volume
            (record s { incoming = shm })
            s'
  unfolding round
  round-Moves s s' e = elim (Option-cases (env.requests.receive s.request_mq s.incoming)) [
    | inl waits ↦ absurd (ground arith)
    | inr ((m, shm), taken) ↦ elim (Bool-cases ((header_of m).stop)) [
      | inl ends ↦ absurd (ground arith)
      | inr goes_on ↦
          let served : Server env = record s { incoming = shm } in
          let (t, run, ended) =
            ok-then (dispatch env m) (pure true) served s' true (ground (arith, taken, goes_on)) in
          let same : t ≡ s' = ground arith in
          (
            m,
            shm,
            taken,
            goes_on,
            subst (Moves env descriptors (header_of m).type (header_of m).volume served) same
                (dispatch-Moves m served t run),
          )
    ]
  ]

  messages-taken :
      (q : ℕ) (s shm : env.requests.Shm) (m : Request)
      → env.requests.receive q s ≡ some (m, shm)
      → env.requests.messages q s ≡ m ∷ env.requests.messages q shm
  messages-taken q s shm m taken = go (env.requests.messages q s) refl
    where
      go :
          (ms : List Request)
          → env.requests.messages q s ≡ ms
          → ms ≡ m ∷ env.requests.messages q shm
      go [] none_there = let waits = env.requests.receive_empty q s none_there in absurd (cc)
      go (r ∷ rs) there =
          let (shm', taken', left, kept) = env.requests.receive_first q r rs s there in
          let first : r ≡ m = cc in
          let same : shm' ≡ shm = cc in
          ap₂ (λ x xs. x ∷ xs) first (sym left ∙ ap (env.requests.messages q) same)

  one_before :
      (s t s' : Server env) (m : Request) (shm : env.requests.Shm) (ms : List Request)
      → env.requests.receive s.request_mq s.incoming ≡ some (m, shm)
      → t.request_mq ≡ s.request_mq
      → t.incoming ≡ shm
      → env.requests.messages t.request_mq t.incoming
        ≡ ms ++ env.requests.messages s'.request_mq s'.incoming
      → env.requests.messages s.request_mq s.incoming
        ≡ m ∷ ms ++ env.requests.messages s'.request_mq s'.incoming
  one_before s t s' m shm ms taken one_queue kept queue =
      let left : env.requests.messages s.request_mq shm
          ≡ env.requests.messages t.request_mq t.incoming =
        rw (one_queue, kept) refl in
      messages-taken s.request_mq s.incoming shm m taken ∙ rw (left, queue) refl

  -- The system calls open and close descriptors as `Descriptors` says: a successful open makes one
  -- more, close one less, and nothing else changes them. For a server whose open descriptors are,
  -- counted once for each, those of its volumes and some others:
  -- where the loop of the request thread goes on after a number of rounds, it has taken that many
  -- requests from the front of its queue, none of them a stop message, and left those behind them.
  -- Each request in turn has done one of these. A request to open has left the volumes and the open
  -- descriptors as they were, with a negative error as the last answer in some reply queue or after
  -- the failure to create a file; or it has opened one descriptor, made one volume that holds it, at an
  -- address that is not null, and answered with this address and error 0. A request to close a volume
  -- that is not null has found it, freed it, and closed its descriptor once. All others, and a close
  -- of volume 0, have left the volumes and the open descriptors as they were. So the open descriptors
  -- are again those of the volumes and the same others: none is leaked, and none closed twice.
  pub handle_requests-Owns :
      (others : ℕ → ℕ) (n : ℕ) (s s' : Server env)
      → handle_requests env n s ≡ ok true s'
      → Owns env descriptors others s
      → (ms : List Request) × (length ms ≡ n)
        × (env.requests.messages s.request_mq s.incoming
            ≡ ms ++ env.requests.messages s'.request_mq s'.incoming)
        × Follows env descriptors ms s s'
        × Owns env descriptors others s'
  unfolding handle_requests
  handle_requests-Owns others zero s s' e owns =
      let same : s ≡ s' = ground arith in
      (
        [],
        refl,
        ap (λ t. env.requests.messages t.request_mq t.incoming) same,
        same,
        subst (Owns env descriptors others) same owns,
      )
  handle_requests-Owns others (suc n) s s' e owns =
      let (go, t, first, rest) = ok-bind (terminate (round env)) _ s s' true e in
      elim (Bool-cases go) [
        | inr ends ↦ absurd (ground arith)
        | inl goes_on ↦
            let (m, shm, taken, not_stop, moves) =
              round-Moves s t (ground (arith, first, goes_on)) in
            let (one_queue, kept, owns') =
              Moves-Owns env descriptors others (header_of m).type (header_of m).volume
                (record s { incoming = shm }) t moves owns in
            let (ms, count, queue, follows, owns'') =
              handle_requests-Owns others n t s' (ground (arith, rest, goes_on)) owns' in
            (
              m ∷ ms,
              omega (arith, count),
              one_before s t s' m shm ms taken one_queue kept queue,
              (shm, t, taken, not_stop, moves, follows),
              owns'',
            )
      ]
