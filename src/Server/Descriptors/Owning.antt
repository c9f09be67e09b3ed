-- ===== src/Server/Descriptors/Owning.antt =====
-- server.c: each descriptor that a request opens or closes is that of a volume.
use qemu_cvbd_shraed_memory.Common.{ℕ, zero, suc, ◌+◌, ◌≡◌, ◌∙◌, inl, inr, some, [], ◌∷◌, arith}
use qemu_cvbd_shraed_memory.Common.Store.{Store, find, free}
use qemu_cvbd_shraed_memory.Message.{
  req_unknow, req_write, req_read, req_getsize, req_fsync, req_open, req_close, RequestType,
}
use qemu_cvbd_shraed_memory.Host.{Env}
use qemu_cvbd_shraed_memory.Server.{VolumeState, Server}
use qemu_cvbd_shraed_memory.Server.Descriptors.{
  one, Descriptors, Still, Opened, Closed, Moves, held, Owns,
}

held-free :
    (a x : ℕ) (v : VolumeState) (h : Store VolumeState)
    → find a h ≡ some v
    → held h x ≡ one v.fd x + held (free a h) x
unfolding find free
held-free a x v [] e = absurd (cc)
held-free a x v ((b, w) ∷ h) e = ground (arith, held-free a x v h)

module _ (env : Env) (descriptors : Descriptors env.host) where
  open descriptors use {uses}

  -- The queues, and who owns which descriptor, after a request that may do this.
  Still-Owns :
      (others : ℕ → ℕ) (s t : Server env)
      → Still env descriptors s.heap (uses s.disk) s.request_mq s.incoming t
      → Owns env descriptors others s
      → (t.request_mq ≡ s.request_mq) × (t.incoming ≡ s.incoming) × Owns env descriptors others t
  Still-Owns others s t still owns = (still.2, still.3, λ x. rw still.0 (still.1 x ∙ owns x))

  Opened-Owns :
      (others : ℕ → ℕ) (s t : Server env)
      → Opened env descriptors s.heap (uses s.disk) s.request_mq s.incoming t
      → Owns env descriptors others s
      → (t.request_mq ≡ s.request_mq) × (t.incoming ≡ s.incoming) × Owns env descriptors others t
  Opened-Owns others s t (a, v, reply, before, nonnull, still, listed, named, zero_err) owns =
      (still.2, still.3, λ x. rw still.0 (omega (arith, still.1 x, owns x)))

  Closed-Owns :
      (others : ℕ → ℕ) (s t : Server env) (a : ℕ)
      → Closed env descriptors s.heap (uses s.disk) s.request_mq s.incoming a t
      → Owns env descriptors others s
      → (t.request_mq ≡ s.request_mq) × (t.incoming ≡ s.incoming) × Owns env descriptors others t
  Closed-Owns others s t a (v, live, still) owns = (
    still.2,
    still.3,
    λ x. rw still.0 (omega (arith, still.1 x, owns x, held-free a x v s.heap live)),
  )

  pub Moves-Owns :
      (others : ℕ → ℕ) (k : RequestType) (a : ℕ) (s t : Server env)
      → Moves env descriptors k a s t
      → Owns env descriptors others s
      → (t.request_mq ≡ s.request_mq) × (t.incoming ≡ s.incoming) × Owns env descriptors others t
  Moves-Owns others req_open a s t (inl refused) owns = Still-Owns others s t refused.0 owns
  Moves-Owns others req_open a s t (inr opened) owns = Opened-Owns others s t opened owns
  Moves-Owns others req_close zero s t still owns = Still-Owns others s t still owns
  Moves-Owns others req_close (suc a) s t closed owns = Closed-Owns others s t (suc a) closed owns
  Moves-Owns others req_unknow a s t still owns = Still-Owns others s t still owns
  Moves-Owns others req_read a s t still owns = Still-Owns others s t still owns
  Moves-Owns others req_write a s t still owns = Still-Owns others s t still owns
  Moves-Owns others req_getsize a s t still owns = Still-Owns others s t still owns
  Moves-Owns others req_fsync a s t still owns = Still-Owns others s t still owns
