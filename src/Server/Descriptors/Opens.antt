-- ===== src/Server/Descriptors/Opens.antt =====
-- server.c: what `open` does to volumes and descriptors.
use qemu_cvbd_shraed_memory.Common.{
  ℕ, ◌++◌, ◌+◌, ◌^◌, ◌≡◌, ◌≢◌, refl, ap, ◌∙◌, ◌⊎◌, inl, inr, Bool, true, Bool-cases, subst, some,
  [], ◌∷◌, ◌==◌, arith, if◌then◌else◌,
}
use qemu_cvbd_shraed_memory.Common.Int.{ℤ, pos, ltb_ℤ}
use qemu_cvbd_shraed_memory.Common.Outcome.{ok, pure, branch, assert}
use qemu_cvbd_shraed_memory.Common.Outcome.Keeps.{
  Keeps, ok-bind, ok-then, Keeps->>, Keeps-branch, Keeps-pure, Keeps-assert,
}
use qemu_cvbd_shraed_memory.Common.Store.{Store, addresses, find, find-cons_self}
use qemu_cvbd_shraed_memory.Iov.{Bytes}
use qemu_cvbd_shraed_memory.Message.{OpenRequest, OpenReply, open_reply, Reply}
use qemu_cvbd_shraed_memory.Host.{Env, Sys, ret, fail}
use qemu_cvbd_shraed_memory.Server.{
  VolumeState, Server, sys, c_str, open_mq, new_volume, deref, send_on, send_reply, close_volume,
  answer_open, open_volume, after_create, after_open, open_file, open_path, enoent, neg,
}
use qemu_cvbd_shraed_memory.Server.Descriptors.{one, Descriptors, Still, Opened, Refused}
use qemu_cvbd_shraed_memory.Server.Descriptors.Quiet.{
  send_reply-Still, c_str-Still, open_mq-Still, sys-Still,
}
use qemu_cvbd_shraed_memory.Server.Descriptors.Closes.{sys-ran, close_null, freed}

module _ (env : Env) (descriptors : Descriptors env.host) where
  open descriptors use {uses}

  module _ (heap : Store VolumeState) (used : ℕ → ℕ) (mq : ℕ) (queue : env.requests.Shm) where
    abbrev Before : Server env → Type 0
    Before = Still env descriptors heap used mq queue

    abbrev Opens : Server env → Type 0
    Opens s =
        Refused env descriptors heap used mq queue s ⊎ Opened env descriptors heap used mq queue s

    answer_null : (req : OpenRequest) (result : ℤ) → Keeps Before (answer_open env req 0 result)
    unfolding answer_open
    answer_null req result = Keeps->> Before _ _ (Keeps-pure Before tt) (
        Keeps-branch Before (ltb_ℤ result (pos 0)) _ _
          (close_null env descriptors heap used mq queue) (Keeps-pure Before tt))

    send_reply-sent :
        (a : ℕ) (v : VolumeState) (m : Reply) (s t : Server env)
        → send_reply env a m s ≡ ok tt t
        → find a s.heap ≡ some v
        → env.replies.messages v.reply_mq t.outgoing
          ≡ env.replies.messages v.reply_mq s.outgoing ++ m ∷ []
    unfolding send_reply deref send_on
    send_reply-sent a v m s t e live =
        let sent : env.replies.send v.reply_mq m s.outgoing ≡ some t.outgoing =
          ground (arith, live) in
        (env.replies.send_messages v.reply_mq m s.outgoing t.outgoing sent).0

    close_volume-outgoing :
        (a : ℕ) (t s' : Server env) → close_volume env a t ≡ ok tt s' → s'.outgoing ≡ t.outgoing
    unfolding close_volume
    close_volume-outgoing a t s' e = ground arith

    answer-opened :
        (req : OpenRequest) (a : ℕ) (v : VolumeState) (result : ℤ) (s s' : Server env)
        → a ≢ 0
        → answer_open env req a result s ≡ ok tt s'
        → Still env descriptors ((a, v) ∷ heap) (λ x. one v.fd x + used x) mq queue s
        → Opens s'
    unfolding answer_open
    answer-opened req a v result s s' nonnull e still =
        let failed : Bool = ltb_ℤ result (pos 0) in
        let reply : OpenReply = record {
          header = record (req.header) { volume = a };
          volume = a;
          err = if failed then result else pos 0;
        } in
        let (t, answer, ended) =
          ok-then (branch (a == 0) (pure tt) (send_reply env a (open_reply reply)))
            (branch failed (close_volume env a) (pure tt)) s s' tt e in
        let sent : send_reply env a (open_reply reply) s ≡ ok tt t =
          ground (arith, nonnull, answer) in
        let still' : Still env descriptors ((a, v) ∷ heap) (λ x. one v.fd x + used x) mq queue t =
          send_reply-Still env descriptors ((a, v) ∷ heap) (λ x. one v.fd x + used x) mq queue a _ s
            t tt sent still in
        let listed =
          send_reply-sent a v (open_reply reply) s t sent
            (ap (find a) still.0 ∙ find-cons_self a v heap) in
        elim (Bool-cases failed) [
          | inl fails ↦
              let closed : close_volume env a t ≡ ok tt s' = ground (arith, fails, ended) in
              let negative : ltb_ℤ reply.err (pos 0) ≡ true = ground (arith, fails) in
              inl (
                freed env descriptors heap used mq queue a v t s' nonnull closed still',
                inl (
                  v.reply_mq,
                  reply,
                  _,
                  ap (env.replies.messages v.reply_mq) (close_volume-outgoing a t s' closed)
                      ∙ listed,
                  negative,
                ),
              )
          | inr returned ↦
              let same : t ≡ s' = ground (arith, returned, ended) in
              let zero_err : reply.err ≡ pos 0 = ground (arith, returned) in
              inr (
                subst (Opened env descriptors heap used mq queue) same
                  (a, v, reply, _, nonnull, still', listed, refl, zero_err))
        ]

    -- From `new VolumeState` on, when the file is open already.
    open_volume-Opens :
        (req : OpenRequest) (name : Bytes) (fd : ℕ) (s s' : Server env)
        → open_volume env req name fd s ≡ ok tt s'
        → Still env descriptors heap (λ x. one fd x + used x) mq queue s
        → Opens s'
    unfolding open_volume new_volume
    open_volume-Opens req name fd s s' e still =
        let more : ℕ → ℕ = λ x. one fd x + used x in
        let (mq_name, s1, named, rest) = ok-bind (c_str env req.reply_mq_name) _ s s' tt e in
        let still1 = c_str-Still env descriptors heap more mq queue _ s s1 mq_name named still in
        let (h, s2, has_queue, rest2) = ok-bind (open_mq env mq_name) _ s1 s' tt rest in
        let still2 = open_mq-Still env descriptors heap more mq queue _ s1 s2 h has_queue still1 in
        let a : ℕ = env.host.alloc (addresses s2.heap) in
        let v : VolumeState = record { volume_name = name; volume_id = 0; fd = fd; reply_mq = h } in
        let s3 : Server env = record s2 { heap = (a, v) ∷ s2.heap } in
        let (result, s4, truncated, rest4) =
          ok-bind (sys env (env.host.ftruncate fd (2 ^ 34)))
            (λ truncated.
              answer_open env req a (elim truncated [ ret _ ↦ pos fd | fail e ↦ neg e ]))
            s3 s' tt rest2 in
        let still3 : Still env descriptors ((a, v) ∷ heap) more mq queue s3 =
          (ap (λ h. (a, v) ∷ h) still2.0, still2.1, still2.2, still2.3) in
        let still4 =
          sys-Still env descriptors ((a, v) ∷ heap) more mq queue _
            (descriptors.ftruncate_keeps fd (2 ^ 34)) s3 s4 result truncated still3 in
        answer-opened req a v _ s4 s' (env.host.alloc_nonnull (addresses s2.heap)) rest4 still4

    -- A descriptor more.
    one_more :
        (fd : ℕ) (s s' : Server env)
        → ((x : ℕ) → uses s'.disk x ≡ one fd x + uses s.disk x)
        → (s'.heap ≡ heap) × (s'.request_mq ≡ mq) × (s'.incoming ≡ queue)
        → Before s
        → Still env descriptors heap (λ x. one fd x + used x) mq queue s'
    one_more fd s s' more rest still =
        (rest.0, λ x. more x ∙ ap (λ n. one fd x + n) (still.1 x), rest.1, rest.2)

    none_more :
        (s s' : Server env)
        → ((x : ℕ) → uses s'.disk x ≡ uses s.disk x)
        → (s'.heap ≡ heap) × (s'.request_mq ≡ mq) × (s'.incoming ≡ queue)
        → Before s
        → Before s'
    none_more s s' more rest still = (rest.0, λ x. more x ∙ still.1 x, rest.1, rest.2)

    after_create-Opens :
        (req : OpenRequest) (name : Bytes) (r : Sys ℕ) (s s1 s' : Server env)
        → sys env (env.host.open_creat (open_path name)) s ≡ ok r s1
        → after_create env req name r s1 ≡ ok tt s'
        → Before s
        → Opens s'
    unfolding after_create
    after_create-Opens req name (ret fd) s s1 s' created e still =
        let (call, kept) =
          sys-ran env descriptors heap used mq queue _ s s1 (ret fd) created still in
        open_volume-Opens req name fd s1 s' e (
          one_more fd s s1 (descriptors.open_creat_ret (open_path name) fd s.disk s1.disk call) kept
            still)
    after_create-Opens req name (fail n) s s1 s' created e still =
        let (call, kept) =
          sys-ran env descriptors heap used mq queue _ s s1 (fail n) created still in
        inl (
          answer_null req (neg n) s1 s' tt e (
              none_more s s1 (descriptors.open_creat_fail (open_path name) n s.disk s1.disk call)
                kept still),
          inr (name, n, s.disk, s1.disk, call),
        )

    after_open-Opens :
        (req : OpenRequest) (name : Bytes) (r : Sys ℕ) (s s1 s' : Server env)
        → sys env (env.host.open_rdwr (open_path name)) s ≡ ok r s1
        → after_open env req name r s1 ≡ ok tt s'
        → Before s
        → Opens s'
    unfolding after_open
    after_open-Opens req name (ret fd) s s1 s' opened e still =
        let (call, kept) =
          sys-ran env descriptors heap used mq queue _ s s1 (ret fd) opened still in
        open_volume-Opens req name fd s1 s' e (
          one_more fd s s1 (descriptors.open_rdwr_ret (open_path name) fd s.disk s1.disk call) kept
            still)
    after_open-Opens req name (fail n) s s1 s' opened e still =
        let (call, kept) =
          sys-ran env descriptors heap used mq queue _ s s1 (fail n) opened still in
        let still1 =
          none_more s s1 (descriptors.open_rdwr_fail (open_path name) n s.disk s1.disk call) kept
            still in
        let (s2, known, rest) = ok-then (assert (n == enoent)) _ s1 s' tt e in
        let still2 = Keeps-assert Before (n == enoent) s1 s2 tt known still1 in
        let (r, s3, created, ended) =
          ok-bind (sys env (env.host.open_creat (open_path name))) _ s2 s' tt rest in
        after_create-Opens req name r s2 s3 s' created ended still2

    pub open_file-Opens :
        (req : OpenRequest) (s s' : Server env)
        → open_file env req s ≡ ok tt s'
        → Before s
        → Opens s'
    unfolding open_file
    open_file-Opens req s s' e still =
        let (name, s1, named, rest) = ok-bind (c_str env req.volume_name) _ s s' tt e in
        let still1 = c_str-Still env descriptors heap used mq queue _ s s1 name named still in
        let (r, s2, opened, ended) =
          ok-bind (sys env (env.host.open_rdwr (open_path name))) _ s1 s' tt rest in
        after_open-Opens req name r s1 s2 s' opened ended still1
