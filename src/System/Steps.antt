-- ===== src/System/Steps.antt =====
-- Single steps of the client, of the server and of its request loop.
use qemu_cvbd_shraed_memory.Common.{◌≡◌, refl, Bool, true, false, some, List, [], ◌∷◌, arith}
use qemu_cvbd_shraed_memory.Common.Outcome.{Outcome, ok, thrown, stopped, blocked, M, Stop}
use qemu_cvbd_shraed_memory.Message.{Request, header_of}
use qemu_cvbd_shraed_memory.Host.{Env}
use qemu_cvbd_shraed_memory.Server.{Server, dispatch, round, handle_requests}
use qemu_cvbd_shraed_memory.AsyncClient.{Client}
use qemu_cvbd_shraed_memory.System.{System, client_view, after_client, on_client, on_server}

pub on_client-ok :
    {A : Type 0} (env : Env) (m : M (Client env) A) (s : System env) (a : A) (c : Client env)
    → m (client_view env s) ≡ ok a c
    → on_client env m s ≡ ok a (after_client env s c)
unfolding on_client
on_client-ok env m s a c e = rw (e, on_client) refl

pub on_client-stopped :
    {A : Type 0} (env : Env) (m : M (Client env) A) (s : System env) (e : Stop)
    → m (client_view env s) ≡ stopped e
    → on_client env m s ≡ stopped e
unfolding on_client
on_client-stopped env m s e h = rw (h, on_client) refl

pub on_server-ok :
    {A : Type 0} (env : Env) (m : M (Server env) A) (s : System env) (a : A) (t : Server env)
    → m s.server ≡ ok a t
    → on_server env m s ≡ ok a (record s { server = t })
unfolding on_server
on_server-ok env m s a t e = rw (e, on_server) refl

-- One request served.
pub serve_one :
    (env : Env) (s t : Server env) (m : Request) (shm : env.requests.Shm)
    → env.requests.receive s.request_mq s.incoming ≡ some (m, shm)
    → (header_of m).stop ≡ false
    → dispatch env m (record s { incoming = shm }) ≡ ok tt t
    → handle_requests env 1 s ≡ ok true t
unfolding handle_requests round
serve_one env s t m shm r n d = ground arith

pub on_client-returns :
    {A : Type 0} (env : Env) (m : M (Client env) A) (s t : System env) (a : A)
    → on_client env m s ≡ ok a t
    → (c : Client env) × (m (client_view env s) ≡ ok a c) × (t ≡ after_client env s c)
unfolding on_client
on_client-returns {A} env m s t a = go (m (client_view env s)) refl
  where
    go :
        (o : Outcome (Client env) A)
        → m (client_view env s) ≡ o
        → on_client env m s ≡ ok a t
        → (c : Client env) × (m (client_view env s) ≡ ok a c) × (t ≡ after_client env s c)
    go (ok b c) p e = (c, ground arith, ground arith)
    go (thrown c) p e = absurd (ground arith)
    go (stopped x) p e = absurd (ground arith)

pub on_server-returns :
    {A : Type 0} (env : Env) (m : M (Server env) A) (s t : System env) (a : A)
    → on_server env m s ≡ ok a t
    → (u : Server env) × (m s.server ≡ ok a u) × (t ≡ record s { server = u })
unfolding on_server
on_server-returns {A} env m s t a = go (m s.server) refl
  where
    go :
        (o : Outcome (Server env) A)
        → m s.server ≡ o
        → on_server env m s ≡ ok a t
        → (u : Server env) × (m s.server ≡ ok a u) × (t ≡ record s { server = u })
    go (ok b c) p e = (c, ground arith, ground arith)
    go (thrown c) p e = absurd (ground arith)
    go (stopped x) p e = absurd (ground arith)

-- A round on an empty queue blocks; one on a queue that begins with another message than a stop
-- handles this message.
pub serve_empty :
    (env : Env) (s : Server env)
    → env.requests.messages s.request_mq s.incoming ≡ []
    → handle_requests env 1 s ≡ stopped blocked
unfolding handle_requests round
serve_empty env s none_left = ground (arith, env.requests.receive_empty s.request_mq s.incoming)

pub serve-returns :
    (env : Env) (s t : Server env) (m : Request) (ms : List Request) (go : Bool)
    → env.requests.messages s.request_mq s.incoming ≡ m ∷ ms
    → (header_of m).stop ≡ false
    → handle_requests env 1 s ≡ ok go t
    → (shm : env.requests.Shm) × (env.requests.messages s.request_mq shm ≡ ms)
      × (dispatch env m (record s { incoming = shm }) ≡ ok tt t)
unfolding handle_requests round
serve-returns env s t m ms go here goes e =
    let (shm, taken, left, kept) = env.requests.receive_first s.request_mq m ms s.incoming here in
    (shm, left, ground arith)
