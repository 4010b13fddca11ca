-- ===== src/Server/App/Untouched.antt =====
-- What the handlers of the server leave alone: the socket's record, and any view of the world that
-- the calls they make do not change.
use Prim.Native.String.{String}
use embedded_client_server_v.Prelude.{
  ℕ, zero, suc, ◌+◌, ◌≡◌, refl, ◌∙◌, inl, inr, Bool, true, false, List, ℤ, Option, some, none,
  arith, Bool-cases, ltb, is_nonpos, to_nat, drop, length, M, pure, call, ◌>>=◌, [], ◌∷◌, ◌%◌, ◌==◌,
  if◌then◌else◌, Ensures, Ensures-pure, Ensures-none, Ensures-bind, Ensures-mono,
}
use embedded_client_server_v.Protocol.Bytes.{net_bytes, u32_mod}
use embedded_client_server_v.Posix.{Posix}
use embedded_client_server_v.Server.Hardware.{Hardware}
use embedded_client_server_v.Server.Socket.{TcpServer, send_rest, send_all, send_response}
use embedded_client_server_v.Server.Light.{
  LightMonitor, SceneState, normal, no_light, sensor_error, update, track, adopt, classify,
}
use embedded_client_server_v.Server.Camera.{Capture, capture_jpeg}
use embedded_client_server_v.Server.App.{
  ServerApp, on_world, send_header, send_jpeg, send_frame, send_image, send_state, answer_state,
  answer_capture, handle_get_frame, handle_stop, dispatch_command, SessionOutcome, gone,
  stop_requested,
}

module _ (os : Posix) (hw : Hardware os) (fd : ℤ) {X : Type 0} (view : os.World → X) where
  open os use {World}

  -- Something of the world that the calls of the handlers leave alone.
  pub record Untouched : Type 0 where
    pub by_now : (w : World) → view (os.now w).1 ≡ view w
    pub by_send : (data' : List ℕ) (w : World) → view (os.send fd data' w).1 ≡ view w
    pub by_read : (w : World) → view (hw.read w).1 ≡ view w
    pub by_read_number : (path : String) (w : World) → view (hw.read_number path w).1 ≡ view w

module _ (os : Posix) (hw : Hardware os) (fd : ℤ) {X : Type 0} (view : os.World → X)
    (same : Untouched os hw fd view) where
  open os use {World}

  send_rest_same :
      (fuel : ℕ) (data' : List ℕ) (sent : ℕ) (w : World)
      → Ensures (send_rest os fuel fd data' sent w) (λ _ w'. view w' ≡ view w)
  unfolding send_rest
  send_rest_same zero data' sent w = Ensures-none _
  send_rest_same (suc fuel) data' sent w =
      let (n, w') = os.send fd (drop sent data') w in
      let kept = same.by_send (drop sent data') w in
      elim (Bool-cases (ltb sent (length data'))) [
        | inr over ↦ rw (over, send_rest) (Ensures-pure (λ _ w'. view w' ≡ view w) true w refl)
        | inl more ↦ elim (Bool-cases (is_nonpos n)) [
          | inl failed ↦
              rw (more, failed, send_rest) (Ensures-pure (λ _ w'. view w' ≡ view w) false w' kept)
          | inr sent' ↦
              rw (more, sent', send_rest)
                (Ensures-mono (λ _ u. view u ≡ view w') (λ _ u. view u ≡ view w) (λ _ u e. e ∙ kept)
                  (send_rest_same fuel data' (sent + to_nat n) w'))
        ]
      ]

module _ (os : Posix) (hw : Hardware os) {X : Type 0} (view : os.World → X) (server : TcpServer)
    (value : X) where
  -- The app has this server, and the view this value.
  abbrev pub Holds : ServerApp os hw → Type 0
  Holds a = (a.server ≡ server) × (view a.world ≡ value)

  -- A run that returns ends in such a state.
  abbrev pub Keeps : {A : Type 0} → Option (A × ServerApp os hw) → Type 0
  Keeps r = Ensures r (λ _ b. Holds b)

module _ (os : Posix) (hw : Hardware os) {X : Type 0} (view : os.World → X) (server : TcpServer)
    (same : Untouched os hw server.client_fd view) (value : X) where
  open os use {World}

  pub kept :
      {A : Type 0} (x : A) (a : ServerApp os hw)
      → Holds os hw view server value a
      → Keeps os hw view server value (pure x a)
  kept x a h = Ensures-pure (λ _ b. Holds os hw view server value b) x a h

  on_world-Keeps :
      {A : Type 0} (m : M World A) (a : ServerApp os hw)
      → Ensures (m a.world) (λ _ w. view w ≡ view a.world)
      → Holds os hw view server value a
      → Keeps os hw view server value (on_world os hw m a)
  on_world-Keeps m a h e =
      Ensures-bind (m a.world) (λ x w. some (x, record a { world = w })) _ _ h
        (λ x w k. kept x (record a { world = w }) (e.0, k ∙ e.1))

  -- A step that goes on if the one before it succeeded.
  both-Keeps :
      (m n : M (ServerApp os hw) Bool) (a : ServerApp os hw)
      → Keeps os hw view server value (m a)
      → ((b : ServerApp os hw)
          → Holds os hw view server value b
          → Keeps os hw view server value (n b))
      → Keeps os hw view server value ((m >>= λ ok. if ok then n else pure false) a)
  both-Keeps m n a h k = Ensures-bind (m a) (λ ok. if ok then n else pure false) _ _ h next
    where
      next :
          (ok : Bool) (b : ServerApp os hw)
          → Holds os hw view server value b
          → Keeps os hw view server value ((if ok then n else pure false) b)
      next true b e = k b e
      next false b e = kept false b e

  send_all-Keeps :
      (s : TcpServer) (data' : List ℕ)
      → s ≡ server
      → (a : ServerApp os hw) → Holds os hw view server value a
      → Keeps os hw view server value (on_world os hw (send_all os s data') a)
  unfolding send_all
  send_all-Keeps s data' e a = rw e (
      on_world-Keeps (send_all os server data') a
        (send_rest_same os hw server.client_fd view same (suc (length data')) data' 0 a.world))

  send_response-Keeps :
      (header : ℕ) (a : ServerApp os hw)
      → Holds os hw view server value a
      → Keeps os hw view server value (on_world os hw (call (send_response os a.server header)) a)
  unfolding send_response
  send_response-Keeps header a e =
      on_world-Keeps (call (send_response os a.server header)) a
        (Ensures-pure (λ _ w. view w ≡ view a.world) _ _
          (rw e.0 (same.by_send (header ∷ []) a.world)))
        e

  send_header-Keeps :
      (header : ℕ) (a : ServerApp os hw)
      → Holds os hw view server value a
      → Keeps os hw view server value (send_header os hw header a)
  unfolding send_header
  send_header-Keeps header a e =
      both-Keeps (on_world os hw (call (send_response os a.server header)))
        (on_world os hw (send_all os a.server (net_bytes a.frame_id))) a
        (send_response-Keeps header a e) (send_all-Keeps a.server (net_bytes a.frame_id) e.0)

  send_jpeg-Keeps :
      (jpeg : List ℕ) (a : ServerApp os hw)
      → Holds os hw view server value a
      → Keeps os hw view server value (send_jpeg os hw jpeg a)
  unfolding send_jpeg
  send_jpeg-Keeps jpeg a e =
      both-Keeps (on_world os hw (send_all os a.server (net_bytes (length jpeg % u32_mod))))
        (on_world os hw (send_all os a.server jpeg)) a (send_all-Keeps a.server _ e.0 a e)
        (send_all-Keeps a.server jpeg e.0)

  send_frame-Keeps :
      (header : ℕ) (jpeg : List ℕ) (a : ServerApp os hw)
      → Holds os hw view server value a
      → Keeps os hw view server value (send_frame os hw header jpeg a)
  unfolding send_frame
  send_frame-Keeps header jpeg a e =
      both-Keeps (send_header os hw header) (send_jpeg os hw jpeg) a (send_header-Keeps header a e)
        (send_jpeg-Keeps jpeg)

  answer_state-Keeps :
      (state : SceneState) (c : Capture os hw) (a : ServerApp os hw)
      → Holds os hw view server value a
      → Keeps os hw view server value (answer_state os hw state c a)
  unfolding answer_state send_image send_state
  answer_state-Keeps normal c a e = send_frame-Keeps _ c.jpeg _ e
  answer_state-Keeps no_light c a e = send_header-Keeps _ _ e
  answer_state-Keeps sensor_error c a e = send_header-Keeps _ _ e

  track_held :
      (m : LightMonitor os hw) (x : SceneState) (w : World) → view (track os hw m x w).1 ≡ view w
  unfolding track
  track_held m x w = ground (arith, same.by_now w)

  adopt_held : (m : LightMonitor os hw) (w : World) → view (adopt os hw m w).1 ≡ view w
  unfolding adopt
  adopt_held m w = ground (arith, same.by_now w)

  update_held :
      (m : LightMonitor os hw) (x : hw.Double) (w : World) → view (update os hw m x w).1 ≡ view w
  unfolding update classify
  update_held m x w = adopt_held _ _ ∙ track_held m _ _ ∙ same.by_read_number m.path w

  answer_capture-Keeps :
      (c : Option (Capture os hw)) (a : ServerApp os hw)
      → Holds os hw view server value a
      → Keeps os hw view server value (answer_capture os hw c a)
  unfolding answer_capture
  answer_capture-Keeps none a e = kept true a e
  answer_capture-Keeps (some c) a e =
      answer_state-Keeps _ c _ (e.0, update_held a.light c.brightness a.world ∙ e.1)

  capture_jpeg_held : (w : World) → view (capture_jpeg os hw w).1 ≡ view w
  unfolding capture_jpeg
  capture_jpeg_held w = ground (arith, same.by_read w)

  pub handle_get_frame-Keeps :
      (a : ServerApp os hw)
      → Holds os hw view server value a
      → Keeps os hw view server value (handle_get_frame os hw a)
  unfolding handle_get_frame
  handle_get_frame-Keeps a e = answer_capture-Keeps _ _ (e.0, capture_jpeg_held a.world ∙ e.1)

  -- A handler, and then an outcome that depends on its result.
  pub then-Keeps :
      {A B : Type 0} (m : M (ServerApp os hw) A) (f : A → B) (a : ServerApp os hw)
      → Keeps os hw view server value (m a)
      → Keeps os hw view server value ((m >>= λ x. pure (f x)) a)
  then-Keeps m f a h = Ensures-bind (m a) (λ x. pure (f x)) _ _ h (λ x b e. kept (f x) b e)

  pub dispatch_command-Keeps :
      (cmd : ℕ) (o : SessionOutcome) (a : ServerApp os hw)
      → Holds os hw view server value a
      → Keeps os hw view server value (dispatch_command os hw cmd o a)
  unfolding dispatch_command handle_stop
  dispatch_command-Keeps cmd o a e = elim (Bool-cases (cmd == 1)) [
    | inl get ↦
        rw (get, dispatch_command)
          (then-Keeps (handle_get_frame os hw) (λ alive. (alive, if alive then o else gone)) a
            (handle_get_frame-Keeps a e))
    | inr other ↦ elim (Bool-cases (cmd == 2)) [
      | inl stop ↦
          rw (other, stop, dispatch_command)
            (then-Keeps (handle_stop os hw) (λ _. (false, stop_requested)) a
              (send_response-Keeps 102 a e))
      | inr unknown ↦ rw (other, unknown, dispatch_command) (kept (true, o) a e)
    ]
  ]
