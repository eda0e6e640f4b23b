-- ===== src/Cli/Session.antt =====
-- crates/hwwctl/src/client.rs and crates/hwwctl/src/daemon/mod.rs: a client and the daemon together.
use hwwctl.Prelude.{ℕ, ◌≡◌, refl, [], ◌∷◌, none, some, ◌⊎◌, inl, inr}
use hwwctl.Control.Types.{Request, Response, StartRequest}
use hwwctl.Control.Framing.{Codec, Source, Sink, eof, ok, write_frame}
use hwwctl.Emulators.World.{World}
use hwwctl.Daemon.Instance.{Instance}
use hwwctl.Daemon.Spawn.{Instances, get, insert, new_id}
use hwwctl.Daemon.Spawn.Stages.{Same}
use hwwctl.Daemon.Spawn.Laws.{start-IsClean}
use hwwctl.Daemon.Server.{Daemon, dispatch, handle_connection}
use hwwctl.Daemon.Server.Laws.{handle_connection-dispatch}
use hwwctl.Cli.{Cmd, build_request, exit_code, read_response, send_request, run}

module _ (requests : Codec Request) (responses : Codec Response) (d : Daemon) where
  -- The stream that a connection to the daemon is: it reads what was written, and its answer is all that
  -- the client reads.
  abbrev pub daemon_stream : Sink → Instances → World → Sink → Source
  daemon_stream out m w c = record {
    bytes =
        (handle_connection requests responses d (record { bytes = c.written; end = eof }) out m
          w).out.written;
    end = eof;
  }

  -- A command that makes a request, over a fresh connection to the daemon on which both messages can be
  -- written, exits with the code of the response that `dispatch` gives to that request.
  pub run-dispatch :
      (cmd : Cmd) (req : Request) (c c' out out' : Sink) (m : Instances) (w : World)
      → build_request cmd ≡ some req
      → c.written ≡ []
      → write_frame requests req c ≡ ok c'
      → write_frame responses (dispatch d req m w).0 out ≡ ok out'
      → out.written ≡ []
      → run requests responses cmd (some c) (daemon_stream out m w)
        ≡ exit_code (dispatch d req m w).0
  unfolding run send_request read_response
  run-dispatch cmd req c c' out out' m w built empty sent wrote fresh =
      let (ok_served, state, exits, back) =
        handle_connection-dispatch requests responses d req c c' out out' m w empty sent wrote
          fresh in
      rw (built, run, sent, send_request, back, read_response) refl

  -- What the daemon has behind the connection.
  abbrev pub daemon_state : Sink → Instances → World → Sink → Instances × World
  daemon_state out m w c =
      (handle_connection requests responses d (record { bytes = c.written; end = eof }) out m
        w).state

  -- How `hwwctl start` exits, and the daemon's state behind it.
  abbrev pub IsStarted : Instances → World → ℕ → Instances × World → Type 0
  IsStarted m w code st =
      ((code ≡ 1) × (st.0 ≡ m) × Same w st.1)
      ⊎ ((i : Instance) × (pid : ℕ) × (code ≡ 0)
          × (st.0 ≡ insert i.id i m)
          × (i.emulator.child ≡ some pid)
          × (st.1.children ≡ pid ∷ w.children)
          × (st.1.devices ≡ i.serial ∷ w.devices))

  dispatch-start :
      (req : StartRequest) (m : Instances) (w : World)
      → get (new_id d.env) m ≡ none
      → IsStarted m w
          (exit_code (dispatch d (Request.start req) m w).0)
          (dispatch d (Request.start req) m w).1
  unfolding dispatch exit_code
  dispatch-start req m w fresh = elim (start-IsClean d.env req m w fresh) [
    | inl (e, fails, kept, same) ↦ inl (rw (fails, exit_code) refl, kept, same)
    | inr (i, pid, works, put, held, children, devices, b, has, two, serial) ↦
        inr (i, pid, rw (works, exit_code) refl, put, held, children, devices)
  ]

  -- `hwwctl start`, over a fresh connection on which both messages can be written and with a new id that
  -- is not taken, ends in one of two ways: it exits with 1, and the daemon has the instances, the processes
  -- and the devices it had; or it exits with 0, and the daemon has one more of each.
  pub run-start :
      (req : StartRequest) (cmd : Cmd) (c c' out out' : Sink) (m : Instances) (w : World)
      → build_request cmd ≡ some (Request.start req)
      → c.written ≡ []
      → write_frame requests (Request.start req) c ≡ ok c'
      → write_frame responses (dispatch d (Request.start req) m w).0 out ≡ ok out'
      → out.written ≡ []
      → get (new_id d.env) m ≡ none
      → IsStarted m w
          (run requests responses cmd (some c) (daemon_stream out m w))
          (daemon_state out m w c')
  run-start req cmd c c' out out' m w built empty sent wrote fresh free =
      let (ok_served, state, exits, back) =
        handle_connection-dispatch requests responses d (Request.start req) c c' out out' m w empty
          sent wrote fresh in
      rw
        (run-dispatch cmd (Request.start req) c c' out out' m w built empty sent wrote fresh, state)
        (dispatch-start req m w free)
