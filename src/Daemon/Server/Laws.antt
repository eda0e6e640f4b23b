-- ===== src/Daemon/Server/Laws.antt =====
-- crates/hwwctl/src/daemon/mod.rs: a request over the socket.
use hwwctl.Prelude.{◌≡◌, refl, [], ◌++◌, none, some, ◌∙◌, sym, ap, append-nil}
use hwwctl.Control.Types.{Request, Response}
use hwwctl.Control.Framing.{Codec, Sink, eof, ok, write_frame, read_frame}
use hwwctl.Control.Framing.RoundTrip.{read_frame-write_frame}
use hwwctl.Emulators.World.{World}
use hwwctl.Daemon.Spawn.{Instances}
use hwwctl.Daemon.Server.{Daemon, dispatch, is_shutdown, answer, handle_connection}

module _ (requests : Codec Request) (responses : Codec Response) (d : Daemon) where
  -- On a fresh connection, a request that a client wrote with `write_frame` is dispatched as it was
  -- sent; if the response can be written, the client reads exactly that response with `read_frame`, and
  -- the daemon is told to exit just when the request was a shutdown.
  pub handle_connection-dispatch :
      (req : Request) (c c' out out' : Sink) (m : Instances) (w : World)
      → c.written ≡ []
      → write_frame requests req c ≡ ok c'
      → write_frame responses (dispatch d req m w).0 out ≡ ok out'
      → out.written ≡ []
      → let served =
          handle_connection requests responses d
            (record { bytes = c'.written; end = eof })
            out
            m
            w in
        (served.failed ≡ none)
        × (served.state ≡ (dispatch d req m w).1)
        × (served.exits ≡ is_shutdown req)
        × (read_frame responses (record { bytes = served.out.written; end = eof })
            ≡ ok (some (dispatch d req m w).0, record { bytes = []; end = eof }))
  unfolding handle_connection answer
  handle_connection-dispatch req c c' out out' m w empty sent wrote fresh =
      let (frame, put, back) = read_frame-write_frame requests req c c' [] eof sent in
      let (frame', put', back') =
        read_frame-write_frame responses (dispatch d req m w).0 out out' [] eof wrote in
      let arrived : c'.written ≡ frame ++ [] =
        put ∙ ap (λ bs. bs ++ frame) empty ∙ sym (append-nil frame) in
      let returned : out'.written ≡ frame' ++ [] =
        put' ∙ ap (λ bs. bs ++ frame') fresh ∙ sym (append-nil frame') in
      rw (arrived, back, handle_connection, wrote, answer) (refl, refl, refl, rw returned back')
