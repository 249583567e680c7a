-- ===== src/Connector/Ssh/Channel.antt =====
-- `LinuxSSHConnector`: commands and files over an open connection. The loops that wait for a command
-- have no bound in the source; they run on fuel here, and `none` is a run that has not ended.
use mathlib.Core.Option
use ai_sre_platform_for_auto.Common.{
  ℕ, ℤ, Text, Option, Bool, List, zero, suc, none, some, true, false, [], ◌++◌, lit, strip, pos,
}
use ai_sre_platform_for_auto.Errors.{
  Result, ok, raise, connection_failed, connector_timeout, command_execution_failed,
}
use ai_sre_platform_for_auto.Values.{FloatOps}
use ai_sre_platform_for_auto.Connector.Ssh.{Call, Paramiko, Ssh, done, fault, timed_out}
use ai_sre_platform_for_auto.Common.{show}
use ai_sre_platform_for_auto.Common.{negsuc}

-- what was read so far from the two streams
pub record Streams : Type 0 where
  pub out : Text
  pub err : Text

-- `str` of an int
abbrev show_int : ℤ → Text
show_int (pos n) = show n
show_int (negsuc n) = lit "-" ++ show (suc n)

module _ {A B W : Type 0} where
  abbrev pub go_on : Call A → (A → W → Call B × W) → W → Call B × W
  go_on (done a) f w = f a w
  go_on (fault k m) f w = (fault k m, w)

  -- one call into paramiko after another
  abbrev pub ◌>>=◌ : (W → Call A × W) → (A → W → Call B × W) → W → Call B × W
  ◌>>=◌ m f w = let (r, w') = m w in go_on r f w'

module _ {A B W : Type 0} where
  abbrev pub unfinished : Option (Call A × W) → (A → W → Option (Call B × W)) → Option (Call B × W)
  unfinished none f = none
  unfinished (some (done a, w)) f = f a w
  unfinished (some (fault k m, w)) f = some (fault k m, w)

module _ {W Float : Type 0} (p : Paramiko W Float) where
  -- `if ready: data.append(recv(4096).decode(...))`
  abbrev pub appended : Text → Call (List ℕ) → Call Text
  appended text (done bytes) = done (text ++ p.decode bytes)
  appended text (fault k m) = fault k m

  abbrev pub read_chunk : (ℕ → W → Call (List ℕ) × W) → ℕ → Text → W → Call Text × W
  read_chunk recv chan text w = let (r, w') = recv chan w in (appended text r, w')

  unfoldable pub read_if :
      (ℕ → W → Bool × W) → (ℕ → W → Call (List ℕ) × W) → ℕ → Text → W → Call Text × W
  read_if ready recv chan text w =
      let (b, w') = ready chan w in
      elim b [ true ↦ read_chunk recv chan text w' | false ↦ (done text, w') ]

  -- both reads in the body of the loop
  unfoldable pub read_both : ℕ → Streams → W → Call Streams × W
  unfolding read_if
  read_both chan streams w =
      let (out, w₁) = read_if p.recv_ready p.recv chan streams.out w in
      go_on out
        (λ text w.
          let (err, w₂) = read_if p.recv_stderr_ready p.recv_stderr chan streams.err w in
          go_on err (λ more w. (done (record { out = text; err = more }), w)) w₂)
        w₁

  -- `while not chan.exit_status_ready()`
  unfoldable pub wait : ℕ → ℕ → Streams → W → Option (Call Streams × W)
  wait zero chan streams w = none
  wait (suc fuel) chan streams w =
      let (ready, w₁) = p.exit_status_ready chan w in
      elim ready [
        | true ↦ some (done streams, w₁)
        | false ↦
            let (r, w₂) = read_both chan streams w₁ in
            elim r [
              | fault k m ↦ some (fault k m, w₂)
              | done more ↦
                  let (closed, w₃) = p.closed chan w₂ in
                  elim closed [ true ↦ some (done more, w₃) | false ↦ wait fuel chan more w₃ ]
            ]
      ]

  -- `while ready: data.append(...)`
  unfoldable pub drain :
      (ℕ → W → Bool × W) → (ℕ → W → Call (List ℕ) × W) → ℕ → ℕ → Text → W → Option (Call Text × W)
  drain ready recv zero chan text w = none
  drain ready recv (suc fuel) chan text w =
      let (b, w₁) = ready chan w in
      elim b [
        | false ↦ some (done text, w₁)
        | true ↦
            let (r, w₂) = read_chunk recv chan text w₁ in
            elim r [
              | fault k m ↦ some (fault k m, w₂)
              | done more ↦ drain ready recv fuel chan more w₂
            ]
      ]

  -- the loops, and then the exit status
  unfoldable pub collect_output : ℕ → ℕ → W → Option (Call (ℤ × Streams) × W)
  unfolding wait drain
  collect_output fuel chan w =
      unfinished (wait fuel chan (record { out = []; err = [] }) w) (λ streams w.
        unfinished (drain p.recv_ready p.recv fuel chan streams.out w) (λ out w.
          unfinished (drain p.recv_stderr_ready p.recv_stderr fuel chan streams.err w) (λ err w.
            let (r, w') = p.get_exit_status chan w in
            some (go_on r (λ status w. (done (status, record { out = out; err = err }), w)) w'))))

  -- the channel, with the command started on it
  abbrev pub open_channel : Float → Text → ℕ → W → Call ℕ × W
  open_channel timeout command transport = do
    chan ← p.open_session transport
    _ ← p.settimeout chan timeout
    _ ← p.exec_command chan command
    λ w. (done chan, w)

  -- the body of the `try`
  abbrev pub run_channel : ℕ → Float → Text → ℕ → W → Option (Call (ℤ × Streams) × W)
  run_channel fuel timeout command transport w =
      unfinished (some (open_channel timeout command transport w)) (collect_output fuel)

abbrev exited : ℤ → Text → Text
exited status err =
    lit "Command returned exit status " ++ (show_int status ++ (lit ". Stderr: " ++ strip err))

module _ {Float : Type 0} (floats : FloatOps Float) where
  -- the exit status, and the exceptions of the `try`
  unfoldable pub outcome : Float → Call (ℤ × Streams) → Result Text
  outcome timeout (done (status, streams)) = elim status [
    | pos zero ↦ ok streams.out
    | pos (suc n) ↦ raise command_execution_failed (exited (pos (suc n)) streams.err)
    | negsuc n ↦ raise command_execution_failed (exited (negsuc n) streams.err)
  ]
  outcome timeout (fault timed_out m) =
      raise connector_timeout
        (lit "Command timed out after " ++ (floats.show timeout ++ lit " seconds."))
  outcome timeout (fault k m) = raise connection_failed (lit "Channel execution error: " ++ m)

module _ {W Float : Type 0} (floats : FloatOps Float) (p : Paramiko W Float) where
  abbrev pub over : ℕ → Text → Float → Ssh W → Option ℕ → Option (Result Text × Ssh W)
  over fuel command timeout s none =
      some (raise connection_failed (lit "Transport is inactive."), s)
  over fuel command timeout s (some transport) =
      Option.map (λ (r, w). (outcome floats timeout r, record s { world = w }))
        (run_channel p fuel timeout command transport s.world)

  unfoldable pub sync_execute : ℕ → Text → Float → Ssh W → Option (Result Text × Ssh W)
  unfolding collect_output outcome
  sync_execute fuel command timeout s = elim s.client [
    | none ↦ some (raise connection_failed (lit "Client is not connected."), s)
    | some c ↦ over fuel command timeout s (p.get_transport c s.world)
  ]
