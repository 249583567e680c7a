-- ===== src/Connector/Ssh.antt =====
-- `LinuxSSHConnector` (src/infrastructure/connectors/linux/ssh_connector.py): the connection. The
-- package paramiko, the file system and the clock are the record `Paramiko` over a world `W`, whose
-- objects are handles. A call into it answers, or raises an exception of one of the classes that the
-- connector tells apart.
pub mod Channel
pub mod Session
pub mod Retries
pub mod Waits
pub mod Finishes
pub mod Raises
pub mod Tests
use ai_sre_platform_for_auto.Common.{
  ℕ, ℤ, Text, Option, Bool, List, zero, suc, none, some, true, false, [], ◌∷◌, ◌++◌, ◌||◌, lit,
  show, if◌then◌else◌,
}
use ai_sre_platform_for_auto.Errors.{
  Kind, Result, ok, raise, authentication_failed, connection_failed, connector_timeout, builtin,
  is_instance,
}
use ai_sre_platform_for_auto.Effects.{Exec}

-- Classes of exceptions: PasswordRequiredException, the rest of AuthenticationException,
-- TimeoutError (which is socket.timeout), the rest of SSHException and of OSError, and all else.
pub data Fault : Type 0 where
  password_required authentication timed_out ssh_or_os other : Fault

pub data Call (A : Type 0) : Type 0 where
  done : A → Call A
  fault : Fault → Text → Call A

-- the arguments of the constructor
pub record Config (Float : Type 0) : Type 0 where
  pub host : Text
  pub username : Text
  pub password : Option Text
  pub key_path : Option Text
  pub port : ℕ
  pub timeout : Float
  pub retries : ℕ
  pub retry_delay : Float

pub record Paramiko (W Float : Type 0) : Type 0 where
  pub expanduser : Text → W → Text
  pub path_exists : Text → W → Bool
  pub from_private_key_file : Text → Option Text → W → Call ℕ × W
  pub new_client : W → ℕ × W
  pub client_connect : ℕ → Config Float → Option ℕ → W → Call (Unit {0}) × W
  pub client_close : ℕ → W → Call (Unit {0}) × W
  pub get_transport : ℕ → W → Option ℕ
  pub is_active : ℕ → W → Bool
  pub sleep : Float → W → W
  pub open_session : ℕ → W → Call ℕ × W
  pub settimeout : ℕ → Float → W → Call (Unit {0}) × W
  pub exec_command : ℕ → Text → W → Call (Unit {0}) × W
  pub exit_status_ready : ℕ → W → Bool × W
  pub recv_ready : ℕ → W → Bool × W
  pub recv : ℕ → W → Call (List ℕ) × W
  pub recv_stderr_ready : ℕ → W → Bool × W
  pub recv_stderr : ℕ → W → Call (List ℕ) × W
  pub closed : ℕ → W → Bool × W
  pub get_exit_status : ℕ → W → Call ℤ × W
  pub decode : List ℕ → Text
  pub open_sftp : ℕ → W → Call ℕ × W
  pub sftp_put : ℕ → Text → Text → W → Call (Unit {0}) × W
  pub sftp_get : ℕ → Text → Text → W → Call (Unit {0}) × W
  pub sftp_close : ℕ → W → Call (Unit {0}) × W

-- The connector's own state beside the world.
pub record Ssh (W : Type 0) : Type 0 where
  pub client : Option ℕ
  pub connected : Bool
  pub world : W

-- `if v` for an optional text
unfoldable pub given : Option Text → Option Text
given none = none
given (some []) = none
given (some (c ∷ s)) = some (c ∷ s)

-- What the client's `connect` raises, as the connector's exceptions.
unfoldable pub connect_error : Fault → Text → Kind × Text
connect_error password_required m = (authentication_failed, lit "Authentication failed: " ++ m)
connect_error authentication m = (authentication_failed, lit "Authentication failed: " ++ m)
connect_error timed_out m = (connector_timeout, lit "Connection timeout: " ++ m)
connect_error ssh_or_os m = (connection_failed, lit "SSH error occurred: " ++ m)
connect_error other m = (builtin, m)

-- Errors that another attempt does not mend.
abbrev pub permanent : Kind → Bool
permanent k = is_instance k authentication_failed || is_instance k connector_timeout

module _ {Float : Type 0} (config : Config Float) where
  abbrev pub gave_up : Option Text → Text
  gave_up last_error =
      lit "Failed to connect to "
      ++ (config.host
          ++ (lit ":"
              ++ (show config.port
                  ++ (lit " after "
                      ++ (show config.retries
                          ++ (lit " attempts. Last error: "
                              ++ elim last_error [ none ↦ lit "None" | some m ↦ m ]))))))

module _ {W Float : Type 0} (p : Paramiko W Float) (config : Config Float) where
  -- the second attempt at a key, with the password as its passphrase
  unfoldable pub load_with : Text → Option Text → Exec W (Option ℕ)
  load_with path none w =
      (raise authentication_failed (lit "SSH private key requires a passphrase."), w)
  load_with path (some password) w =
      let (r, w') = p.from_private_key_file path (some password) w in
      (elim r [ done key ↦ ok (some key) | fault f m ↦ raise builtin m ], w')

  abbrev loaded : Text → Call ℕ → Exec W (Option ℕ)
  loaded path (done key) w = (ok (some key), w)
  loaded path (fault password_required m) w = load_with path (given config.password) w
  loaded path (fault f m) w =
      (raise connection_failed (lit "Failed to load SSH private key: " ++ m), w)

  abbrev read_key : Text → Bool → Exec W (Option ℕ)
  read_key path true w = let (r, w') = p.from_private_key_file path none w in loaded path r w'
  read_key path false w =
      (raise connection_failed (lit "SSH private key file not found: " ++ path), w)

  -- the private key, if a path is given
  unfoldable pub load_key : Option Text → Exec W (Option ℕ)
  unfolding load_with
  load_key none w = (ok none, w)
  load_key (some key_path) w =
      let path = p.expanduser key_path w in read_key path (p.path_exists path w) w

  -- the second `try`: the client is kept when it connects
  abbrev pub dialled : ℕ → Call (Unit {0}) → Ssh W → Result (Unit {0}) × Ssh W
  dialled client (done _) s = (ok tt, record s { client = some client })
  dialled client (fault f m) s = let (k, message) = connect_error f m in (raise k message, s)

  abbrev pub keyed : ℕ → Result (Option ℕ) → Exec (Ssh W) (Unit {0})
  keyed client (raise k m) s = (raise k m, s)
  keyed client (ok key) s =
      let (r, w) = p.client_connect client config key s.world in
      dialled client r (record s { world = w })

  unfoldable pub sync_connect : Exec (Ssh W) (Unit {0})
  unfolding load_key connect_error given
  sync_connect s =
      let (client, w₁) = p.new_client s.world in
      let (key, w₂) = load_key (given config.key_path) w₁ in
      keyed client key (record s { world = w₂ })

  -- the sleep before another attempt, if there is one
  abbrev pub pause : ℕ → Ssh W → Ssh W
  pause zero s = s
  pause (suc left) s = record s { world = p.sleep config.retry_delay s.world }

  -- the end of one attempt; `next` is the rest of the loop
  unfoldable pub settled :
      (Option Text → Exec (Ssh W) (Unit {0}))
      → ℕ
      → Result (Unit {0}) × Ssh W
      → Result (Unit {0}) × Ssh W
  settled next left (ok _, s) = (ok tt, record s { connected = true })
  settled next left (raise k m, s) = elim (permanent k) [
    | true ↦ (raise k m, s)
    | false ↦ next (some m) (pause left s)
  ]

  -- the loop, with the attempts left
  unfoldable pub attempts : ℕ → Option Text → Exec (Ssh W) (Unit {0})
  unfolding settled
  attempts zero last_error s = (raise connection_failed (gave_up config last_error), s)
  attempts (suc left) last_error s = settled (attempts left) left (sync_connect s)

  abbrev active : Option ℕ → W → Bool
  active none w = false
  active (some transport) w = p.is_active transport w

  unfoldable pub is_connected : Ssh W → Bool
  is_connected s =
      if s.connected
      then elim s.client [ none ↦ false | some c ↦ active (p.get_transport c s.world) s.world ]
      else false

  unfoldable pub connect : Exec (Ssh W) (Unit {0})
  unfolding is_connected attempts
  connect s = elim (is_connected s) [ true ↦ (ok tt, s) | false ↦ attempts config.retries none s ]

  abbrev pub closing : Option ℕ → Ssh W → Ssh W
  closing none s = s
  closing (some c) s =
      let (r, w) = p.client_close c s.world in
      record { client = none; connected = false; world = w }

  -- An exception of the client's `close` is logged.
  unfoldable pub disconnect : Exec (Ssh W) (Unit {0})
  disconnect s = (ok tt, closing s.client s)
