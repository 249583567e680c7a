-- ===== src/Connector/Hostinger.antt =====
-- `HostingerConnector` (src/infrastructure/connectors/hostinger/hostinger_connector.py): an SSH
-- connector beside a client of the Hostinger API. The package httpx is the record `Http`, whose
-- clients are handles; a response is its JSON value, once the status is checked.
use mathlib.Core.Option
use ai_sre_platform_for_auto.Common.{ℕ, Text, Option, Bool, List, none, some, [], ◌∷◌, ◌++◌, lit}
use ai_sre_platform_for_auto.Errors.{Result, ok, raise, connection_failed}
use ai_sre_platform_for_auto.Effects.{Exec}
use ai_sre_platform_for_auto.Values.{FloatOps, Value}
use ai_sre_platform_for_auto.Connector.Ssh.{Config, Paramiko, Ssh, given}
use ai_sre_platform_for_auto.Connector.Ssh
use ai_sre_platform_for_auto.Connector.Ssh.Session
use ai_sre_platform_for_auto.Common.{◌≡◌}
use ai_sre_platform_for_auto.Common.{refl}

pub record Http (W Float : Type 0) : Type 0 where
  pub async_client : Text → List (Text × Text) → Float → W → ℕ × W
  pub post : ℕ → Text → Exec W (Value Float)
  pub fetch : ℕ → Text → Exec W (Value Float)
  pub aclose : ℕ → Exec W (Unit {0})

-- the constructor's arguments besides those of the SSH connector
pub record Api : Type 0 where
  pub api_base_url : Text
  pub api_token : Option Text

pub record Vps (W : Type 0) : Type 0 where
  pub ssh_connector : Ssh W
  pub client : Option ℕ

-- the headers of the API client
unfoldable pub headers_of : Option Text → List (Text × Text)
headers_of none = []
headers_of (some token) = (lit "Authorization", lit "Bearer " ++ token) ∷ []

-- the `except` around a request
abbrev told : {A : Type 0} → Text → Result A → Result A
told label (ok a) = ok a
told label (raise k m) = raise connection_failed (label ++ m)

module _ {W Float : Type 0} (p : Paramiko W Float) (http : Http W Float) (config : Config Float)
    (api : Api) where
  abbrev with_world : Vps W → W → Vps W
  with_world s w = record s { ssh_connector = record s.ssh_connector { world = w } }

  abbrev prepared : Result (Unit {0}) → Exec (Vps W) (Unit {0})
  prepared (raise k m) s = (raise k m, s)
  prepared (ok _) s =
      let (client, w) =
        http.async_client api.api_base_url (headers_of (given api.api_token)) config.timeout
          s.ssh_connector.world in
      (ok tt, record (with_world s w) { client = some client })

  unfoldable pub connect_vps : Exec (Vps W) (Unit {0})
  unfolding headers_of
  connect_vps s =
      let (r, ssh) = Ssh.connect p config s.ssh_connector in
      prepared r (record s { ssh_connector = ssh })

  -- The client goes once its `aclose` has returned.
  abbrev closed_client : Option ℕ → Exec (Vps W) (Unit {0})
  closed_client none s = (ok tt, s)
  closed_client (some c) s =
      let (r, w) = http.aclose c s.ssh_connector.world in
      elim r [
        | ok _ ↦ (ok tt, record (with_world s w) { client = none })
        | raise k m ↦ (raise k m, with_world s w)
      ]

  unfoldable pub disconnect_vps : Exec (Vps W) (Unit {0})
  disconnect_vps s =
      let (r, ssh) = Ssh.disconnect p config s.ssh_connector in
      closed_client s.client (record s { ssh_connector = ssh })

  abbrev asked : {A : Type 0} → Text → (ℕ → Exec W A) → Option ℕ → Exec (Vps W) A
  asked label request none s = (
    raise connection_failed (lit "Hostinger API client is not initialized. Call connect() first."),
    s,
  )
  asked label request (some c) s =
      let (r, w) = request c s.ssh_connector.world in (told label r, with_world s w)

  unfoldable pub reboot_vps : Text → Exec (Vps W) (Unit {0})
  reboot_vps vps_id s =
      let (r, s') =
        asked (lit "Hostinger API VPS reboot request failed: ")
          (λ c. http.post c (lit "/vps/" ++ (vps_id ++ lit "/reboot"))) s.client s in
      (elim r [ ok v ↦ ok tt | raise k m ↦ raise k m ], s')

  unfoldable pub get_vps_details : Text → Exec (Vps W) (Value Float)
  get_vps_details vps_id s =
      asked (lit "Hostinger API fetch details failed: ") (λ c. http.fetch c (lit "/vps/" ++ vps_id))
        s.client s

  -- calls that the SSH connector answers
  abbrev delegated : {A : Type 0} → Exec (Ssh W) A → Exec (Vps W) A
  delegated m s = let (r, ssh) = m s.ssh_connector in (r, record s { ssh_connector = ssh })

  unfoldable pub is_connected_vps : Vps W → Bool
  is_connected_vps s = Ssh.is_connected p config s.ssh_connector

  unfoldable pub upload_vps : Text → Text → Exec (Vps W) (Unit {0})
  upload_vps local_path remote_path =
      delegated (Session.upload_file p config local_path remote_path)

  unfoldable pub download_vps : Text → Text → Exec (Vps W) (Unit {0})
  download_vps remote_path local_path =
      delegated (Session.download_file p config remote_path local_path)

  unfoldable pub execute_vps :
      FloatOps Float → ℕ → Text → Option Float → Vps W → Option (Result Text × Vps W)
  execute_vps floats fuel command timeout s =
      Option.map (λ (r, ssh). (r, record s { ssh_connector = ssh }))
        (Session.execute floats p config fuel command timeout s.ssh_connector)

-- A result whose exception, if it is one, is a `ConnectionFailedError`.
abbrev pub FailsOnly : {A : Type 0} → Result A → Type 0
FailsOnly (ok a) = Unit
FailsOnly (raise k m) = k ≡ connection_failed

module _ {W Float : Type 0} (p : Paramiko W Float) (http : Http W Float) (config : Config Float)
    (api : Api) where
  told-FailsOnly : {A : Type 0} (label : Text) (r : Result A) → FailsOnly (told label r)
  told-FailsOnly label (ok a) = tt
  told-FailsOnly label (raise k m) = refl

  asked-FailsOnly :
      {A : Type 0} (label : Text) (request : ℕ → Exec W A) (o : Option ℕ) (s : Vps W)
      → FailsOnly (asked p http config api label request o s).0
  asked-FailsOnly label request none s = refl
  asked-FailsOnly label request (some c) s = told-FailsOnly label _

  unit-FailsOnly :
      (r : Result (Value Float))
      → FailsOnly r
      → FailsOnly (elim r [ ok v ↦ ok (tt {0}) | raise k m ↦ raise k m ])
  unit-FailsOnly (ok v) h = tt
  unit-FailsOnly (raise k m) h = h

  -- Whatever httpx raises, a reboot and a query of the details raise ConnectionFailedError or nothing.
  pub vps-FailsOnly :
      (vps_id : Text) (s : Vps W)
      → FailsOnly (reboot_vps p http config api vps_id s).0
        × FailsOnly (get_vps_details p http config api vps_id s).0
  unfolding reboot_vps get_vps_details
  vps-FailsOnly vps_id s = (
    unit-FailsOnly _ (
        asked-FailsOnly (lit "Hostinger API VPS reboot request failed: ")
          (λ c. http.post c (lit "/vps/" ++ (vps_id ++ lit "/reboot"))) s.client s),
    asked-FailsOnly _ _ s.client s,
  )
