-- ===== src/Server/Service.antt =====
-- `ServerService` (src/application/services/server_service.py) over its repository. `is_ip` is
-- whether `ipaddress.ip_address` takes a text, `at_most_zero` the test `<= 0` of a float, and `show_float`
-- its text.
pub mod Registration
mod Tests
use ai_sre_platform_for_auto.Common.{ℕ, none, some, [], ◌∷◌, ◌++◌, true, false}
use ai_sre_platform_for_auto.Errors.{Result, ok, raise, validation, conflict, ◌>>◌}
use ai_sre_platform_for_auto.Effects.{Exec}
use ai_sre_platform_for_auto.Effects
use ai_sre_platform_for_auto.Repository.{Repository}
use ai_sre_platform_for_auto.Server.{Server}
use ai_sre_platform_for_auto.Server as Server
use ai_sre_platform_for_auto.Server.Hostname.{validate_hostname, is_blank}
use ai_sre_platform_for_auto.Common.{Text, if◌then◌else◌, ℤ}
use ai_sre_platform_for_auto.Common.{Bool, lit, pos}
use ai_sre_platform_for_auto.Common.{ltb, show}
use ai_sre_platform_for_auto.Common.{negsuc}
use ai_sre_platform_for_auto.Common.{false, ◌+◌}

pub record Ports (S Float : Type 0) : Type 0 where
  pub repository : Repository S (Server Float)
  pub exists : Text → Text → Exec S Bool
  pub is_ip : Text → Bool
  pub at_most_zero : Float → Bool
  pub show_float : Float → Text

abbrev pub is_positive : ℤ → Bool
is_positive (pos n) = ltb 0 n
is_positive (negsuc n) = false

-- `str(n)`
unfoldable pub show_int : ℤ → Text
show_int (pos n) = show n
show_int (negsuc n) = lit "-" ++ show (n + 1)

module _ {S Float : Type 0} (ports : Ports S Float) where
  unfoldable pub validate_ip : Text → Result (Unit {0})
  unfolding is_blank
  validate_ip ip =
      if is_blank ip
      then raise validation (lit "IP address cannot be empty.")
      else if ports.is_ip ip
      then ok tt
      else raise validation (lit "Invalid IP address format: '" ++ (ip ++ lit "'"))

  unfoldable pub check_cores : ℤ → Result (Unit {0})
  check_cores cpu_cores =
      if is_positive cpu_cores
      then ok tt
      else raise validation (lit "CPU cores must be greater than 0. Got " ++ show_int cpu_cores)

  unfoldable pub check_memory : Float → Result (Unit {0})
  check_memory memory_gb =
      if ports.at_most_zero memory_gb
      then raise validation
          (lit "Memory GB must be greater than 0. Got " ++ ports.show_float memory_gb)
      else ok tt

  -- steps 1 to 3
  unfoldable pub check_request : Text → Text → ℤ → Float → Result (Unit {0})
  unfolding validate_ip check_cores check_memory
  check_request hostname ip_address cpu_cores memory_gb = do
    validate_hostname hostname
    validate_ip ip_address
    check_cores cpu_cores
    check_memory memory_gb

  unfoldable pub save_new : Text → Text → Text → ℤ → Float → Bool → Exec S (Server Float)
  save_new hostname ip_address operating_system cpu_cores memory_gb true = Effects.throw conflict (
      lit "A server with hostname '"
      ++ (hostname ++ (lit "' or IP '" ++ (ip_address ++ lit "' already exists."))))
  save_new hostname ip_address operating_system cpu_cores memory_gb false =
      ports.repository.save (Server.create hostname ip_address operating_system cpu_cores memory_gb)

  unfoldable pub register_server : Text → Text → Text → ℤ → Float → Exec S (Server Float)
  unfolding check_request save_new
  register_server hostname ip_address operating_system cpu_cores memory_gb =
      Effects.◌>>◌ (Effects.lift (check_request hostname ip_address cpu_cores memory_gb)) (
        Effects.◌>>=◌ (ports.exists hostname ip_address)
          (save_new hostname ip_address operating_system cpu_cores memory_gb))
