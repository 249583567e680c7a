-- ===== src/Server/Service/Tests.antt =====
-- `ServerService` over a table in memory, with natural numbers for floats.
use ai_sre_platform_for_auto.Common.{ℕ, none, some, [], ◌∷◌, ◌++◌, refl, true, false}
use ai_sre_platform_for_auto.Errors.{ok, raise, validation, conflict}
use ai_sre_platform_for_auto.Repository.Memory.{memory, read, memory-IsRepository}
use ai_sre_platform_for_auto.Repository.{Repository, Keyed, IsRepository, key_or}
use ai_sre_platform_for_auto.Server.{Server}
use ai_sre_platform_for_auto.Server.Hostname.{validate_hostname, hostname_matches}
use ai_sre_platform_for_auto.Server.Service.{Ports, register_server}
use ai_sre_platform_for_auto.Server.Service.Registration.{Works, IsRegistrable, register_server_lem}
use ai_sre_platform_for_auto.Common.{List, Text, any, lit, strip}
use ai_sre_platform_for_auto.Common.{Option, pos, text_eq, ◌≡◌}
use ai_sre_platform_for_auto.Common.{Bool, ◌||◌, ◌⊎◌}
use ai_sre_platform_for_auto.Common.{◌==◌}
use ai_sre_platform_for_auto.Common.{show}

abbrev Table : Type 0
Table = List (Option (Server ℕ))

abbrev server_key : Keyed (Server ℕ)
server_key = record { id_of = λ e. e.id; with_id = λ e n. record e { id = some n } }

abbrev table : Repository Table (Server ℕ)
table = memory server_key (λ s. s) (λ s l. l)

abbrev as_repository : IsRepository server_key table (read server_key (λ s. s) (λ s l. l))
as_repository = memory-IsRepository server_key (λ s. s) (λ s l. l) (λ s l. refl) (λ e n. refl)

-- The table sets both dates.
abbrev dated : Server ℕ → Server ℕ
dated e = record e { created_at = some 5; updated_at = some 5 }

abbrev clashes : Text → Text → Option (Server ℕ) → Bool
clashes hostname ip none = false
clashes hostname ip (some e) = text_eq e.hostname hostname || text_eq e.ip_address ip

abbrev ports : Ports Table ℕ
ports = record {
  repository = record table { save = λ e s. table.save (dated e) s };
  exists = λ hostname ip s. (ok (any (clashes hostname ip) s), s);
  is_ip = λ ip. text_eq ip (lit "10.0.0.1") || text_eq ip (lit "10.0.0.2");
  at_most_zero = λ x. x == 0;
  show_float = show;
}

abbrev works : Works ports
works = record {
  stored = read server_key (λ s. s) (λ s l. l);
  taken = λ s hostname ip. any (clashes hostname ip) s;
  reads_exists = λ s hostname ip. refl;
  fresh = as_repository.fresh;
  filed = λ s e. record (dated e) { id = some (key_or e.id (as_repository.fresh s)) };
  after = λ s e. as_repository.after s (dated e);
  fresh_unused = as_repository.fresh_unused;
  saves = λ s e new free. as_repository.saves s (dated e);
  files = λ s e new. record {
    id = rw new refl;
    hostname = refl;
    ip_address = refl;
    operating_system = refl;
    cpu_cores = refl;
    memory_gb = refl;
    dated = (5, 5, refl, refl);
  };
  stores = λ s e m new. rw (as_repository.stores s (dated e) m, new) refl;
}

-- A valid name passes, and so does the name with a newline after it; a number does not.
validate_hostname_tests :
    (validate_hostname (lit "web-1.example") ≡ ok tt)
    × (validate_hostname (lit "web-1" ++ (10 ∷ [])) ≡ ok tt)
    × (hostname_matches (lit "1234") ≡ false)
    × (validate_hostname (lit "a.-") ≡ ok tt)
unfolding validate_hostname strip lit
validate_hostname_tests = (refl, refl, refl, refl)

register_server_lem_example :
    (IsRegistrable ports (lit "web-1") (lit "10.0.0.1") (pos 4) 16
      × (works.taken [] (lit "web-1") (lit "10.0.0.1") ≡ false)
      × ((key : ℕ) × (server : Server ℕ) × (after : Table) × (register_server ports
              (lit "web-1")
              (lit "10.0.0.1")
              (lit "linux")
              (pos 4)
              16
              []
            ≡ (ok server, after))
          × (works.stored [] key ≡ none)
          × (works.stored after key ≡ some server)
          × ((m : ℕ) → (m == key) ≡ false → works.stored after m ≡ works.stored [] m)
          × (server.id ≡ some key)
          × (server.hostname ≡ lit "web-1")
          × (server.ip_address ≡ lit "10.0.0.1")
          × (server.operating_system ≡ lit "linux")
          × (server.cpu_cores ≡ pos 4)
          × (server.memory_gb ≡ 16)
          × ((created : ℕ) × (server.created_at ≡ some created))))
    ⊎ ((IsRegistrable ports (lit "web-1") (lit "10.0.0.1") (pos 4) 16
          × (works.taken [] (lit "web-1") (lit "10.0.0.1") ≡ true)
          × ((m : Text) × (register_server ports
                  (lit "web-1")
                  (lit "10.0.0.1")
                  (lit "linux")
                  (pos 4)
                  16
                  []
                ≡ (raise conflict m, []))))
        ⊎ (¬ IsRegistrable ports (lit "web-1") (lit "10.0.0.1") (pos 4) 16
            × ((m : Text) × (register_server ports
                    (lit "web-1")
                    (lit "10.0.0.1")
                    (lit "linux")
                    (pos 4)
                    16
                    []
                  ≡ (raise validation m, [])))))
register_server_lem_example =
    register_server_lem ports works [] (lit "web-1") (lit "10.0.0.1") (lit "linux") (pos 4) 16
