-- ===== src/Server/Service/Registration.antt =====
-- What registering a server does, over a working repository.
use ai_sre_platform_for_auto.Common.{ℕ, none, some, ◌++◌, inl, inr, refl, if◌then◌else◌}
use ai_sre_platform_for_auto.Errors.{Result, ok, raise, validation, conflict, ◌>>◌}
use ai_sre_platform_for_auto.Common.{◌==◌}
use ai_sre_platform_for_auto.Server.{Server}
use ai_sre_platform_for_auto.Server as Server
use ai_sre_platform_for_auto.Server.Hostname.{validate_hostname, is_blank}
use ai_sre_platform_for_auto.Server.Service.{
  Ports, is_positive, register_server, check_request, validate_ip, check_cores, check_memory,
  save_new,
}
use ai_sre_platform_for_auto.Common.{Option, Text}
use ai_sre_platform_for_auto.Common.{Bool, ℤ}
use ai_sre_platform_for_auto.Common.{◌≡◌}
use ai_sre_platform_for_auto.Common.{false, ◌⊎◌}
use ai_sre_platform_for_auto.Common.{true}
use ai_sre_platform_for_auto.Common.{Bool-cases}
use ai_sre_platform_for_auto.Common.{arith, lit, ltb}
use ai_sre_platform_for_auto.Common.{length}
use ai_sre_platform_for_auto.Server.Hostname.{hostname_matches}

-- What a server that was saved keeps of the one that is given: the database sets its key and dates.
pub record Files {Float : Type 0} (given kept : Server Float) (key : ℕ) : Type 0 where
  pub id : kept.id ≡ some key
  pub hostname : kept.hostname ≡ given.hostname
  pub ip_address : kept.ip_address ≡ given.ip_address
  pub operating_system : kept.operating_system ≡ given.operating_system
  pub cpu_cores : kept.cpu_cores ≡ given.cpu_cores
  pub memory_gb : kept.memory_gb ≡ given.memory_gb
  pub dated :
      (created updated : ℕ) × (kept.created_at ≡ some created) × (kept.updated_at ≡ some updated)

-- What `ServerService` relies on in its repository while the database works. `taken` is whether a
-- stored server has the name or the address.
pub record Works {S Float : Type 0} (ports : Ports S Float) : Type 0 where
  pub stored : S → ℕ → Option (Server Float)
  pub taken : S → Text → Text → Bool
  pub reads_exists : (s : S) (h ip : Text) → ports.exists h ip s ≡ (ok (taken s h ip), s)
  pub fresh : S → ℕ
  pub filed : S → Server Float → Server Float
  pub after : S → Server Float → S
  pub fresh_unused : (s : S) → stored s (fresh s) ≡ none
  -- a server without a key, whose name and address are not taken, is stored under an unused key
  pub saves :
      (s : S) (e : Server Float)
      → e.id ≡ none
      → taken s e.hostname e.ip_address ≡ false
      → ports.repository.save e s ≡ (ok (filed s e), after s e)
  pub files : (s : S) (e : Server Float) → e.id ≡ none → Files e (filed s e) (fresh s)
  pub stores :
      (s : S) (e : Server Float) (m : ℕ)
      → e.id ≡ none
      → stored (after s e) m ≡ (if m == fresh s then some (filed s e) else stored s m)

taken_message : Text → Text → Text
taken_message hostname ip =
    lit "A server with hostname '"
    ++ (hostname ++ (lit "' or IP '" ++ (ip ++ lit "' already exists.")))

-- A check passes exactly where `P` holds, and else raises ValidationError.
abbrev pub Checks : Type 0 → Result (Unit {0}) → Type 0
Checks P r = (P × (r ≡ ok tt)) ⊎ (¬ P × ((m : Text) × (r ≡ raise validation m)))

Checks-both :
    {P Q : Type 0} (r q : Result (Unit {0})) → Checks P r → Checks Q q → Checks (P × Q) (r >> q)
Checks-both r q (inr (n, (m, e))) c = inr (λ (p, x). n p, (m, rw e refl))
Checks-both r q (inl (p, e)) (inl (x, f)) = inl ((p, x), rw e f)
Checks-both r q (inl (p, e)) (inr (n, (m, f))) = inr (λ (y, x). n x, (m, rw e f))

Checks-if : (b : Bool) (m : Text) → Checks (b ≡ true) (if b then ok tt else raise validation m)
Checks-if true m = inl (refl, refl)
Checks-if false m = inr (λ h. ground arith, (m, refl))

Checks-unless : (b : Bool) (m : Text) → Checks (b ≡ false) (if b then raise validation m else ok tt)
Checks-unless false m = inl (refl, refl)
Checks-unless true m = inr (λ h. ground arith, (m, refl))

Checks-unless-if :
    (b c : Bool) (m n : Text)
    → Checks
        ((b ≡ false) × (c ≡ true))
        (if b then raise validation m else if c then ok tt else raise validation n)
Checks-unless-if true c m n = inr (λ (h, g). ground arith, (m, refl))
Checks-unless-if false true m n = inl ((refl, refl), refl)
Checks-unless-if false false m n = inr (λ (h, g). ground arith, (n, refl))

raised :
    (a b c : Bool) (k m n : Text)
    → let r =
        if a
        then raise validation k
        else if b
        then raise validation m
        else if c
        then ok tt
        else raise validation n in
      Checks (r ≡ ok tt) r
raised true b c k m n = inr (λ h. ground arith, (k, refl))
raised false true c k m n = inr (λ h. ground arith, (m, refl))
raised false false false k m n = inr (λ h. ground arith, (n, refl))
raised false false true k m n = inl (refl, refl)

-- `validate_hostname` raises ValidationError or nothing.
validate_hostname-Checks : (h : Text) → Checks (validate_hostname h ≡ ok tt) (validate_hostname h)
unfolding validate_hostname
validate_hostname-Checks h = raised (is_blank h) (ltb 253 (length h)) (hostname_matches h) _ _ _

module _ {S Float : Type 0} (ports : Ports S Float) where
  -- what `ServerService` asks of a request
  abbrev pub IsRegistrable : Text → Text → ℤ → Float → Type 0
  IsRegistrable hostname ip cores memory =
      (validate_hostname hostname ≡ ok tt)
      × (((is_blank ip ≡ false) × (ports.is_ip ip ≡ true))
          × ((is_positive cores ≡ true) × (ports.at_most_zero memory ≡ false)))

  check_request-Checks :
      (hostname ip : Text) (cores : ℤ) (memory : Float)
      → Checks
          (IsRegistrable hostname ip cores memory)
          (check_request ports hostname ip cores memory)
  unfolding check_request validate_ip check_cores check_memory
  check_request-Checks hostname ip cores memory =
      Checks-both (validate_hostname hostname) _ (validate_hostname-Checks hostname) (
        Checks-both _ _ (Checks-unless-if (is_blank ip) (ports.is_ip ip) _ _) (
          Checks-both _ _ (Checks-if (is_positive cores) _)
            (Checks-unless (ports.at_most_zero memory) _)))

module _ {S Float : Type 0} (ports : Ports S Float) (works : Works ports) where
  -- Registering stores a server under an unused key and returns it, and leaves every other server as
  -- it was, if the request is registrable and neither its name nor its address is taken: the
  -- server has the name, address, system, cores and memory of the request, and the dates of the
  -- database. Else nothing is written, and the error is ConflictError for a registrable request and
  -- ValidationError for another.
  pub register_server_lem :
      (s : S) (hostname ip os : Text) (cores : ℤ) (memory : Float)
      → (IsRegistrable ports hostname ip cores memory
          × (works.taken s hostname ip ≡ false)
          × ((key : ℕ) × (server : Server Float) × (after : S) × (register_server ports hostname ip
                  os cores memory s
                ≡ (ok server, after))
              × (works.stored s key ≡ none)
              × (works.stored after key ≡ some server)
              × ((m : ℕ) → (m == key) ≡ false → works.stored after m ≡ works.stored s m)
              × (server.id ≡ some key)
              × (server.hostname ≡ hostname)
              × (server.ip_address ≡ ip)
              × (server.operating_system ≡ os)
              × (server.cpu_cores ≡ cores)
              × (server.memory_gb ≡ memory)
              × ((created : ℕ) × (server.created_at ≡ some created))))
        ⊎ ((IsRegistrable ports hostname ip cores memory
              × (works.taken s hostname ip ≡ true)
              × ((m : Text) × (register_server ports hostname ip os cores memory s
                    ≡ (raise conflict m, s))))
            ⊎ (¬ IsRegistrable ports hostname ip cores memory
                × ((m : Text) × (register_server ports hostname ip os cores memory s
                      ≡ (raise validation m, s)))))
  unfolding register_server save_new taken_message Server.create
  register_server_lem s hostname ip os cores memory =
      elim (check_request-Checks ports hostname ip cores memory) [
        | inr (n, (m, e)) ↦ inr (inr (n, (m, rw e refl)))
        | inl (g, e) ↦ elim (Bool-cases (works.taken s hostname ip)) [
          | inl t ↦ inr (
              inl (
                g,
                t,
                (
                  taken_message hostname ip,
                  rw e (rw (works.reads_exists s hostname ip) (rw t refl)),
                ),
              ))
          | inr f ↦
              let server = Server.create hostname ip os cores memory in
              let file = works.files s server refl in
              inl (
                g,
                f,
                (
                  works.fresh s,
                  works.filed s server,
                  works.after s server,
                  rw e (rw (works.reads_exists s hostname ip) (rw f (works.saves s server refl f))),
                  works.fresh_unused s,
                  rw (works.stores s server (works.fresh s) refl) (ground arith),
                  λ m other. rw (works.stores s server m refl, other) refl,
                  file.id,
                  file.hostname,
                  file.ip_address,
                  file.operating_system,
                  file.cpu_cores,
                  file.memory_gb,
                  (file.dated.0, file.dated.2),
                ),
              )
        ]
      ]
