-- ===== src/Connector/Ssh/Retries.antt =====
-- What `LinuxSSHConnector.connect` and `disconnect` do to the connector, whatever paramiko answers.
use ai_sre_platform_for_auto.Common.{ℕ, zero, suc, none, some, true, false, refl, arith}
use ai_sre_platform_for_auto.Errors.{
  Kind, Result, ok, raise, authentication_failed, connection_failed, connector_timeout,
}
use ai_sre_platform_for_auto.Connector.Ssh.{
  Config, Paramiko, Ssh, attempts, connect, disconnect, gave_up, is_connected, pause, permanent,
  sync_connect, Call, done, fault,
}
use ai_sre_platform_for_auto.Common.{Option, ◌+◌, ◌≡◌}
use ai_sre_platform_for_auto.Common.{Text}
use ai_sre_platform_for_auto.Common.{Bool-cases, inl, inr}
use ai_sre_platform_for_auto.Common.{◌≤◌}
use ai_sre_platform_for_auto.Connector.Ssh.{settled}
use ai_sre_platform_for_auto.Common.{◌⊎◌}
use ai_sre_platform_for_auto.Connector.Ssh.{keyed}
use ai_sre_platform_for_auto.Connector.Ssh.{dialled}
use ai_sre_platform_for_auto.Errors.{is_instance}
use ai_sre_platform_for_auto.Common.{◌∙◌}
use ai_sre_platform_for_auto.Connector.Ssh.{closing}

-- The exceptions of `connect` that a caller may meet.
abbrev pub IsConnectError : Kind → Type 0
IsConnectError k = (k ≡ authentication_failed) ⊎ (k ≡ connector_timeout) ⊎ (k ≡ connection_failed)

module _ {W Float : Type 0} (p : Paramiko W Float) (config : Config Float) where
  -- A run of the retry loop that leaves `unused` attempts and makes `used`: each but the last fails
  -- in a way that another attempt may mend and is followed by a pause; the last one connects, or
  -- fails for good, or is the last allowed.
  pub data Tried : ℕ → ℕ → Ssh W → Result (Unit {0}) × Ssh W → Type 0 where
    connects :
        {unused : ℕ} {s s' : Ssh W}
        → sync_connect p config s ≡ (ok tt, s')
        → Tried unused 1 s (ok tt, record s' { connected = true })
    refused :
        {unused : ℕ} {s s' : Ssh W} {k : Kind} {m : Text}
        → sync_connect p config s ≡ (raise k m, s')
        → permanent k ≡ true
        → Tried unused 1 s (raise k m, s')
    gives_up :
        {s s' : Ssh W} {k : Kind} {m : Text}
        → sync_connect p config s ≡ (raise k m, s')
        → permanent k ≡ false
        → Tried 0 1 s (raise connection_failed (gave_up config (some m)), s')
    again :
        {unused used : ℕ} {s s' : Ssh W} {k : Kind} {m : Text} {r : Result (Unit {0}) × Ssh W}
        → sync_connect p config s ≡ (raise k m, s')
        → permanent k ≡ false
        → Tried unused used (record s' { world = p.sleep config.retry_delay s'.world }) r
        → Tried unused (suc used) s r

  abbrev Within : ℕ → Ssh W → Result (Unit {0}) × Ssh W → Type 0
  Within left s r = (unused : ℕ) × (used : ℕ) × (unused + used ≡ left) × Tried unused used s r

  settled-Within :
      (left : ℕ) (s : Ssh W) (x : Result (Unit {0}) × Ssh W)
      → sync_connect p config s ≡ x
      → ((m : Text) (s' : Ssh W) (left' : ℕ)
          → left ≡ suc left'
          → Within left s' (attempts p config left (some m) s'))
      → Within (suc left) s (settled p config (attempts p config left) left x)
  unfolding attempts settled
  settled-Within left s (ok _, s') e h = (left, 1, omega arith, connects e)
  settled-Within zero s (raise k m, s') e h = elim (Bool-cases (permanent k)) [
    | inl t ↦ rw (settled, t) (zero, 1, refl, refused e t)
    | inr f ↦ rw (settled, f) (zero, 1, refl, gives_up e f)
  ]
  settled-Within (suc left) s (raise k m, s') e h = elim (Bool-cases (permanent k)) [
    | inl t ↦ rw (settled, t) (suc left, 1, omega arith, refused e t)
    | inr f ↦
        let (unused, used, sum, tried) = h m (pause p config (suc left) s') left refl in
        rw (settled, f) (unused, suc used, omega arith, again e f tried)
  ]

  attempts-Within :
      (left : ℕ) (last : Option Text) (s : Ssh W)
      → Within (suc left) s (attempts p config (suc left) last s)
  unfolding attempts settled
  attempts-Within zero last s =
      settled-Within zero s (sync_connect p config s) refl (λ m s' l e. absurd (omega arith))
  attempts-Within (suc left) last s =
      settled-Within (suc left) s (sync_connect p config s) refl
        (λ m s' l e. attempts-Within left (some m) s')

  allowed-Within :
      (n : ℕ) (last : Option Text) (s : Ssh W) → 1 ≤ n → Within n s (attempts p config n last s)
  allowed-Within zero last s l = absurd (omega arith)
  allowed-Within (suc n) last s l = attempts-Within n last s

  -- A `connect` that is allowed at least one attempt, on a connector that is not connected, is a run
  -- of the retry loop as `Tried` describes it, which makes as many attempts as are allowed less those
  -- it leaves.
  pub connect-Tried :
      (s : Ssh W)
      → is_connected p config s ≡ false
      → 1 ≤ config.retries
      → (unused : ℕ) × (used : ℕ) × (unused + used ≡ config.retries)
        × Tried unused used s (connect p config s)
  unfolding connect
  connect-Tried s h l = rw (connect, h) (allowed-Within config.retries none s l)

  -- Where `connect` starts from the client and the flag of `s`.
  abbrev pub Settles : Ssh W → Result (Unit {0}) × Ssh W → Type 0
  Settles s (ok _, s') = (s'.connected ≡ true) × (c : ℕ) × (s'.client ≡ some c)
  Settles s (raise k m, s') =
      IsConnectError k × (s'.client ≡ s.client) × (s'.connected ≡ s.connected)

  -- One attempt sets the client, or changes nothing of the connector.
  abbrev Attempted : Ssh W → Result (Unit {0}) × Ssh W → Type 0
  Attempted s (ok _, s') = (c : ℕ) × (s'.client ≡ some c)
  Attempted s (raise k m, s') = (s'.client ≡ s.client) × (s'.connected ≡ s.connected)

  keyed-Attempted :
      (client : ℕ) (s : Ssh W) (r : Result (Option ℕ)) (w : W)
      → Attempted s (keyed p config client r (record s { world = w }))
  keyed-Attempted client s (raise k m) w = (refl, refl)
  keyed-Attempted client s (ok key) w = go (p.client_connect client config key w)
    where
      go :
          (x : Call (Unit {0}) × W)
          → Attempted s (dialled p config client x.0 (record s { world = x.1 }))
      go (done _, w') = (client, refl)
      go (fault f m, w') = (refl, refl)

  sync_connect-Attempted : (s : Ssh W) → Attempted s (sync_connect p config s)
  unfolding sync_connect
  sync_connect-Attempted s = keyed-Attempted _ s _ _

  attempt-of :
      (s : Ssh W) (x : Result (Unit {0}) × Ssh W) → sync_connect p config s ≡ x → Attempted s x
  attempt-of s x e = rw⁻¹ e (sync_connect-Attempted s)

  permanent-lem :
      (k : Kind) → permanent k ≡ true → (k ≡ authentication_failed) ⊎ (k ≡ connector_timeout)
  unfolding is_instance
  permanent-lem k e = ground arith

  permanent-IsConnectError : (k : Kind) → permanent k ≡ true → IsConnectError k
  permanent-IsConnectError k t = elim (permanent-lem k t) [ inl a ↦ inl a | inr b ↦ inr (inl b) ]

  from-Settles :
      (s s' : Ssh W) (r : Result (Unit {0}) × Ssh W)
      → s'.client ≡ s.client
      → s'.connected ≡ s.connected
      → Settles s' r
      → Settles s r
  from-Settles s s' (ok _, q) c d h = h
  from-Settles s s' (raise k m, q) c d (i, e, f) = (i, e ∙ c, f ∙ d)

  Tried-Settles :
      {unused used : ℕ} {s : Ssh W} {r : Result (Unit {0}) × Ssh W}
      → Tried unused used s r
      → Settles s r
  Tried-Settles (connects e) = let (c, h) = attempt-of _ _ e in (refl, c, h)
  Tried-Settles (refused {k = k} e t) =
      let (c, d) = attempt-of _ _ e in (permanent-IsConnectError k t, c, d)
  Tried-Settles (gives_up e f) = let (c, d) = attempt-of _ _ e in (inr (inr refl), c, d)
  Tried-Settles {s = s} (again {s' = s'} e f tried) =
      let (c, d) = attempt-of _ _ e in
      from-Settles s (pause p config 1 s') _ c d (Tried-Settles tried)

  allowed-Settles : (n : ℕ) (s : Ssh W) → Settles s (attempts p config n none s)
  unfolding attempts
  allowed-Settles zero s = (inr (inr refl), refl, refl)
  allowed-Settles (suc n) s =
      let (unused, used, sum, tried) = attempts-Within n none s in Tried-Settles tried

  -- On a connector that is not connected, `connect` returns with the flag set and a client at hand, or
  -- it raises AuthenticationFailedError, ConnectorTimeoutError or ConnectionFailedError, and then the
  -- client and the flag are as they were.
  pub connect-Settles :
      (s : Ssh W) → is_connected p config s ≡ false → Settles s (connect p config s)
  unfolding connect
  connect-Settles s h = rw (connect, h) (allowed-Settles config.retries s)

  pub closing-closed :
      (o : Option ℕ) (s : Ssh W)
      → s.client ≡ o
      → is_connected p config (closing p config o s) ≡ false
  unfolding is_connected
  closing-closed none s e = elim (Bool-cases s.connected) [
    | inl t ↦ rw (is_connected, t, e) refl
    | inr f ↦ rw (is_connected, f) refl
  ]
  closing-closed (some c) s e = refl

  -- After `disconnect`, which raises nothing, the connector is not connected, whatever the state was
  -- and whether or not closing the client raised.
  pub disconnect-closes :
      (s : Ssh W)
      → ((disconnect p config s).0 ≡ ok tt)
        × (is_connected p config (disconnect p config s).1 ≡ false)
  unfolding disconnect is_connected
  disconnect-closes s = (refl, closing-closed s.client s refl)
