-- ===== src/Connector/Ssh/Finishes.antt =====
-- `LinuxSSHConnector._sync_execute` over a command that ends. The measure `left` is what the command
-- has left to do and to print.
use ai_sre_platform_for_auto.Values.{FloatOps}
use ai_sre_platform_for_auto.Common.{ℕ, zero, suc, none, some, true, false, refl, arith}
use ai_sre_platform_for_auto.Connector.Ssh.{Call, Paramiko, Ssh, done, fault}
use ai_sre_platform_for_auto.Connector.Ssh.Channel.{
  Streams, read_if, read_both, wait, drain, collect_output, sync_execute, run_channel, over, go_on,
}
use ai_sre_platform_for_auto.Common.{Bool, Option, inl, inr, ◌≤◌}
use ai_sre_platform_for_auto.Common.{List, ◌≡◌}
use ai_sre_platform_for_auto.Common.{Text, ◌<◌}
use ai_sre_platform_for_auto.Common.{Bool-cases}
use ai_sre_platform_for_auto.Common.{◌⊎◌}
use ai_sre_platform_for_auto.Connector.Ssh.{Fault}
use ai_sre_platform_for_auto.Connector.Ssh.Channel.{unfinished}
use ai_sre_platform_for_auto.Common.{[]}
use ai_sre_platform_for_auto.Connector.Ssh.Channel.{open_channel}

Call-cases :
    {A : Type 0} (r : Call A)
    → ((a : A) × (r ≡ done a)) ⊎ ((k : Fault) × (m : Text) × (r ≡ fault k m))
Call-cases (done a) = inl (a, refl)
Call-cases (fault k m) = inr (k, m, refl)

-- A run that has returned.
abbrev pub Returns : {R W : Type 0} → Option (R × W) → Type 0
Returns {R} {W} o = (r : R) × (w : W) × (o ≡ some (r, w))

module _ {W : Type 0} (left : W → ℕ) where
  -- Reading from a stream that is ready takes something from what is left.
  abbrev pub Spends : (ℕ → W → Bool × W) → (ℕ → W → Call (List ℕ) × W) → Type 0
  Spends ready recv =
      (c : ℕ) (w : W)
      → (left (ready c w).1 ≤ left w)
        × ((ready c w).0 ≡ true → left (recv c (ready c w).1).1 < left (ready c w).1)

  -- A call that leaves no more to do.
  abbrev pub Keeps : {A : Type 0} → (W → A × W) → Type 0
  Keeps call = (w : W) → left (call w).1 ≤ left w

  -- The command ends: a wait for it that fails has brought its end nearer.
  pub record Ends {Float : Type 0} (p : Paramiko W Float) : Type 0 where
    pub waits :
        (c : ℕ) (w : W)
        → (left (p.exit_status_ready c w).1 ≤ left w)
          × ((p.exit_status_ready c w).0 ≡ false → left (p.exit_status_ready c w).1 < left w)
    pub out_spends : Spends p.recv_ready p.recv
    pub err_spends : Spends p.recv_stderr_ready p.recv_stderr
    pub closed_keeps : (c : ℕ) → Keeps (p.closed c)
    pub open_keeps : (transport : ℕ) → Keeps (p.open_session transport)
    pub settimeout_keeps : (c : ℕ) (t : Float) → Keeps (p.settimeout c t)
    pub exec_keeps : (c : ℕ) (command : Text) → Keeps (p.exec_command c command)

  -- A run that has ended, with no more left than in `w`.
  abbrev Ended : {A : Type 0} → W → Option (A × W) → Type 0
  Ended w none = ⊥
  Ended w (some (r, w')) = left w' ≤ left w

  Ended-trans :
      {A : Type 0} (w w' : W) (o : Option (A × W)) → left w' ≤ left w → Ended w' o → Ended w o
  Ended-trans w w' none l e = e
  Ended-trans w w' (some (r, v)) l e = omega arith

  go_on-Keeps :
      {A B : Type 0} (x : Call A × W) (f : A → W → Call B × W) (w : W)
      → left x.1 ≤ left w
      → ((a : A) → Keeps (f a))
      → left (go_on x.0 f x.1).1 ≤ left w
  go_on-Keeps (done a, w') f w l h = let m : left (f a w').1 ≤ left w' = h a w' in omega arith
  go_on-Keeps (fault k m, w') f w l h = l

  unfinished-Returns :
      {A B : Type 0} (o : Option (Call A × W)) (f : A → W → Option (Call B × W)) (w : W)
      → Ended w o
      → ((a : A) (w' : W) → left w' ≤ left w → Returns (f a w'))
      → Returns (unfinished o f)
  unfinished-Returns none f w e h = absurd e
  unfinished-Returns (some (done a, w')) f w e h = h a w' e
  unfinished-Returns (some (fault k m, w')) f w e h = (fault k m, w', refl)

  module _ {Float : Type 0} (p : Paramiko W Float) where
    read_if-Keeps :
        (ready : ℕ → W → Bool × W) (recv : ℕ → W → Call (List ℕ) × W) (c : ℕ) (t : Text) (w : W)
        → Spends ready recv
        → left (read_if p ready recv c t w).1 ≤ left w
    unfolding read_if
    read_if-Keeps ready recv c t w h = elim (Bool-cases (ready c w).0) [
      | inl e ↦
          let (a, b) = h c w in
          let l : left (recv c (ready c w).1).1 < left (ready c w).1 = b e in
          rw (read_if, e) (omega arith)
      | inr e ↦ let (a, b) = h c w in rw (read_if, e) a
    ]

    read_both-Keeps : Ends p → (c : ℕ) (s : Streams) (w : W) → left (read_both p c s w).1 ≤ left w
    unfolding read_both
    read_both-Keeps h c s w =
        go_on-Keeps (read_if p p.recv_ready p.recv c s.out w) _ w
          (read_if-Keeps p.recv_ready p.recv c s.out w h.out_spends)
          (λ text w'.
            go_on-Keeps (read_if p p.recv_stderr_ready p.recv_stderr c s.err w') _ w'
              (read_if-Keeps p.recv_stderr_ready p.recv_stderr c s.err w' h.err_spends)
              (λ more w''. omega arith))

    drain-Ended :
        (ready : ℕ → W → Bool × W) (recv : ℕ → W → Call (List ℕ) × W) (fuel c : ℕ) (t : Text)
        (w : W)
        → Spends ready recv
        → left w < fuel
        → Ended w (drain p ready recv fuel c t w)
    unfolding drain
    drain-Ended ready recv zero c t w h l = absurd (omega arith)
    drain-Ended ready recv (suc fuel) c t w h l = elim (Bool-cases (ready c w).0) [
      | inr e ↦ let (a, b) = h c w in rw (drain, e) a
      | inl e ↦
          let (a, b) = h c w in
          let m : left (recv c (ready c w).1).1 < left (ready c w).1 = b e in
          elim (Call-cases (recv c (ready c w).1).0) [
            | inl (bytes, q) ↦
                rw (drain, e, q)
                  (Ended-trans w (recv c (ready c w).1).1 _ (omega arith)
                    (drain-Ended ready recv fuel c _ _ h (omega arith)))
            | inr (k, message, q) ↦ rw (drain, e, q) (omega arith)
          ]
    ]

    wait-Ended :
        Ends p → (fuel c : ℕ) (s : Streams) (w : W) → left w < fuel → Ended w (wait p fuel c s w)
    unfolding wait
    wait-Ended h zero c s w l = absurd (omega arith)
    wait-Ended h (suc fuel) c s w l = elim (Bool-cases (p.exit_status_ready c w).0) [
      | inl e ↦ let (a, b) = h.waits c w in rw (wait, e) a
      | inr e ↦
          let (a, b) = h.waits c w in
          let m : left (p.exit_status_ready c w).1 < left w = b e in
          let v : W = (read_both p c s (p.exit_status_ready c w).1).1 in
          let n : left v ≤ left (p.exit_status_ready c w).1 = read_both-Keeps h c s _ in
          let o : left (p.closed c v).1 ≤ left v = h.closed_keeps c v in
          elim (Call-cases (read_both p c s (p.exit_status_ready c w).1).0) [
            | inr (k, message, q) ↦ rw (wait, e, q) (omega arith)
            | inl (more, q) ↦ elim (Bool-cases (p.closed c v).0) [
              | inl f ↦ rw (wait, e, q, f) (omega arith)
              | inr f ↦
                  rw (wait, e, q, f)
                    (Ended-trans w (p.closed c v).1 _ (omega arith)
                      (wait-Ended h fuel c more (p.closed c v).1 (omega arith)))
            ]
          ]
    ]

    collect_output-Returns :
        Ends p → (fuel c : ℕ) (w : W) → left w < fuel → Returns (collect_output p fuel c w)
    unfolding collect_output
    collect_output-Returns h fuel c w l =
        unfinished-Returns (wait p fuel c (record { out = []; err = [] }) w) _ w
          (wait-Ended h fuel c _ w l)
          (λ s w₁ l₁.
            unfinished-Returns (drain p p.recv_ready p.recv fuel c s.out w₁) _ w₁
              (drain-Ended p.recv_ready p.recv fuel c _ w₁ h.out_spends (omega arith))
              (λ out w₂ l₂.
                unfinished-Returns (drain p p.recv_stderr_ready p.recv_stderr fuel c s.err w₂) _ w₂
                  (drain-Ended p.recv_stderr_ready p.recv_stderr fuel c _ w₂ h.err_spends
                    (omega arith))
                  (λ err w₃ l₃. (_, _, refl))))

    open_channel-Keeps :
        Ends p
        → (timeout : Float) (command : Text) (transport : ℕ)
        → Keeps (open_channel p timeout command transport)
    open_channel-Keeps h timeout command transport w =
        go_on-Keeps (p.open_session transport w) _ w (h.open_keeps transport w) (λ chan w₁.
          go_on-Keeps (p.settimeout chan timeout w₁) _ w₁ (h.settimeout_keeps chan timeout w₁)
            (λ u w₂.
              go_on-Keeps (p.exec_command chan command w₂) _ w₂ (h.exec_keeps chan command w₂)
                (λ v w₃. omega arith)))

    run_channel-Returns :
        Ends p
        → (fuel : ℕ) (timeout : Float) (command : Text) (transport : ℕ) (w : W) → left w < fuel
        → Returns (run_channel p fuel timeout command transport w)
    run_channel-Returns h fuel timeout command transport w l =
        unfinished-Returns (some (open_channel p timeout command transport w)) _ w
          (open_channel-Keeps h timeout command transport w)
          (λ chan w' l'. collect_output-Returns h fuel chan w' (omega arith))

    over-Returns :
        (floats : FloatOps Float)
        → Ends p
        → (fuel : ℕ) (command : Text) (timeout : Float) (s : Ssh W) (transport : Option ℕ)
        → left s.world < fuel
        → Returns (over floats p fuel command timeout s transport)
    over-Returns floats h fuel command timeout s none l = (_, _, refl)
    over-Returns floats h fuel command timeout s (some transport) l =
        let (r, w, e) = run_channel-Returns h fuel timeout command transport s.world l in
        rw e (_, _, refl)

    -- `_sync_execute` returns or raises where the command ends: where what is left to do and to print
    -- shrinks at every wait that fails and every chunk that is read, and no other call adds to it. A
    -- fuel above what is left at the start is enough.
    pub sync_execute-Returns :
        (floats : FloatOps Float)
        → Ends p
        → (fuel : ℕ) (command : Text) (timeout : Float) (s : Ssh W) → left s.world < fuel
        → Returns (sync_execute floats p fuel command timeout s)
    unfolding sync_execute
    sync_execute-Returns floats h fuel command timeout s l = go s.client refl
      where
        go : (c : Option ℕ) → s.client ≡ c → Returns (sync_execute floats p fuel command timeout s)
        go none e = rw (sync_execute, e) (_, _, refl)
        go (some c) e =
            rw (sync_execute, e)
              (over-Returns floats h fuel command timeout s (p.get_transport c s.world) l)
