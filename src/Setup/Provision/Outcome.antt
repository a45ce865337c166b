-- ===== src/Setup/Provision/Outcome.antt =====
-- What `provision` of pc/src/pywinhello/setup/__init__.py reports.
use pywinhello.Models.{BoardVariant}
use pywinhello.Prelude.{
  Option, [], ap, arith, false, inl, inr, none, refl, some, subst, sym, true, ◌∙◌, ◌≡◌, ◌≢◌, ◌⊎◌,
}
use pywinhello.Prelude.Dict.{get_or}
use pywinhello.Prelude.Exec.{>>=-cases, Exec, attempt, attempt-cases, ◌>>=◌}
use pywinhello.Prelude.Result.{Error, Result, err, ok, ok-injective}
use pywinhello.Prelude.Text.{Text}
use pywinhello.Serial.Link
use pywinhello.Serial.Link.{SerialProtocol, close, open_protocol}
use pywinhello.Serial.Port.{ComPort, Pyserial}
use pywinhello.Serial.Protocol.{PingInfo}
use pywinhello.Setup.{
  DetectedDevice, Media, SetupState, after_close, bootsel, bootsel_device, detect, detect_by,
  detect_serial, find_bootsel_drive, not_found, ping_and_close, probe_best, probe_port,
  running_pywinhello, serial_device, setup_port, unknown_firmware,
}
use pywinhello.Setup.Provision.{
  ProvisionResult, flash_board, flash_uf2, get_firmware_path, provision, provision_bootsel,
  provision_for, refusal, report, searched, verdict_of,
}

module _ (W : Pyserial) where
  -- Where `m` returns, its result has the property, in the state after it.
  record Yields {A : Type 0} (m : Exec W.State A) (P : A → W.State → Type 0) : Type 0 where
    at : (s : W.State) (a : A) → (m s).0 ≡ ok a → P a (m s).1

  Yields-bind :
      {A B : Type 0} (m : Exec W.State A) (f : A → Exec W.State B) (P : A → W.State → Type 0)
      (Q : B → W.State → Type 0)
      → Yields m P
      → ((a : A) (s : W.State) → P a s → (b : B) → (f a s).0 ≡ ok b → Q b (f a s).1)
      → Yields (m >>= f) Q
  Yields-bind m f P Q hm hf = record {
    at = λ s b e. elim (>>=-cases m f s) [
      | inl (a, p, q) ↦
          subst (λ r. Q b r.1) (sym q) (hf a (m s).1 (hm.at s a p) b (ap (λ r. r.0) (sym q) ∙ e))
      | inr (c, p, q) ↦ absurd (ground (arith, ap (λ r. r.0) q))
    ];
  }

  Yields-any : {A : Type 0} (m : Exec W.State A) → Yields m (λ a s. Unit {0})
  Yields-any m = record { at = λ s a e. tt }

  Yields-attempt :
      {A : Type 0} (m : Exec W.State A) (h : Error → Exec W.State A) (P : A → W.State → Type 0)
      → Yields m P
      → ((e : Error) → Yields (h e) P)
      → Yields (attempt m h) P
  Yields-attempt m h P hm hh = record {
    at = λ s b e. elim (attempt-cases m h s) [
      | inl (a, p, q) ↦ subst (λ r. P b r.1) (sym q) (hm.at s b (p ∙ (ap (λ r. r.0) (sym q) ∙ e)))
      | inr (c, p, q) ↦
          subst (λ r. P b r.1) (sym q) ((hh c).at (m s).1 b (ap (λ r. r.0) (sym q) ∙ e))
    ];
  }

  -- A port was opened and answered a PING with this, and nothing happened since but that it was closed.
  abbrev pub Answered : PingInfo → W.State → Type 0
  Answered info s =
      (name : Text) × (t : W.State) × (proto : SerialProtocol W) × ((open_protocol W name 115200
          t).0
        ≡ ok proto)
      × ((Link.ping W proto (open_protocol W name 115200 t).1).0 ≡ ok info)
      × (s ≡ (close W proto (Link.ping W proto (open_protocol W name 115200 t).1).1).1)

  -- The version is that of such an answer.
  abbrev pub IsAnswered : Option Text → W.State → Type 0
  IsAnswered version s =
      (info : PingInfo) × Answered info s × (version ≡ some info.firmware_version)

  -- A device that runs the program's firmware is reported with its version.
  IsVersioned : DetectedDevice → W.State → Type 0
  IsVersioned d s = (d.state ≢ running_pywinhello) ⊎ IsAnswered d.firmware_version s

  after_close-ok :
      (r : Result PingInfo) (c : Result (Unit {0})) (info : PingInfo)
      → after_close W r c ≡ ok info
      → r ≡ ok info
  unfolding after_close
  after_close-ok r (ok u) info h = h
  after_close-ok r (err e) info h = cc

  probe_port-Answered : (name : Text) → Yields (probe_port W name) Answered
  unfolding probe_port ping_and_close
  probe_port-Answered name = record {
    at = λ s info e. elim (>>=-cases (open_protocol W name 115200) (ping_and_close W) s) [
      | inl (proto, p, q) ↦
          (name, s, proto, p, after_close-ok _ _ info (ap (λ r. r.0) (sym q) ∙ e), ap (λ r. r.1) q)
      | inr (c, p, q) ↦ absurd (ground (arith, ap (λ r. r.0) q))
    ];
  }

  serial_device-IsVersioned : (best : ComPort) → Yields (serial_device W best) IsVersioned
  unfolding serial_device IsVersioned
  serial_device-IsVersioned best =
      Yields-attempt _ _ IsVersioned
        (Yields-bind (probe_port W best.device) _ Answered IsVersioned
          (probe_port-Answered best.device)
          (λ i s t d e. subst (λ x. IsVersioned x s) (ok-injective e) (inr (i, t, refl))))
        (λ e. record {
          at = λ s d h. subst (λ x. IsVersioned x s) (ok-injective h) (inl (λ n. cc));
        })

  probe_best-IsVersioned : (best : Option ComPort) → Yields (probe_best W best) IsVersioned
  unfolding probe_best IsVersioned
  probe_best-IsVersioned none = record {
    at = λ s d h. subst (λ x. IsVersioned x s) (ok-injective h) (inl (λ n. cc));
  }
  probe_best-IsVersioned (some best) = serial_device-IsVersioned best

  module _ (M : Media W) where
    detect_by-IsVersioned : (drive : Option Text) → Yields (detect_by W M drive) IsVersioned
    unfolding detect_by IsVersioned bootsel_device detect_serial
    detect_by-IsVersioned (some drive) = record {
      at = λ s a e. subst (λ d. IsVersioned d s) (ok-injective e) (inl (λ h. cc));
    }
    detect_by-IsVersioned none = record {
      at = λ s a e.
          (Yields-bind W.comports _ _ IsVersioned (Yields-any W.comports)
              (λ ports t u. (probe_best-IsVersioned (setup_port ports)).at t)).at
            s a e;
    }

    detect-IsVersioned : Yields (detect W M) IsVersioned
    unfolding detect
    detect-IsVersioned = record {
      at = λ s a e. (detect_by-IsVersioned (find_bootsel_drive W M s)).at s a e;
    }

    -- A result of `provision` that is a success names the firmware it found.
    IsHonest : ProvisionResult → W.State → Type 0
    IsHonest r s =
        (r.success ≡ false) ⊎ ((r.state ≡ running_pywinhello) × IsAnswered r.firmware_version s)

    verdict-IsHonest :
        (b : BoardVariant) (d : DetectedDevice) (s : W.State)
        → IsVersioned d s
        → IsHonest (verdict_of W b d) s
    unfolding IsHonest IsVersioned verdict_of report refusal
    verdict-IsHonest b d s (inl n) = by_state d.state refl
      where
        by_state : (state : SetupState) → d.state ≡ state → IsHonest (verdict_of W b d) s
        by_state not_found e = rw e (inl refl)
        by_state bootsel e = rw e (inl refl)
        by_state unknown_firmware e = rw e (inl refl)
        by_state running_pywinhello e = absurd (n e)
    verdict-IsHonest b d s (inr a) = by_state d.state refl
      where
        by_state : (state : SetupState) → d.state ≡ state → IsHonest (verdict_of W b d) s
        by_state not_found e = rw e (inl refl)
        by_state bootsel e = rw e (inl refl)
        by_state unknown_firmware e = rw e (inl refl)
        by_state running_pywinhello e = rw e (inr (refl, a))

    flash_board-IsHonest :
        (b : BoardVariant) (drive path : Option Text)
        → Yields (flash_board W M b drive path) IsHonest
    unfolding flash_board IsHonest refusal
    flash_board-IsHonest b drive none = record {
      at = λ s r h. subst (λ x. IsHonest x s) (ok-injective h) (inl refl);
    }
    flash_board-IsHonest b drive (some path) =
        Yields-bind (flash_uf2 W M (get_or drive []) path) _ _ IsHonest (Yields-any _)
          (λ copied t u.
            (Yields-bind (detect W M) _ IsVersioned IsHonest detect-IsVersioned (λ d s v r e.
                subst (λ x. IsHonest x s) (ok-injective e) (verdict-IsHonest b d s v))).at
              t)

    bootsel-IsHonest :
        (dir : Option Text) (d : DetectedDevice) (b : Option BoardVariant) (s : W.State)
        (r : ProvisionResult)
        → d.board ≡ b
        → (provision_bootsel W M dir d s).0 ≡ ok r
        → IsHonest r (provision_bootsel W M dir d s).1
    unfolding provision_bootsel IsHonest refusal
    bootsel-IsHonest dir d none s r e h = inl (ground arith)
    bootsel-IsHonest dir d (some b) s r e h = rw e (
        (flash_board-IsHonest b d.drive (get_firmware_path W M b (searched W dir) s)).at s r
          (rw e at h))

    for-IsHonest :
        (dir : Option Text) (d : DetectedDevice) (state : SetupState)
        → d.state ≡ state
        → (s : W.State) → IsVersioned d s
        → (r : ProvisionResult) → (provision_for W M dir d state s).0 ≡ ok r
        → IsHonest r (provision_for W M dir d state s).1
    unfolding provision_for IsHonest IsVersioned refusal report
    for-IsHonest dir d not_found e s v r h = subst (λ x. IsHonest x s) (ok-injective h) (inl refl)
    for-IsHonest dir d unknown_firmware e s v r h =
        subst (λ x. IsHonest x s) (ok-injective h) (inl refl)
    for-IsHonest dir d running_pywinhello e s v r h = elim v [
      | inl n ↦ absurd (n e)
      | inr a ↦ subst (λ x. IsHonest x s) (ok-injective h) (inr (e, a))
    ]
    for-IsHonest dir d bootsel e s v r h = bootsel-IsHonest dir d d.board s r refl h

    -- A set-up that reports success has found the program's firmware running: a port that was opened answered a
    -- PING with the version that the result names, and nothing happened after that but that the port
    -- was closed.
    pub provision_success :
        (dir : Option Text) (s : W.State) (r : ProvisionResult)
        → (provision W M dir s).0 ≡ ok r
        → r.success ≡ true
        → (r.state ≡ running_pywinhello) × IsAnswered r.firmware_version (provision W M dir s).1
    unfolding provision IsHonest
    provision_success dir s r h k =
        elim ((Yields-bind (detect W M) _ IsVersioned IsHonest detect-IsVersioned
            (λ d t v. for-IsHonest dir d d.state refl t v)).at
          s r h) [ inl f ↦ absurd (ground arith) | inr t ↦ t ]

    for_untouched :
        (dir : Option Text) (d : DetectedDevice) (state : SetupState) (s : W.State)
        → state ≢ bootsel
        → (provision_for W M dir d state s).1 ≡ s
    unfolding provision_for
    for_untouched dir d not_found s n = refl
    for_untouched dir d unknown_firmware s n = refl
    for_untouched dir d running_pywinhello s n = refl
    for_untouched dir d bootsel s n = absurd (n refl)

    -- Unless the detection finds a Pico in BOOTSEL mode, the set-up does nothing after it: no file is
    -- copied and no port is opened again.
    pub provision_untouched :
        (dir : Option Text) (s : W.State) (d : DetectedDevice)
        → (detect W M s).0 ≡ ok d
        → d.state ≢ bootsel
        → (provision W M dir s).1 ≡ (detect W M s).1
    unfolding provision
    provision_untouched dir s d h n =
        elim (>>=-cases (detect W M) (λ e. provision_for W M dir e e.state) s) [
          | inl (e, p, q) ↦
              let same : e ≡ d = ok-injective (sym p ∙ h) in
              ap (λ r. r.1) q
              ∙ for_untouched dir e e.state (detect W M s).1
                  (λ k. n (ap (λ x. x.state) (sym same) ∙ k))
          | inr (c, p, q) ↦ absurd (ground arith)
        ]
