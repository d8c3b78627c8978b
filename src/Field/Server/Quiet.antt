-- ===== src/Field/Server/Quiet.antt =====
-- The faults of src/twin/field/faults.py as the servers of src/twin/field/servers/servers.py ask for them, where none
-- is active that concerns a read.
use data_gateway.Base.{
  ℕ, String, ◌≡◌, refl, ap, ◌∙◌, inl, inr, Bool, true, false, not, none, [], ◌∷◌, Bool-cases, keep,
}
use data_gateway.Base.Dict.{Dict}
use data_gateway.Base.Key.{ℕ_key}
use data_gateway.Modbus.Outcome.{ok}
use data_gateway.Field.Faults.{Fault, FaultManager, is_expired, active, first_of, find}
use data_gateway.Field.Server.{has_fault, apply_device_faults, crc_corrupt}

-- No fault of this type is active for this target.
abbrev pub IsFree : ℕ → String → String → FaultManager → Type 0
IsFree now type target m = (find now type target m).0 ≡ none

-- No fault of the bus or of the device is active; others may be.
pub record IsQuiet (now : ℕ) (bus device : String) (m : FaultManager) : Type 0 where
  pub whole_bus : IsFree now "bus_cut" bus m
  pub connected : IsFree now "sensor_disconnect" device m
  pub fast : IsFree now "sensor_delay" device m
  pub intact : IsFree now "crc_error" device m

keep_twice :
    (now : ℕ) (fs : Dict ℕ Fault)
    → let p = λ (e : ℕ × Fault). not (is_expired now e.1) in keep p (keep p fs) ≡ keep p fs
keep_twice now [] = refl
keep_twice now ((n, f) ∷ fs) =
    let rest = keep_twice now fs in
    elim (Bool-cases (not (is_expired now f))) [
      | inl lives ↦ rw (lives, lives) (ap (λ t. (n, f) ∷ t) rest)
      | inr over ↦ rw over rest
    ]

-- Looking for one fault does not change what is found next.
find-active :
    (now : ℕ) (type target : String) (m : FaultManager)
    → (find now type target (active now m)).0 ≡ (find now type target m).0
unfolding find active
find-active now type target m = ap (first_of type target) (keep_twice now m.faults)

IsFree-after :
    (now : ℕ) (type target other place : String) (m : FaultManager)
    → IsFree now type target m
    → IsFree now type target (find now other place m).1
unfolding find
IsFree-after now type target other place m h = find-active now type target m ∙ h

pub has_fault-IsFree :
    (now : ℕ) (type target other place : String) (m : FaultManager)
    → IsFree now type target m
    → IsFree now type target (has_fault now other place m).1
unfolding has_fault
has_fault-IsFree now type target other place m h = IsFree-after now type target other place m h

pub has_fault-none :
    (now : ℕ) (type target : String) (m : FaultManager)
    → IsFree now type target m
    → (has_fault now type target m).0 ≡ false
unfolding has_fault
has_fault-none now type target m h = rw (has_fault, h) refl

pub apply_device_faults-IsFree :
    (reads : String → Bool) (now : ℕ) (type target code : String) (m : FaultManager)
    → IsFree now "sensor_disconnect" code m
    → IsFree now "sensor_delay" code m
    → IsFree now type target m
    → ((apply_device_faults reads now code m).0 ≡ ok true)
      × IsFree now type target (apply_device_faults reads now code m).1
unfolding apply_device_faults
apply_device_faults-IsFree reads now type target code m here fast h =
    let m₁ = (has_fault now "sensor_disconnect" code m).1 in
    let connected = has_fault-none now "sensor_disconnect" code m here in
    let soon = has_fault-IsFree now "sensor_delay" code "sensor_disconnect" code m fast in
    let left = has_fault-IsFree now type target "sensor_disconnect" code m h in
    (
      rw (apply_device_faults, connected, soon) refl,
      rw (apply_device_faults, connected, soon)
          (IsFree-after now type target "sensor_delay" code m₁ left),
    )

pub crc_corrupt-IsFree :
    (reads : String → Bool) (now : ℕ) (code : String) (unlucky : Bool) (m : FaultManager)
    → IsFree now "crc_error" code m
    → (crc_corrupt reads now code unlucky m).0 ≡ ok false
unfolding crc_corrupt
crc_corrupt-IsFree reads now code unlucky m h = rw (crc_corrupt, h) refl
