-- ===== src/Access/Instance.antt =====
-- modules/auth/auth-file/AuthFileInstance.cpp: the answer to an authentication request on the bus.
-- Parameters: `localtime` of the C library; `serialize`, the JSON text of a credential for the log,
-- whose library may refuse a text that is not UTF-8; `audit`, the event stored if there is a
-- database, which may fail. The reload task takes what the constructor of the mapper gave.
pub mod Failing
pub mod Answer
use access_control.Prelude.{
  ◌-◌, Bool, true, false, [], ◌∷◌, ◌++◌, Option, none, some, Bytes, bytes_eq, ◌==◌, is_empty, codes,
  Failure, Result, ok, err, undefined_behaviour, bad_frame, ◌>>=◌, ◌>>◌, aborted, if◌then◌else◌,
}
use access_control.Schedule.{TimePoint, Tm}
use access_control.Access.Profile.{Profile, is_access_granted}
use access_control.Access.Mapper.{User, Credential, Mapper, map_to_user, build_profile}
use access_control.Access.Source.{Message, Frame, as_text, create}

pub record AuthFileInstance : Type 0 where
  pub mapper : Mapper
  pub name : Bytes
  pub target_name : Bytes

pub record AuthResult : Type 0 where
  pub success : Bool
  pub user : Option User

pub data AccessStatus : Type 0 where
  granted denied : AccessStatus

-- What the handler does with one message of the bus: an answer is sent under the topic, or a kernel
-- message is consumed, with a reload of the file enqueued or not.
pub data Outcome : Type 0 where
  answer : Bytes → AccessStatus → Outcome
  kernel_message : Bool → Outcome

abbrev pub refused : AuthResult
refused = record { success = false; user = none }

-- An empty target name stands for the default target, the null pointer.
abbrev pub target_of : Bytes → Option Bytes
target_of [] = none
target_of (c ∷ s) = some (c ∷ s)

abbrev pub Audit : Type 0
Audit = Option (Credential → Bytes → Bool → Result (Unit {0}))

abbrev pub store_audit : Audit → Bytes → Credential × AuthResult → Result (Unit {0})
store_audit none target r = ok tt
store_audit (some write) target (c, r) = write c target r.success

-- What `catch (std::exception &)` catches: a failed assertion stops the process.
abbrev pub is_caught : Failure → Bool
is_caught aborted = false
is_caught undefined_behaviour = false
is_caught _ = true

abbrev pub uncaught : Failure → AuthResult → Result AuthResult
uncaught e r = if is_caught e then ok r else err e

-- The `catch` keeps what was assigned before the exception.
abbrev pub caught : Result (Unit {0}) → AuthResult → Result AuthResult
caught (ok _) r = ok r
caught (err e) r = uncaught e r

abbrev pub finish : Audit → Bytes → Result (Credential × AuthResult) → Result AuthResult
finish audit target (err e) = uncaught e refused
finish audit target (ok r) = caught (store_audit audit target r) (r.1)

-- The second frame of a kernel message: SIGHUP reloads the file.
abbrev kernel_command : Message → Result (Option Bool)
kernel_command [] = err bad_frame
kernel_command (f ∷ rest) = do command ← as_text f; ok (some (command == codes "SIGHUP"))

-- The first frame is read as text; reading from an empty message is an exception of zmqpp.
unfoldable handle_kernel_message : Message → Result (Option Bool)
handle_kernel_message [] = err bad_frame
handle_kernel_message (f ∷ rest) = do
  first ← as_text f
  if first == codes "KERNEL" then kernel_command rest else ok none

module _ (localtime : TimePoint → Tm) (serialize : Credential → Result Bytes) (audit : Audit) where
  -- `authres` after the profile was consulted.
  abbrev pub consult : Bytes → TimePoint → Credential → Option Profile → AuthResult
  consult target now c none = refused
  consult target now c (some p) = record {
    success = (is_access_granted localtime p now (target_of target)).0;
    user = c.owner;
  }

  -- The `try` block up to the last assignment of `authres`, with the credential it is about.
  unfoldable pub authenticate :
      AuthFileInstance → TimePoint → Message → Result (Credential × AuthResult)
  authenticate inst now msg = do
    read ← create msg
    let c = map_to_user inst.mapper read
    log ← serialize c
    profile ← build_profile inst.mapper now c
    ok (c, consult inst.target_name now c profile)

  unfoldable pub handle_auth : AuthFileInstance → TimePoint → Message → Result AuthResult
  handle_auth inst now msg = finish audit inst.target_name (authenticate inst now msg)

  abbrev status_of : Bool → AccessStatus
  status_of true = granted
  status_of false = denied

  abbrev reply : AuthFileInstance → TimePoint → Message → Option Bool → Result Outcome
  reply inst now msg (some reload) = ok (kernel_message reload)
  reply inst now msg none = do
    result ← handle_auth inst now msg
    ok (answer (codes "S_" ++ inst.name) (status_of result.success))

  unfoldable pub handle_bus_msg : AuthFileInstance → TimePoint → Message → Result Outcome
  unfolding handle_kernel_message handle_auth authenticate
  handle_bus_msg inst now msg = do kernel ← handle_kernel_message msg; reply inst now msg kernel

-- The reload task swaps the mapper, or reports a failure and keeps the old one.
unfoldable reload_task : AuthFileInstance → Result Mapper → AuthFileInstance × Bool
reload_task inst (ok m) = (record inst { mapper = m }, true)
reload_task inst (err e) = (inst, false)
