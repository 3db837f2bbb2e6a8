-- ===== src/Lifecycle.antt =====
-- The life of the node (`AppState` of src/utils.rs and src/routes.rs, `stop_ldk` of src/ldk.rs,
-- `wait_state_change` of src/main.rs): locked or unlocked, and the flag of a change under way.
pub mod Storage
pub mod Races
pub mod Passwords
use f1r3fly_rgb_lightning_no.Common.{Bool, true, false, Option, none, some, is_some, Bytes}
use f1r3fly_rgb_lightning_no.Error.{ApiError}
use f1r3fly_rgb_lightning_no.Outcome
use f1r3fly_rgb_lightning_no.Outcome.{Outcome, ◌>>=◌, ◌>>◌, err_if, or_err}
use f1r3fly_rgb_lightning_no.Node.{UnlockedAppState}

-- `LdkBackgroundServices`, as far as it is read: the processor is a handle that is taken once.
pub record LdkBackgroundServices : Type 0 where
  pub stop_processing : Bool
  pub bp_exit_closed : Bool
  pub background_processor : Bool

pub record AppState : Type 0 where
  pub changing_state : Bool
  pub unlocked_app_state : Option UnlockedAppState
  pub ldk_background_services : Option LdkBackgroundServices
  pub cancelled : Bool

unfoldable pub check_changing_state : AppState → Outcome (Unit {0})
check_changing_state s = err_if s.changing_state ApiError.changing_state

-- The tests of `check_locked` and `check_unlocked` once the guard of the unlocked state is held.
unfoldable pub test_locked : AppState → Outcome (Unit {0})
test_locked s = err_if (is_some s.unlocked_app_state) ApiError.unlocked_node

unfoldable pub test_unlocked : AppState → Outcome UnlockedAppState
test_unlocked s = or_err s.unlocked_app_state ApiError.locked_node

-- The whole checks, where nothing changes while they wait for the guard.
unfoldable pub check_locked : AppState → Outcome (Unit {0})
unfolding check_changing_state test_locked
check_locked s = do check_changing_state s; test_locked s

unfoldable pub check_unlocked : AppState → Outcome UnlockedAppState
unfolding check_changing_state test_unlocked
check_unlocked s = do check_changing_state s; test_unlocked s

unfoldable pub update_changing_state : Bool → AppState → AppState
update_changing_state updated s = record s { changing_state = updated }

unfoldable pub update_unlocked_app_state : Option UnlockedAppState → AppState → AppState
update_unlocked_app_state updated s = record s { unlocked_app_state = updated }

unfoldable pub update_ldk_background_services : Option LdkBackgroundServices → AppState → AppState
update_ldk_background_services updated s = record s { ldk_background_services = updated }

-- `AppState::stop_ldk`: the services are told to stop, and whether there is a processor to wait for.
unfoldable pub stop_ldk : Option LdkBackgroundServices → Option LdkBackgroundServices × Bool
stop_ldk none = (none, false)
stop_ldk (some services) = elim services.bp_exit_closed [
  | true ↦ (some (record services { stop_processing = true }), false)
  | false ↦ (
    some (record services { stop_processing = true; background_processor = false }),
    services.background_processor,
  )
]

-- `lock` and `unlock` in their parts from one wait to the next: other requests may come between two parts.

-- A refusal by `lock` ends a change of state, whoever began it.
unfoldable pub refuse_lock : {A : Type 0} → Outcome A → AppState → Outcome A × AppState
unfolding update_changing_state
refuse_lock (Outcome.ok a) s = (Outcome.ok a, s)
refuse_lock (Outcome.err e) s = (Outcome.err e, update_changing_state false s)
refuse_lock Outcome.panicked s = (Outcome.panicked, s)

-- `lock`, up to its wait for the guard.
unfoldable pub begin_lock : AppState → Outcome (Unit {0}) × AppState
unfolding check_changing_state refuse_lock
begin_lock s = refuse_lock (check_changing_state s) s

-- `lock`, while it holds the guard: the flag is set without being read again.
unfoldable pub enter_lock : AppState → Outcome (Unit {0}) × AppState
unfolding test_unlocked refuse_lock update_changing_state
enter_lock s = elim (test_unlocked s) [
  | Outcome.ok _ ↦ (Outcome.ok tt, update_changing_state true s)
  | Outcome.err e ↦ refuse_lock (Outcome.err e) s
  | Outcome.panicked ↦ (Outcome.panicked, s)
]

-- `lock`, up to its wait for the end of LDK; the value is whether there is a processor to wait for.
unfoldable pub stop_services : AppState → Bool × AppState
unfolding stop_ldk update_ldk_background_services
stop_services s =
    let (services, waits) = stop_ldk s.ldk_background_services in
    (waits, update_ldk_background_services services s)

-- `lock`, when LDK has stopped and the guard is free again.
unfoldable pub clear_unlocked : AppState → AppState
unfolding update_unlocked_app_state
clear_unlocked s = update_unlocked_app_state none s

-- `lock`, the rest.
unfoldable pub end_lock : AppState → AppState
unfolding update_changing_state update_ldk_background_services
end_lock s = update_changing_state false (update_ldk_background_services none s)

-- The error of `unlock` on a node that may not be unlocked.
unfoldable pub unlock_error : ApiError → ApiError
unlock_error ApiError.unlocked_node = ApiError.already_unlocked
unlock_error e = e

unfoldable pub refuse_unlock : Outcome (Unit {0}) → Outcome (Unit {0})
unfolding unlock_error
refuse_unlock (Outcome.ok _) = Outcome.ok tt
refuse_unlock (Outcome.err e) = Outcome.err (unlock_error e)
refuse_unlock Outcome.panicked = Outcome.panicked

-- `unlock`, up to its wait for the guard; the state stays.
unfoldable pub begin_unlock : AppState → Outcome (Unit {0})
unfolding check_changing_state refuse_unlock
begin_unlock s = refuse_unlock (check_changing_state s)

-- `unlock`, while it holds the guard: the flag is set without being read again.
unfoldable pub enter_unlock : AppState → Outcome (Unit {0}) × AppState
unfolding test_locked refuse_unlock update_changing_state
enter_unlock s = elim (test_locked s) [
  | Outcome.ok _ ↦ (Outcome.ok tt, update_changing_state true s)
  | Outcome.err e ↦ (refuse_unlock (Outcome.err e), s)
  | Outcome.panicked ↦ (Outcome.panicked, s)
]

-- `unlock`, if the password is wrong or LDK does not start.
unfoldable pub fail_unlock : AppState → AppState
unfolding update_changing_state
fail_unlock s = update_changing_state false s

-- `unlock`, when LDK has started and the guard is free again.
unfoldable pub set_unlocked : UnlockedAppState → AppState → AppState
unfolding update_unlocked_app_state
set_unlocked unlocked s = update_unlocked_app_state (some unlocked) s

-- `unlock`, the rest.
unfoldable pub end_unlock : LdkBackgroundServices → AppState → AppState
unfolding update_changing_state update_ldk_background_services
end_unlock services s =
    update_changing_state false (update_ldk_background_services (some services) s)

unfoldable pub shutdown : AppState → Outcome (Unit {0}) × AppState
unfolding check_changing_state
shutdown s = elim (check_changing_state s) [
  | Outcome.ok _ ↦ (Outcome.ok tt, record s { cancelled = true })
  | Outcome.err e ↦ (Outcome.err e, s)
  | Outcome.panicked ↦ (Outcome.panicked, s)
]

unfoldable pub wait_state_change : AppState → Bool × AppState
wait_state_change s = elim s.changing_state [
  | true ↦ (false, s)
  | false ↦ (true, record s { changing_state = true })
]
