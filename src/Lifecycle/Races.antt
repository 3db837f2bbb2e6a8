-- ===== src/Lifecycle/Races.antt =====
-- Orders of the parts of `lock` and `unlock` requests (src/routes.rs) in which two changes of state are under way together.
use f1r3fly_rgb_lightning_no.Common.{
  ◌≡◌, refl, sym, ap, ◌∙◌, true, false, none, some, inl, inr, Bool-cases, Option-cases,
}
use f1r3fly_rgb_lightning_no.Error.{ApiError}
use f1r3fly_rgb_lightning_no.Outcome.{Outcome, ok, err}
use f1r3fly_rgb_lightning_no.Node.{UnlockedAppState}
use f1r3fly_rgb_lightning_no.Lifecycle.{
  LdkBackgroundServices, AppState, check_changing_state, test_locked, check_locked,
  update_changing_state, update_unlocked_app_state, update_ldk_background_services, begin_lock,
  begin_unlock, enter_unlock, set_unlocked, end_unlock,
}

-- An `unlock` that is accepted: it passes both its tests.
pub record Unlocks (s t : AppState) : Type 0 where
  pub begins : begin_unlock s ≡ ok tt
  pub enters : enter_unlock s ≡ (ok tt, t)

-- Two `unlock` requests that both read the flag before one of them sets it, and that both start LDK.
pub record BothUnlock (s : AppState) (u u' : UnlockedAppState) (v v' : LdkBackgroundServices)
    : Type 0 where
  pub first_begins : begin_unlock s ≡ ok tt
  pub second_begins : begin_unlock s ≡ ok tt
  pub first_entered : AppState
  pub first_enters : enter_unlock s ≡ (ok tt, first_entered)
  pub second_entered : AppState
  pub second_enters : enter_unlock first_entered ≡ (ok tt, second_entered)
  -- the first ends while the second is still starting LDK
  pub first_services :
      (end_unlock v (set_unlocked u second_entered)).ldk_background_services ≡ some v
  pub first_flag : (end_unlock v (set_unlocked u second_entered)).changing_state ≡ false
  -- the second ends
  pub last :
      end_unlock v' (set_unlocked u' (end_unlock v (set_unlocked u second_entered))) ≡ record s {
        changing_state = false;
        unlocked_app_state = some u';
        ldk_background_services = some v';
      }

-- A `lock` that is refused because of a change under way, and an `unlock` that is accepted after it.
pub record AdmitsUnlock (s : AppState) : Type 0 where
  pub refused : AppState
  pub refuses : begin_lock s ≡ (err ApiError.changing_state, refused)
  pub unlocking : AppState
  pub unlocks : Unlocks refused unlocking

locked_lem :
    (s : AppState)
    → check_locked s ≡ ok tt
    → (s.changing_state ≡ false) × (s.unlocked_app_state ≡ none)
unfolding check_locked check_changing_state test_locked
locked_lem s e = elim (Bool-cases s.changing_state) [
  | inl busy ↦ cc (rw busy at e)
  | inr free ↦ elim (Option-cases s.unlocked_app_state) [
    | inl is_locked ↦ (free, is_locked)
    | inr (u, is_unlocked) ↦ cc (rw (free, is_unlocked) at e)
  ]
]

begin_unlock_lem : (s : AppState) → s.changing_state ≡ false → begin_unlock s ≡ ok tt
unfolding begin_unlock check_changing_state
begin_unlock_lem s free = rw free refl

-- The second test does not read the flag.
enter_unlock_lem :
    (s : AppState)
    → s.unlocked_app_state ≡ none
    → enter_unlock s ≡ (ok tt, update_changing_state true s)
unfolding enter_unlock test_locked
enter_unlock_lem s is_locked = rw is_locked refl

-- An accepted `unlock` leaves a locked node whose state is changing.
entered_lem :
    (s t : AppState)
    → enter_unlock s ≡ (ok tt, t)
    → (t.changing_state ≡ true) × (t.unlocked_app_state ≡ none)
unfolding enter_unlock test_locked update_changing_state
entered_lem s t e = elim (Option-cases s.unlocked_app_state) [
  | inl is_locked ↦
      let q = sym (enter_unlock_lem s is_locked) ∙ e in
      (
        ap (λ (x : Outcome (Unit {0}) × AppState). x.1.changing_state) (sym q),
        ap (λ (x : Outcome (Unit {0}) × AppState). x.1.unlocked_app_state) (sym q) ∙ is_locked,
      )
  | inr (u, is_unlocked) ↦ cc (rw is_unlocked at e)
]

-- On a node that is locked and not changing, two `unlock` requests that both read the flag before one of them sets it are
-- both accepted. If both then start LDK: when the first has ended, the flag is down although the second is still starting
-- LDK; and when the second has ended too, the node is as before but for the second's state and services, which have taken
-- the place of the first's.
pub unlocks_overlap :
    (s : AppState) (u u' : UnlockedAppState) (v v' : LdkBackgroundServices)
    → check_locked s ≡ ok tt
    → BothUnlock s u u' v v'
unfolding set_unlocked end_unlock update_changing_state update_unlocked_app_state
    update_ldk_background_services
unlocks_overlap s u u' v v' locked =
    let (free, is_locked) = locked_lem s locked in
    record {
      first_begins = begin_unlock_lem s free;
      second_begins = begin_unlock_lem s free;
      first_entered = update_changing_state true s;
      first_enters = enter_unlock_lem s is_locked;
      second_entered = update_changing_state true (update_changing_state true s);
      second_enters = enter_unlock_lem (update_changing_state true s) is_locked;
      first_services = refl;
      first_flag = refl;
      last = refl;
    }

-- While an `unlock` that was accepted starts LDK, a `lock` request is refused for the change under way, and nevertheless
-- ends it: a further `unlock` that comes then is accepted beside the first.
pub late_lock-AdmitsUnlock : (s t : AppState) → Unlocks s t → AdmitsUnlock t
unfolding begin_lock check_changing_state update_changing_state
late_lock-AdmitsUnlock s t h =
    let (busy, is_locked) = entered_lem s t h.enters in
    let ended = update_changing_state false t in
    record {
      refused = ended;
      refuses = rw busy refl;
      unlocking = update_changing_state true ended;
      unlocks = record {
        begins = begin_unlock_lem ended refl;
        enters = enter_unlock_lem ended is_locked;
      };
    }
