-- ===== src/Residency/Permits.antt =====
-- cuda_residency.py: which permits of an epoch are out, and the invariant of the coordinator.
use mnemosyne_inference.Prelude.{ℕ, ◌+◌, ◌≡◌, Bool, true, false}
use mnemosyne_inference.Residency.Types.{
  ready, state_eq, Driver, queued_for, stopping_for, loading_for, cleaning_for, Maintenance,
  drain_active, await_driver, before_stop, stop_engine, Coordinator,
}
use mnemosyne_inference.Residency.System.{is_free}
pub use mnemosyne_inference.Leasing.{
  one_if, held, is_grant, owed, OutcomeUpTo, FuturesUpTo, LeasesUpTo, held-remove_lease,
  remove_lease-LeasesUpTo, owed-drop_future, drop_future-FuturesUpTo, outcome-UpTo, held-past,
  owed-past, LeasesUpTo-suc, FuturesUpTo-suc,
}

abbrev pub in_transition : Driver → Bool
in_transition (queued_for p d) = true
in_transition (stopping_for p d) = true
in_transition (loading_for p d) = true
in_transition (cleaning_for d e) = true
in_transition _ = false

abbrev pub is_draining : Maintenance → Bool
is_draining (drain_active r b) = true
is_draining _ = false

abbrev pub is_past_drain : Maintenance → Bool
is_past_drain (await_driver r b t) = true
is_past_drain (before_stop r b) = true
is_past_drain (stop_engine r b) = true
is_past_drain _ = false

-- `active` counts exactly the permits of the current epoch that are out, no permit is of a later
-- epoch, a transition in flight has no active permit and no open fast path, and a maintenance call
-- has closed admission and, once it has drained, no active permit.
-- `extra` counts permits that are on their way back: out of both lists, and still in `active`.
pub record IsSafeBut (extra : ℕ) (s : Coordinator) : Type 0 where
  pub counted : s.active ≡ extra + held s.epoch s.leases + owed s.epoch s.futures
  pub leases_old : LeasesUpTo s.epoch s.leases
  pub futures_old : FuturesUpTo s.epoch s.futures
  pub quiet : in_transition s.driver ≡ true → s.active ≡ 0
  pub not_ready : in_transition s.driver ≡ true → state_eq s.state ready ≡ false
  pub barrier : is_free s.maintenance ≡ false → s.accepting ≡ false
  pub drained : is_past_drain s.maintenance ≡ true → s.active ≡ 0
  pub settled : is_draining s.maintenance ≡ true → in_transition s.driver ≡ false

abbrev pub IsSafe : Coordinator → Type 0
IsSafe s = IsSafeBut 0 s
