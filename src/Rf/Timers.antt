-- ===== src/Rf/Timers.antt =====
-- openbsc/src/libbsc/bsc_rf_ctrl.c: the timers that are pending under each policy.
use openbsc.Base.{
  Bool-cases, ap, ℕ, ◌≡◌, refl, inl, inr, Bool, true, false, not, Option, none, some, List,
  if◌then◌else◌, arith,
}
use openbsc.Rf.{
  start_auto_off, Result, was_direct_off, was_scheduled_off, osmo_bsc_rf_schedule_lock, Policy,
  rf_off, rf_on, rf_grace, Cmd, query, off, on, direct_off, unknown_cmd, Bts, BscRf, is_pending,
  switch_rf_off, grace_timeout_cb, enter_grace, run_request, rf_delay_cmd_cb, rf_auto_off_cb,
  rf_read_cmd, rf_check_cb, msc_lost, msc_connected, osmo_bsc_rf_create,
}

-- Something that can happen: a command on the socket, the end of a timer that is pending, a change
-- of the connection to the MSC, or any change of the base stations and transceivers.
pub data Step : BscRf → BscRf → Type 0 where
  reads : (rf : BscRf) (cmd : Cmd) → Step rf (rf_read_cmd rf cmd).0
  delay_expires : (rf : BscRf) → is_pending rf.delay_cmd ≡ true → Step rf (rf_delay_cmd_cb rf).0
  check_expires : (rf : BscRf) → is_pending rf.rf_check ≡ true → Step rf (rf_check_cb rf).0
  grace_expires :
      (rf : BscRf) → is_pending rf.grace_timeout ≡ true → Step rf (grace_timeout_cb rf).0
  auto_off_expires :
      (rf : BscRf) → is_pending rf.auto_off_timer ≡ true → Step rf (rf_auto_off_cb rf)
  loses_msc : (rf : BscRf) (is_normal : Bool) → Step rf (msc_lost is_normal rf)
  gets_msc : (rf : BscRf) (is_normal : Bool) → Step rf (msc_connected is_normal rf)
  net_changes : (rf : BscRf) (bts_list : List Bts) → Step rf (record rf { bts_list = bts_list })

pub data Reachable : BscRf → Type 0 where
  start :
      (bts_list : List Bts) (mid_call_timeout : ℕ) (auto_off_timeout : Option ℕ)
      → Reachable (osmo_bsc_rf_create bts_list mid_call_timeout auto_off_timeout)
  next : {rf rf' : BscRf} → Reachable rf → Step rf rf' → Reachable rf'

abbrev pub is_grace : Policy → Bool
is_grace rf_grace = true
is_grace rf_off = false
is_grace rf_on = false

abbrev pub is_command : Option Cmd → Bool
is_command (some off) = true
is_command (some on) = true
is_command (some direct_off) = true
is_command (some query) = false
is_command (some unknown_cmd) = false
is_command none = false

-- The grace timer is pending exactly in the grace period, the radio is checked only while it is on,
-- and a command that waits is one of the three.
pub record IsSane (rf : BscRf) : Type 0 where
  pub grace : is_pending rf.grace_timeout ≡ is_grace rf.policy
  pub check : is_pending rf.rf_check ≡ true → rf.policy ≡ rf_on
  pub delayed : is_pending rf.delay_cmd ≡ true → is_command rf.last_request ≡ true

off-IsSane :
    (rf : BscRf)
    → is_pending rf.grace_timeout ≡ false
    → is_pending rf.rf_check ≡ false
    → (is_pending rf.delay_cmd ≡ true → is_command rf.last_request ≡ true)
    → IsSane (switch_rf_off rf).0
unfolding switch_rf_off
off-IsSane rf g c d = record { grace = g; check = λ e. absurd (ground (arith, c, e)); delayed = d }

if-IsSane :
    (b : Bool) (x y : Result)
    → (b ≡ true → IsSane x.0)
    → (b ≡ false → IsSane y.0)
    → IsSane (if b then x else y).0
if-IsSane true x y h k = h refl
if-IsSane false x y h k = k refl

enter_grace-IsSane :
    (rf : BscRf)
    → is_pending rf.grace_timeout ≡ is_grace rf.policy
    → is_pending rf.rf_check ≡ false
    → (is_pending rf.delay_cmd ≡ true → is_command rf.last_request ≡ true)
    → IsSane (enter_grace rf).0
unfolding enter_grace
enter_grace-IsSane rf g c d =
    if-IsSane (is_pending rf.grace_timeout) _ _
      (λ e. record { grace = g; check = λ k. absurd (ground (arith, c, k)); delayed = d })
      (λ e. record { grace = refl; check = λ k. absurd (ground (arith, c, k)); delayed = d })

run_request-IsSane : (cmd : Option Cmd) (rf : BscRf) → IsSane rf → IsSane (run_request cmd rf).0
unfolding run_request
run_request-IsSane none rf h = h
run_request-IsSane (some query) rf h = h
run_request-IsSane (some unknown_cmd) rf h = h
run_request-IsSane (some direct_off) rf h =
    off-IsSane
      (record rf { last_state_command = was_direct_off; rf_check = none; grace_timeout = none })
      refl refl h.delayed
run_request-IsSane (some off) rf h =
    enter_grace-IsSane (record rf { last_state_command = was_scheduled_off; rf_check = none })
      h.grace refl h.delayed
run_request-IsSane (some on) rf h = record { grace = refl; check = λ _. refl; delayed = h.delayed }

rf_delay_cmd_cb-IsSane : (rf : BscRf) → IsSane rf → IsSane (rf_delay_cmd_cb rf).0
unfolding rf_delay_cmd_cb
rf_delay_cmd_cb-IsSane rf h =
    let h' : IsSane (record rf { delay_cmd = none }) = record {
      grace = h.grace;
      check = h.check;
      delayed = λ e. absurd (ground (arith, e));
    } in
    run_request-IsSane rf.last_request (record rf { delay_cmd = none }) h'

schedule-IsSane :
    (rf : BscRf) (cmd : Cmd)
    → is_command (some cmd) ≡ true
    → IsSane rf
    → IsSane (osmo_bsc_rf_schedule_lock rf cmd)
schedule-IsSane rf cmd c h = record { grace = h.grace; check = h.check; delayed = λ _. c }

rf_read_cmd-IsSane : (rf : BscRf) (cmd : Cmd) → IsSane rf → IsSane (rf_read_cmd rf cmd).0
unfolding rf_read_cmd
rf_read_cmd-IsSane rf query h = h
rf_read_cmd-IsSane rf off h = schedule-IsSane rf off refl h
rf_read_cmd-IsSane rf on h = schedule-IsSane rf on refl h
rf_read_cmd-IsSane rf direct_off h = schedule-IsSane rf direct_off refl h
rf_read_cmd-IsSane rf unknown_cmd h = record {
  grace = h.grace;
  check = h.check;
  delayed = h.delayed;
}

not_checked :
    (rf : BscRf) → is_pending rf.grace_timeout ≡ true → IsSane rf → is_pending rf.rf_check ≡ false
not_checked rf e h = elim (Bool-cases (is_pending rf.rf_check)) [
  | inl c ↦ absurd (ground (arith, e, h.grace, ap is_grace (h.check c)))
  | inr c ↦ c
]

grace_timeout_cb-IsSane :
    (rf : BscRf) → is_pending rf.grace_timeout ≡ true → IsSane rf → IsSane (grace_timeout_cb rf).0
unfolding grace_timeout_cb
grace_timeout_cb-IsSane rf e h =
    off-IsSane (record rf { grace_timeout = none }) refl (not_checked rf e h) h.delayed

if_both : (P : BscRf → Type 0) (b : Bool) (x y : BscRf) → P x → P y → P (if b then x else y)
if_both P true x y h k = h
if_both P false x y h k = k

-- Only the timers of the radio and the policy matter.
auto_off_IsSane :
    (rf : BscRf) (t : Option ℕ) → IsSane rf → IsSane (record rf { auto_off_timer = t })
auto_off_IsSane rf t h = record { grace = h.grace; check = h.check; delayed = h.delayed }

start_auto_off-IsSane :
    (t : Option ℕ) (is_normal : Bool) (rf : BscRf)
    → IsSane rf
    → IsSane (start_auto_off t is_normal rf)
start_auto_off-IsSane none is_normal rf h = h
start_auto_off-IsSane (some t) is_normal rf h = if_both IsSane (not is_normal) rf _ h (
    if_both IsSane (is_pending rf.auto_off_timer) rf (record rf { auto_off_timer = some t }) h
      (auto_off_IsSane rf (some t) h))

Step-IsSane : {rf rf' : BscRf} → Step rf rf' → IsSane rf → IsSane rf'
unfolding rf_check_cb msc_lost msc_connected
Step-IsSane (reads rf cmd) h = rf_read_cmd-IsSane rf cmd h
Step-IsSane (delay_expires rf e) h = rf_delay_cmd_cb-IsSane rf h
Step-IsSane (check_expires rf e) h = record {
  grace = h.grace;
  check = λ c. absurd (ground (arith, c));
  delayed = h.delayed;
}
Step-IsSane (grace_expires rf e) h = grace_timeout_cb-IsSane rf e h
Step-IsSane (auto_off_expires rf e) h =
    schedule-IsSane (record rf { auto_off_timer = none }) direct_off refl
      (auto_off_IsSane rf none h)
Step-IsSane (loses_msc rf is_normal) h = start_auto_off-IsSane rf.auto_off_timeout is_normal rf h
Step-IsSane (gets_msc rf is_normal) h =
    if_both IsSane (not is_normal) rf (record rf { auto_off_timer = none }) h
      (auto_off_IsSane rf none h)
Step-IsSane (net_changes rf bts_list) h = record {
  grace = h.grace;
  check = h.check;
  delayed = h.delayed;
}

-- Whatever happens, the grace timer is pending exactly under the grace policy, the check of the
-- radio is pending only under the policy "on", and a command that is waiting is "off", "on" or
-- "direct off".
pub Reachable-IsSane : {rf : BscRf} → Reachable rf → IsSane rf
Reachable-IsSane (start bts_list mid_call_timeout auto_off_timeout) = record {
  grace = refl;
  check = λ e. refl;
  delayed = λ e. absurd (ground (arith, e));
}
Reachable-IsSane (next r s) = Step-IsSane s (Reachable-IsSane r)
