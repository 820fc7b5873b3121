-- ===== src/Rf/Tests.antt =====
-- The radio switched off and on by example.
use openbsc.Base.{◌≡◌, refl, Bool, true, false, none, some, [], ◌∷◌}
use openbsc.Nm.{AdmState, OpState, ok}
use openbsc.ChanAlloc.{ChanType, active}
use openbsc.Paging.Live.{unused}
use openbsc.Paging.Area.{Cell}
use openbsc.Rf.{
  rf_on, rf_grace, off, on, direct_off, Trx, Bts, BscRf, osmo_bsc_rf_create,
  osmo_bsc_rf_schedule_lock, rf_delay_cmd_cb, run_request, switch_rf_off, lock_each_trx,
  enter_grace, handle_query, rf_read_cmd,
}
use openbsc.Rf.Timers.{Step, Reachable, IsSane, Reachable-IsSane}
use openbsc.Rf.Grace.{handle_sub, handle_grace, handle_rf_signal}
use openbsc.Rf.Lock.{schedule_all}

program : Unit {0}
unfolding rf_delay_cmd_cb run_request switch_rf_off lock_each_trx enter_grace handle_query
    rf_read_cmd
program = tt

abbrev trx : Trx
trx = record {
  nm_state = record {
    operational = OpState.enabled;
    administrative = AdmState.unlocked;
    availability = ok;
  };
  sent = [];
}

abbrev bts : Bool → Bts
bts excl = record {
  excl_from_rf_lock = excl;
  oml_link = true;
  is_ipaccess = true;
  trx_list = trx ∷ [];
}

abbrev created : BscRf
created = osmo_bsc_rf_create (bts false ∷ bts true ∷ []) 60 none

abbrev asked : BscRf
asked = osmo_bsc_rf_schedule_lock created off

-- The grace period has begun.
abbrev in_grace : BscRf
in_grace = (rf_delay_cmd_cb asked).0

announced : (rf_delay_cmd_cb asked).1 ≡ some rf_grace
unfolding program
announced = refl

still_on : handle_query created ≡ rf_on
unfolding program
still_on = refl

asked-Reachable : Reachable asked
unfolding rf_read_cmd
asked-Reachable =
    Reachable.next (Reachable.start (bts false ∷ bts true ∷ []) 60 none) (Step.reads created off)

in_grace-Reachable : Reachable in_grace
in_grace-Reachable = Reachable.next asked-Reachable (Step.delay_expires asked refl)

Reachable-IsSane_example : IsSane in_grace
Reachable-IsSane_example = Reachable-IsSane in_grace-Reachable

abbrev requested : BscRf
requested = osmo_bsc_rf_schedule_lock (schedule_all in_grace (on ∷ off ∷ [])) direct_off

-- A base station that is not excluded.
abbrev cell : Cell
cell = record {
  nr = 0;
  location_area_code = 1;
  env = record {
    bts = record {
      is_ipaccess = false;
      chan_alloc_reverse = false;
      dyn_ts_allow_tch_f = false;
      trxs = [];
    };
    c0 = record { mo = trx.nm_state; bb_transc = trx.nm_state; timeslots = [] };
    pag_any_tch = false;
    neci = false;
    oml_link = true;
  };
  paging = unused none;
}

-- Of two channels, only the active one with a call on it hears of the grace period.
notified :
    handle_rf_signal rf_grace true (
      (((record { type = ChanType.tch_f; is_primary = some true; state = active }
            ∷ record { type = ChanType.sdcch; is_primary = some true; state = active }
            ∷ [])
          ∷ [])
        ∷ [])
      ∷ [])
    ≡ (((true ∷ false ∷ []) ∷ []) ∷ []) ∷ []
unfolding handle_rf_signal handle_grace handle_sub
notified = refl
