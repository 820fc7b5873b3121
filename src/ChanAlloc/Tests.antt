-- ===== src/ChanAlloc/Tests.antt =====
-- A base station with one transceiver, on which the allocator and the load updates are run.
use openbsc.Base.{◌≡◌, ◌≢◌, ◌⊎◌, refl, true, false, some, List, [], ◌∷◌, replicate, arith}
use openbsc.Nm.{NmState, AdmState, OpState, AvState, nm_is_running}
use openbsc.ChanAlloc.{
  Pchan, none_pchan, ccch_sdcch4, ChanType, none_type, sdcch, none_state, active, Lchan, Ts, Trx,
  Bts, Place, modify_lchan, take_lchan, lchan_alloc, choose, try_pchan, try_dyn, lc_find_bts,
  find_first, lc_find_trx, trx_is_usable, find_in_ts, ts_is_usable, Pchan-discrete, find_in_pchan,
  find_sub_slot, ts_subslots, allocated,
}
use openbsc.ChanAlloc.Alloc.{Grant, serves, lchan_alloc-Grant}
use openbsc.ChanAlloc.Distinct.{InPdch, lchan_alloc-distinct}
use openbsc.ChanAlloc.T3122.{LoadAverage, bts_update_t3122_chan_load}
use openbsc.ChanAlloc.Wait.{IsValid, bts_update_t3122_chan_load-IsValid}

abbrev running : NmState
running = record {
  operational = OpState.enabled;
  administrative = AdmState.unlocked;
  availability = AvState.ok;
}

abbrev idle : Lchan
idle = record {
  type = none_type;
  state = none_state;
  is_broken_reason = false;
  sapis = replicate 8 0;
  mr_ms_lv = replicate 7 0;
  mr_bts_lv = replicate 7 0;
  conn = false;
  rtp_socket = false;
  rqd_ref = false;
  rqd_ta = 0;
  meas_rep_idx = 0;
  meas_rep = replicate 10 (0, 0);
  neigh_arfcns = replicate 10 0;
  t3101 = false;
  t3109 = false;
  t3111 = false;
  error_timer = false;
}

abbrev talking : Lchan
talking = record idle {
  type = ChanType.tch_f;
  state = active;
  conn = true;
  rtp_socket = true;
  rqd_ref = true;
  rqd_ta = 3;
}

abbrev slot : Pchan → List Lchan → Ts
slot kind lchans = record {
  pchan = kind;
  pchan_is = none_pchan;
  pchan_want = none_pchan;
  pdch_active = false;
  pdch_pending = false;
  mo = running;
  lchans = lchans;
}

abbrev station : List Lchan → Bts
station tch = record {
  is_ipaccess = true;
  chan_alloc_reverse = false;
  dyn_ts_allow_tch_f = false;
  trxs =
      record {
        mo = running;
        bb_transc = running;
        timeslots = slot ccch_sdcch4 (replicate 4 idle) ∷ slot Pchan.tch_f tch ∷ [];
      }
      ∷ [];
}

abbrev bts : Bts
bts = station (idle ∷ [])

abbrev first : Place
first = record { trx = 0; ts = 0; ss = 0 }

abbrev second : Place
second = record { trx = 0; ts = 0; ss = 1 }

abbrev bts₁ : Bts
bts₁ = modify_lchan (take_lchan sdcch) bts first

abbrev bts₂ : Bts
bts₂ = modify_lchan (take_lchan sdcch) bts₁ second

program : Unit {0}
unfolding lchan_alloc choose try_pchan try_dyn lc_find_bts find_first lc_find_trx trx_is_usable
    nm_is_running find_in_ts ts_is_usable Pchan-discrete find_in_pchan find_sub_slot ts_subslots
program = tt

alloc_first : lchan_alloc bts sdcch false ≡ allocated first bts₁
unfolding program
alloc_first = refl

alloc_second : lchan_alloc bts₁ sdcch true ≡ allocated second bts₂
unfolding program
alloc_second = refl

lchan_alloc-Grant_example : Grant bts (serves sdcch false) first bts₁
lchan_alloc-Grant_example = lchan_alloc-Grant bts bts₁ sdcch false first alloc_first

lchan_alloc-distinct_example : (first ≢ second) ⊎ InPdch bts₁ second
lchan_alloc-distinct_example =
    lchan_alloc-distinct bts bts₁ bts₂ sdcch sdcch false true first second alloc_first alloc_second

abbrev c0 : Trx
c0 = record { mo = running; bb_transc = running; timeslots = [] }

abbrev fresh : LoadAverage
fresh = record {
  t3122 = 0;
  chan_load_samples = replicate 7 (record { total = 0; used = 0 });
  chan_load_samples_idx = 0;
  chan_load_avg = 0;
}

fresh-IsValid : IsValid fresh
fresh-IsValid = ground (arith)

bts_update_t3122_chan_load-IsValid_example :
    (w' : LoadAverage) × (bts_update_t3122_chan_load c0 bts fresh ≡ some w') × IsValid w'
bts_update_t3122_chan_load-IsValid_example =
    bts_update_t3122_chan_load-IsValid c0 bts fresh fresh-IsValid
