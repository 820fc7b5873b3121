-- ===== src/Paging/Tests.antt =====
-- The paging of a base station with two requests, and each theorem at an input.
use openbsc.Base.{ℕ, ◌+◌, ◌≡◌, refl, true, false, none, some, List, [], ◌∷◌, map, arith}
use openbsc.ChanAlloc.{Trx, trx_is_usable}
use openbsc.Nm.{NmState, AdmState, OpState, AvState}
use openbsc.Paging.{
  any_chan, Request, State, Env, paging_worker, paging_handle_pending_requests, send_first,
  paging_schedule_if_needed, paging_init_if_needed, paging_pending_request, add_request, requested,
  paging_request_bts, paging_t3113_expired, remove_nth, paging_pending_requests_nr, paging_get_data,
  expire_request, busy, expired, stop_first, paging_request_stop, can_send_pag_req, count_sdcch,
  count_tch,
}
use openbsc.Paging.Area.{Cell, paging_request, count, Each, Served, paging_request_lem}
use openbsc.Paging.Credit.{work, attempted, work_round, with_link, work-with_link}
use openbsc.Paging.Live.{request, Reachable, start, next, unused, IsLive, Reachable-IsLive}

program : Unit {0}
unfolding trx_is_usable paging_worker paging_handle_pending_requests send_first
    paging_schedule_if_needed paging_init_if_needed paging_pending_request add_request
    paging_request_bts paging_t3113_expired remove_nth stop_first paging_request_stop work attempted
    paging_pending_requests_nr paging_get_data expire_request can_send_pag_req count_sdcch count_tch
program = tt

abbrev running : NmState
running = record {
  operational = OpState.enabled;
  administrative = AdmState.unlocked;
  availability = AvState.ok;
}

abbrev trx : Trx
trx = record { mo = running; bb_transc = running; timeslots = [] }

abbrev env : Env
env = record {
  bts = record {
    is_ipaccess = false;
    chan_alloc_reverse = false;
    dyn_ts_allow_tch_f = false;
    trxs = trx ∷ [];
  };
  c0 = trx;
  pag_any_tch = false;
  neci = false;
  oml_link = true;
}

abbrev ask : ℕ → Request
ask b = record { bsub = b; chan_type = any_chan; attempts = 0; cbfn = some (b + 100) }

abbrev queued : List Request → State
queued rs = record {
  pending_requests = rs;
  is_initialized = true;
  work_timer = true;
  credit_timer = false;
  free_chans_need = none;
  available_slots = 20;
}

first_request :
    paging_request_bts env (unused none) 7 any_chan (some 107) ≡ requested (queued (ask 7 ∷ []))
unfolding program
first_request = refl

second_request :
    paging_request_bts env (queued (ask 7 ∷ [])) 8 any_chan (some 108)
    ≡ requested (queued (ask 7 ∷ ask 8 ∷ []))
unfolding program
second_request = refl

never_paged : expire_request (ask 7) ≡ some (107, busy)
unfolding program
never_paged = refl

two : Reachable (queued (ask 7 ∷ ask 8 ∷ []))
two =
    next
      (next (start none)
        (request env (unused none) (queued (ask 7 ∷ [])) 7 any_chan (some 107) first_request))
      (request env (queued (ask 7 ∷ [])) (queued (ask 7 ∷ ask 8 ∷ [])) 8 any_chan (some 108)
        second_request)

Reachable-two : IsLive (queued (ask 7 ∷ ask 8 ∷ []))
Reachable-two = Reachable-IsLive (queued (ask 7 ∷ ask 8 ∷ [])) two

Reachable-IsLive_example : IsLive (queued (ask 7 ∷ ask 8 ∷ []))
Reachable-IsLive_example = Reachable-IsLive (queued (ask 7 ∷ ask 8 ∷ [])) two

work_round_example :
    ((work env 2 (queued (ask 7 ∷ ask 8 ∷ []))).1 ≡ ask 7 ∷ ask 8 ∷ [])
    × ((work env 2 (queued (ask 7 ∷ ask 8 ∷ []))).0.pending_requests
        ≡ attempted (ask 7) ∷ attempted (ask 8) ∷ [])
    × ((work env 2 (queued (ask 7 ∷ ask 8 ∷ []))).0.available_slots + 2 ≡ 20)
work_round_example =
    work_round env (ask 7 ∷ ask 8 ∷ []) [] (queued (ask 7 ∷ ask 8 ∷ [])) refl refl refl
      (omega arith)

work-with_link_example :
    ((work (with_link false env) 2 (queued (ask 7 ∷ ask 8 ∷ []))).0
      ≡ (work (with_link true env) 2 (queued (ask 7 ∷ ask 8 ∷ []))).0)
    × ((work (with_link false env) 2 (queued (ask 7 ∷ ask 8 ∷ []))).1 ≡ [])
work-with_link_example = work-with_link env 2 (queued (ask 7 ∷ ask 8 ∷ []))

-- A request that was never sent, and what its callback is told at T3113.
never_sent :
    map expire_request (work (with_link false env) 1 (queued (ask 7 ∷ []))).0.pending_requests
    ≡ some (107, expired) ∷ []
unfolding program
never_sent = refl

abbrev cells : List Cell
cells =
    record { nr = 0; location_area_code = 1; env = env; paging = unused none }
    ∷ record { nr = 1; location_area_code = 2; env = env; paging = unused none }
    ∷ []

paging_request_lem_example :
    ((paging_request 1 7 any_chan (some 107) cells).1 ≡ 1)
    × Each (Served 1 7) cells (paging_request 1 7 any_chan (some 107) cells).0
unfolding program count
paging_request_lem_example = paging_request_lem 1 7 any_chan (some 107) cells
