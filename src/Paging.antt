-- ===== src/Paging.antt =====
-- openbsc/src/libbsc/paging.c: the paging requests of a base station, sent one at a time as long as
-- the base station has free slots.
--
-- A subscriber is a number, and a callback with its parameter is one too. `paged` names the request
-- that is handed to `page_ms`; the encoding of the message is left out.
pub mod Live
pub mod Stop
pub mod Credit
pub mod Area
mod Tests
use openbsc.Base.{
  ℕ, zero, suc, ◌+◌, ◌-◌, ◌%◌, ◌^◌, Bool, true, false, not, ◌||◌, Option, none, some, List, [], ◌∷◌,
  ◌++◌, length, if◌then◌else◌, ltb, leb, ◌==◌,
}
use openbsc.ChanAlloc.{Pchan, sdcch8_sacch8c, ccch_sdcch4, Trx, Bts, trx_is_usable}
use openbsc.ChanAlloc.Load.{LoadCounter, PchanLoad, no_load, bts_chan_load}

-- The channel that a request needs, RSL_CHANNEED_*.
pub data ChanNeed : Type 0 where
  any_chan sdcch tch_f tch_for_h : ChanNeed

pub record Request : Type 0 where
  pub bsub : ℕ
  pub chan_type : ChanNeed
  pub attempts : ℕ
  pub cbfn : Option ℕ

-- `struct gsm_bts_paging_state`. The timers are whether they are pending; -1 free channels needed,
-- which turns the test of the load off, is `none`.
pub record State : Type 0 where
  pub pending_requests : List Request
  pub is_initialized : Bool
  pub work_timer : Bool
  pub credit_timer : Bool
  pub free_chans_need : Option ℕ
  pub available_slots : ℕ

-- What the paging reads of the network and the base station.
pub record Env : Type 0 where
  pub bts : Bts
  pub c0 : Trx
  pub pag_any_tch : Bool
  pub neci : Bool
  pub oml_link : Bool

-- `total - used` on 32-bit numbers.
abbrev pub free_chans : LoadCounter → ℕ
free_chans c = (c.total + 2 ^ 32 - c.used) % 2 ^ 32

-- `need > count`, where a sum from 2^31 on is a negative `int`.
abbrev pub exceeds : ℕ → ℕ → Bool
exceeds need count = ltb count need || leb (2 ^ 31) count

unfoldable pub count_sdcch : PchanLoad → ℕ
count_sdcch pl = (free_chans (pl sdcch8_sacch8c) + free_chans (pl ccch_sdcch4)) % 2 ^ 32

unfoldable pub count_tch : Bool → PchanLoad → ℕ
count_tch neci pl =
    if neci
    then (free_chans (pl Pchan.tch_f) + free_chans (pl Pchan.tch_h)) % 2 ^ 32
    else free_chans (pl Pchan.tch_f)

-- `can_send_pag_req`, which is true when the request can not be sent.
unfoldable pub can_send_pag_req : Env → ChanNeed → ℕ → Bool
unfolding count_sdcch count_tch
can_send_pag_req env rsl_type need =
    let pl = bts_chan_load no_load env.bts in
    let tch = exceeds need (count_tch env.neci pl) in
    let sd = exceeds need (count_sdcch pl) in
    elim rsl_type [
      | ChanNeed.tch_f ↦ tch
      | tch_for_h ↦ tch
      | ChanNeed.sdcch ↦ sd
      | any_chan ↦ if env.pag_any_tch then tch else sd
    ]

abbrev held_back : Env → Option ℕ → Request → Bool
held_back env none r = false
held_back env (some need) r = can_send_pag_req env r.chan_type need

-- `page_ms` sends nothing while the link to the base station is down.
abbrev page_ms : Env → Request → Option Request
page_ms env r = if env.oml_link then some r else none

-- The sending of the first request; the work timer is armed in either case.
unfoldable pub send_first : Env → State → Request → List Request → State × Option Request
send_first env s r rs =
    if held_back env s.free_chans_need r then (record s { work_timer = true }, none) else (
      record s {
        available_slots = s.available_slots - 1;
        pending_requests = rs ++ (record r { attempts = r.attempts + 1 } ∷ []);
        work_timer = true;
      },
      page_ms env r,
    )

handle_list : Env → State → List Request → State × Option Request
handle_list env s [] = (s, none)
handle_list env s (r ∷ rs) =
    if s.available_slots == 0
    then (record s { credit_timer = true }, none)
    else send_first env s r rs

unfoldable pub paging_handle_pending_requests : Env → State → State × Option Request
unfolding handle_list send_first
paging_handle_pending_requests env s = handle_list env s s.pending_requests

-- The expirations of the two timers, which are not pending any more when their callbacks run.
unfoldable pub paging_worker : Env → State → State × Option Request
paging_worker env s = paging_handle_pending_requests env (record s { work_timer = false })

unfoldable pub paging_give_credit : Env → State → State × Option Request
paging_give_credit env s =
    paging_handle_pending_requests env (record s { credit_timer = false; available_slots = 20 })

is_empty : List Request → Bool
is_empty [] = true
is_empty (r ∷ rs) = false

unfoldable pub paging_schedule_if_needed : State → State
unfolding is_empty
paging_schedule_if_needed s =
    if is_empty s.pending_requests then s else record s { work_timer = true }

unfoldable pub paging_init_if_needed : State → State
paging_init_if_needed s =
    if s.is_initialized
    then s
    else record s { is_initialized = true; pending_requests = []; available_slots = 20 }

unfoldable pub paging_pending_request : List Request → ℕ → Bool
paging_pending_request [] bsub = false
paging_pending_request (r ∷ rs) bsub =
    let rest = paging_pending_request rs bsub in (bsub == r.bsub) || rest

-- `_paging_request`; `none` is -EEXIST.
unfoldable pub add_request : State → ℕ → ChanNeed → Option ℕ → Option State
unfolding paging_schedule_if_needed
add_request s bsub type cbfn =
    if paging_pending_request s.pending_requests bsub
    then none
    else some (
        paging_schedule_if_needed (record s {
          pending_requests =
              s.pending_requests
              ++ (record { bsub = bsub; chan_type = type; attempts = 0; cbfn = cbfn } ∷ []);
        }))

-- `paging_request_bts`: the return code 0, 1, or -EEXIST.
pub data Paged : Type 0 where
  unusable pending : Paged
  requested : State → Paged

unfoldable pub paging_request_bts : Env → State → ℕ → ChanNeed → Option ℕ → Paged
unfolding add_request
paging_request_bts env s bsub type cbfn =
    if not (trx_is_usable env.bts.is_ipaccess env.c0)
    then unusable
    else elim (add_request (paging_init_if_needed s) bsub type cbfn) [
      | none ↦ pending
      | some t ↦ requested t
    ]

-- What a callback is told: the subscriber answered, or did not, or was never paged.
pub data Answer : Type 0 where
  succeeded expired busy : Answer

-- T3113 of the n-th request expires: the request is removed before its callback is called.
unfoldable pub remove_nth : List Request → ℕ → List Request
remove_nth [] n = []
remove_nth (r ∷ rs) zero = rs
remove_nth (r ∷ rs) (suc n) = r ∷ remove_nth rs n

unfoldable pub expire_request : Request → Option (ℕ × Answer)
expire_request r = elim r.cbfn [
  | none ↦ none
  | some f ↦ some (f, if ltb 0 r.attempts then expired else busy)
]

unfoldable pub paging_t3113_expired : State → ℕ → State
paging_t3113_expired s n = record s { pending_requests = remove_nth s.pending_requests n }

-- `_paging_request_stop`: the first request for the subscriber is removed.
unfoldable pub stop_first : List Request → ℕ → List Request × Option Request
stop_first [] bsub = ([], none)
stop_first (r ∷ rs) bsub =
    let rest = stop_first rs bsub in if r.bsub == bsub then (rs, some r) else (r ∷ rest.0, rest.1)

unfoldable pub paging_request_stop : State → ℕ → Bool → State × Option (ℕ × Answer)
unfolding stop_first
paging_request_stop s₀ bsub conn =
    let s = paging_init_if_needed s₀ in
    let (rs, found) = stop_first s.pending_requests bsub in
    (
      record s { pending_requests = rs },
      elim found [
        | none ↦ none
        | some r ↦ if conn then elim r.cbfn [ none ↦ none | some f ↦ some (f, succeeded) ] else none
      ],
    )

-- The base station reports its free slots, a 16-bit number.
unfoldable pub paging_update_buffer_space : State → ℕ → State
unfolding paging_schedule_if_needed
paging_update_buffer_space s free_slots =
    let t = paging_init_if_needed s in
    paging_schedule_if_needed (record t { credit_timer = false; available_slots = free_slots })

unfoldable pub paging_pending_requests_nr : State → ℕ
paging_pending_requests_nr s = length (paging_init_if_needed s).pending_requests

unfoldable pub paging_get_data : List Request → ℕ → Option ℕ
paging_get_data [] bsub = none
paging_get_data (r ∷ rs) bsub =
    let rest = paging_get_data rs bsub in if r.bsub == bsub then r.cbfn else rest
