-- ===== src/ChanAlloc.antt =====
-- openbsc/src/libbsc/chan_alloc.c: the channel allocator. A logical channel is named by the numbers
-- of its transceiver, timeslot and subslot; the pointer that the C code returns is that place.
--
-- `find_first` is the common shape of the search loops: the first index whose round returns.
pub mod Search
pub mod Places
pub mod Alloc
pub mod Distinct
pub mod NoRoom
pub mod Free
pub mod Load
pub mod T3122
pub mod Wait
mod Tests
use openbsc.Base.{
  ℕ, zero, suc, ◌+◌, Bool, true, false, not, ◌&&◌, ◌||◌, Option, none, some, List, [], ◌∷◌, map,
  if◌then◌else◌, get_elem?, set, length,
}
use openbsc.Nm.{NmState, nm_is_running}

-- `enum gsm_phys_chan_config`.
pub data Pchan : Type 0 where
  none_pchan ccch ccch_sdcch4 tch_f tch_h sdcch8_sacch8c pdch tch_f_pdch unknown : Pchan
  ccch_sdcch4_cbch sdcch8_sacch8c_cbch tch_f_tch_h_pdch : Pchan

-- `enum gsm_chan_t`; `other` stands for the types that are never allocated here.
pub data ChanType : Type 0 where
  none_type sdcch tch_f tch_h other : ChanType

-- `enum gsm_lchan_state`.
pub data LchanState : Type 0 where
  none_state act_req active rel_req rel_err broken inactive : LchanState

unfoldable pub Pchan-discrete : Discrete Pchan
Pchan-discrete = hlevel

abbrev pub same_pchan : Pchan → Pchan → Bool
same_pchan a b = elim (Pchan-discrete a b) [ yes e ↦ true | no n ↦ false ]

-- The fields of `struct gsm_lchan` that this file reads or writes. Pointers and timers are kept as
-- whether they are set and pending.
pub record Lchan : Type 0 where
  pub type : ChanType
  pub state : LchanState
  pub is_broken_reason : Bool
  pub sapis : List ℕ
  pub mr_ms_lv : List ℕ
  pub mr_bts_lv : List ℕ
  pub conn : Bool
  pub rtp_socket : Bool
  pub rqd_ref : Bool
  pub rqd_ta : ℕ
  pub meas_rep_idx : ℕ
  pub meas_rep : List (ℕ × ℕ)
  pub neigh_arfcns : List ℕ
  pub t3101 : Bool
  pub t3109 : Bool
  pub t3111 : Bool
  pub error_timer : Bool

pub record Ts : Type 0 where
  pub pchan : Pchan
  pub pchan_is : Pchan
  pub pchan_want : Pchan
  pub pdch_active : Bool
  pub pdch_pending : Bool
  pub mo : NmState
  pub lchans : List Lchan

pub record Trx : Type 0 where
  pub mo : NmState
  pub bb_transc : NmState
  pub timeslots : List Ts

pub record Bts : Type 0 where
  pub is_ipaccess : Bool
  pub chan_alloc_reverse : Bool
  pub dyn_ts_allow_tch_f : Bool
  pub trxs : List Trx

pub record Place : Type 0 where
  pub trx : ℕ
  pub ts : ℕ
  pub ss : ℕ

abbrev pub is_none_type : ChanType → Bool
is_none_type t = elim t [ none_type ↦ true | _ ↦ false ]

abbrev pub is_none_state : LchanState → Bool
is_none_state s = elim s [ none_state ↦ true | _ ↦ false ]

abbrev pub is_active : LchanState → Bool
is_active s = elim s [ active ↦ true | _ ↦ false ]

-- `ts_pchan` and the table `subslots_per_pchan` of gsm_data_shared.c.
unfoldable pub ts_pchan : Ts → Pchan
ts_pchan ts = elim ts.pchan [
  | tch_f_tch_h_pdch ↦ ts.pchan_is
  | tch_f_pdch ↦ if ts.pdch_active then Pchan.pdch else Pchan.tch_f
  | static ↦ static
]

-- An entry that the table leaves out is zero, as C fills it.
unfoldable pub subslots_per_pchan : Pchan → ℕ
subslots_per_pchan p = elim p [
  | ccch_sdcch4 ↦ 4
  | Pchan.tch_f ↦ 1
  | Pchan.tch_h ↦ 2
  | sdcch8_sacch8c ↦ 8
  | ccch_sdcch4_cbch ↦ 4
  | sdcch8_sacch8c_cbch ↦ 8
  | _ ↦ 0
]

unfoldable pub ts_subslots : Ts → ℕ
unfolding ts_pchan subslots_per_pchan
ts_subslots ts = subslots_per_pchan (ts_pchan ts)

unfoldable pub trx_is_usable : Bool → Trx → Bool
trx_is_usable is_ipaccess t =
    if is_ipaccess then nm_is_running t.mo && nm_is_running t.bb_transc else true

unfoldable pub ts_is_usable : Bool → Ts → Bool
ts_is_usable is_ipaccess ts =
    if is_ipaccess && not (nm_is_running ts.mo)
    then false
    else if same_pchan ts.pchan tch_f_pdch && ts.pdch_pending
    then false
    else if same_pchan ts.pchan tch_f_tch_h_pdch && not (same_pchan ts.pchan_is ts.pchan_want)
    then false
    else true

-- The numbers from k on, `left` of them, and those below n, highest first.
abbrev pub up_from : ℕ → ℕ → List ℕ
up_from zero k = []
up_from (suc left) k = k ∷ up_from left (k + 1)

abbrev pub down_from : ℕ → List ℕ
down_from zero = []
down_from (suc n) = n ∷ down_from n

unfoldable pub find_first {ℓ} : {A : Type ℓ} → (ℕ → Option A) → List ℕ → Option A
find_first f [] = none
find_first f (i ∷ is) = let rest = find_first f is in elim (f i) [ none ↦ rest | some a ↦ some a ]

unfoldable pub bind_option {ℓ κ} : {A : Type ℓ} {B : Type κ} → Option A → (A → Option B) → Option B
bind_option none f = none
bind_option (some a) f = f a

abbrev pub is_free : Lchan → Bool
is_free lc = is_none_type lc.type && is_none_state lc.state

-- The loop over the subslots of a timeslot.
unfoldable pub find_sub_slot : ℕ → List Lchan → Option ℕ
unfolding bind_option
find_sub_slot check_subslots lchans =
    find_first
      (λ ss. bind_option (get_elem? lchans ss) (λ lc. if is_free lc then some ss else none))
      (up_from check_subslots 0)

-- A fully dynamic timeslot in PDCH mode offers its first channel, unless that is in an error state.
first_if_sane : List Lchan → Option ℕ
first_if_sane [] = none
first_if_sane (lc ∷ lcs) =
    if not (is_none_state lc.state) && not (is_active lc.state) then none else some 0

-- The `switch` of one round, and the loop over the subslots after it; `none` is `continue`.
unfoldable pub find_in_pchan : Pchan → Pchan → Ts → Option ℕ
unfolding first_if_sane
find_in_pchan pchan dyn_as_pchan ts = elim pchan [
  | tch_f_tch_h_pdch ↦
      if not (same_pchan ts.pchan_is ts.pchan_want)
      then none
      else if same_pchan ts.pchan_is Pchan.pdch
      then first_if_sane ts.lchans
      else if not (same_pchan ts.pchan_is dyn_as_pchan)
      then none
      else find_sub_slot (ts_subslots ts) ts.lchans
  | tch_f_pdch ↦ if not (same_pchan (ts_pchan ts) Pchan.pdch) then none else some 0
  | _ ↦ find_sub_slot (ts_subslots ts) ts.lchans
]

unfoldable pub find_in_ts : Bool → Pchan → Pchan → Ts → Option ℕ
find_in_ts is_ipaccess pchan dyn_as_pchan ts =
    if not (ts_is_usable is_ipaccess ts) || not (same_pchan ts.pchan pchan)
    then none
    else find_in_pchan pchan dyn_as_pchan ts

-- `_lc_find_trx`: the eight timeslots, from 0 up or from 7 down.
unfoldable pub lc_find_trx : Bts → Pchan → Pchan → Trx → Option (ℕ × ℕ)
unfolding bind_option
lc_find_trx b pchan dyn_as_pchan t =
    if not (trx_is_usable b.is_ipaccess t)
    then none
    else find_first
        (λ j.
          bind_option (get_elem? t.timeslots j) (λ ts.
            bind_option (find_in_ts b.is_ipaccess pchan dyn_as_pchan ts) (λ ss. some (j, ss))))
        (if b.chan_alloc_reverse then down_from 8 else up_from 8 0)

-- `_lc_dyn_find_bts`: the transceivers in the order of their list, or in the reverse order.
unfoldable pub lc_dyn_find_bts : Bts → Pchan → Pchan → Option Place
unfolding bind_option
lc_dyn_find_bts b pchan dyn_as_pchan =
    find_first
      (λ i. bind_option (get_elem? b.trxs i) (λ t.
        bind_option (lc_find_trx b pchan dyn_as_pchan t)
          (λ p. some (record { trx = i; ts = p.0; ss = p.1 }))))
      (if b.chan_alloc_reverse then down_from (length b.trxs) else up_from (length b.trxs) 0)

unfoldable pub lc_find_bts : Bts → Pchan → Option Place
unfolding lc_dyn_find_bts
lc_find_bts b pchan = lc_dyn_find_bts b pchan none_pchan

-- The ladder of `lchan_alloc`: a further attempt is made only while no channel was found.
unfoldable pub or_try {ℓ} : {A : Type ℓ} → Option A → Option A → Option A
or_try (some a) b = some a
or_try none b = b

unfoldable pub try_pchan : Bts → Pchan → ChanType → Option (Place × ChanType)
unfolding bind_option
try_pchan b pchan type = bind_option (lc_find_bts b pchan) (λ p. some (p, type))

unfoldable pub try_dyn : Bts → Pchan → ChanType → Option (Place × ChanType)
unfolding bind_option
try_dyn b as_pchan type =
    bind_option (lc_dyn_find_bts b tch_f_tch_h_pdch as_pchan) (λ p. some (p, type))

-- `allow_bigger` of the SDCCH case.
unfoldable pub choose_bigger : Bts → Option (Place × ChanType)
unfolding or_try
choose_bigger b = or_try (try_pchan b Pchan.tch_h ChanType.tch_h) (
    or_try (try_pchan b Pchan.tch_f ChanType.tch_f)
      (or_try (try_pchan b tch_f_pdch ChanType.tch_f) (try_dyn b Pchan.tch_h ChanType.tch_h)))

unfoldable pub choose_sdcch : Bts → Option (Place × ChanType)
unfolding or_try
choose_sdcch b =
    if b.chan_alloc_reverse
    then or_try (try_pchan b sdcch8_sacch8c sdcch) (
        or_try (try_pchan b sdcch8_sacch8c_cbch sdcch)
          (or_try (try_pchan b ccch_sdcch4 sdcch) (try_pchan b ccch_sdcch4_cbch sdcch)))
    else or_try (try_pchan b ccch_sdcch4 sdcch) (
        or_try (try_pchan b ccch_sdcch4_cbch sdcch)
          (or_try (try_pchan b sdcch8_sacch8c sdcch) (try_pchan b sdcch8_sacch8c_cbch sdcch)))

unfoldable pub choose_tch_f : Bts → Option (Place × ChanType)
unfolding or_try
choose_tch_f b = or_try (try_pchan b Pchan.tch_f ChanType.tch_f) (
    or_try (try_pchan b Pchan.tch_h ChanType.tch_h) (
      or_try (try_pchan b tch_f_pdch ChanType.tch_f) (
        or_try (if b.dyn_ts_allow_tch_f then try_dyn b Pchan.tch_f ChanType.tch_f else none)
          (try_dyn b Pchan.tch_h ChanType.tch_h))))

unfoldable pub choose_tch_h : Bts → Option (Place × ChanType)
unfolding or_try
choose_tch_h b = or_try (try_pchan b Pchan.tch_h ChanType.tch_h) (
    or_try (try_pchan b Pchan.tch_f ChanType.tch_f)
      (or_try (try_dyn b Pchan.tch_h ChanType.tch_h) (try_pchan b tch_f_pdch ChanType.tch_f)))

unfoldable pub choose : Bts → ChanType → Bool → Option (Place × ChanType)
unfolding or_try choose_bigger choose_sdcch choose_tch_f choose_tch_h
choose b type allow_bigger = elim type [
  | sdcch ↦ or_try (choose_sdcch b) (if allow_bigger then choose_bigger b else none)
  | ChanType.tch_f ↦ choose_tch_f b
  | ChanType.tch_h ↦ choose_tch_h b
  | none_type ↦ none
  | other ↦ none
]

-- What `lchan_alloc` writes to the channel that it returns.
unfoldable pub take_lchan : ChanType → Lchan → Lchan
take_lchan type lc = record lc {
  type = type;
  is_broken_reason = false;
  sapis = map (λ _. 0) lc.sapis;
  mr_ms_lv = map (λ _. 0) lc.mr_ms_lv;
  mr_bts_lv = map (λ _. 0) lc.mr_bts_lv;
}

unfoldable pub modify {ℓ} : {A : Type ℓ} → (A → A) → List A → ℕ → List A
modify f [] i = []
modify f (x ∷ xs) zero = f x ∷ xs
modify f (x ∷ xs) (suc i) = x ∷ modify f xs i

unfoldable pub modify_lchan : (Lchan → Lchan) → Bts → Place → Bts
unfolding modify
modify_lchan f b p = record b {
  trxs =
      modify
        (λ t. record t {
          timeslots =
              modify (λ ts. record ts { lchans = modify f ts.lchans p.ss }) t.timeslots p.ts;
        })
        b.trxs p.trx;
}

-- The channel, or the signal `S_CHALLOC_ALLOC_FAIL` with the type that was asked for.
pub data Outcome : Type 0 where
  allocated : Place → Bts → Outcome
  alloc_fail : ChanType → Outcome

unfoldable pub lchan_alloc : Bts → ChanType → Bool → Outcome
unfolding modify_lchan take_lchan
lchan_alloc b type allow_bigger = elim (choose b type allow_bigger) [
  | some (p, t) ↦ allocated p (modify_lchan (take_lchan t) b p)
  | none ↦ alloc_fail type
]
