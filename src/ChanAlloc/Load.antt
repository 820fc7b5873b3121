-- ===== src/ChanAlloc/Load.antt =====
-- openbsc/src/libbsc/chan_alloc.c: `bts_chan_load` and `network_chan_load`, the number of channels
-- in use per kind of timeslot.
use openbsc.Base.{
  ℕ, zero, suc, ◌+◌, ◌≤◌, not, ◌&&◌, ◌||◌, List, [], ◌∷◌, if◌then◌else◌, arith, Bool-cases, inl,
  inr,
}
use openbsc.Nm.{nm_is_running}
use openbsc.ChanAlloc.{Pchan, same_pchan, Lchan, Ts, Trx, Bts, ts_subslots, is_none_state}

pub record LoadCounter : Type 0 where
  pub total : ℕ
  pub used : ℕ

-- `struct pchan_load`: a counter per kind of timeslot.
abbrev pub PchanLoad : Type 0
PchanLoad = Pchan → LoadCounter

unfoldable pub no_load : PchanLoad
no_load k = record { total = 0; used = 0 }

count_lchan : Lchan → LoadCounter → LoadCounter
count_lchan lc c = record {
  total = c.total + 1;
  used = if is_none_state lc.state then c.used else c.used + 1;
}

-- The first `n` channels of the timeslot.
unfoldable pub count_lchans : ℕ → List Lchan → LoadCounter → LoadCounter
unfolding count_lchan
count_lchans zero ls c = c
count_lchans (suc n) [] c = c
count_lchans (suc n) (lc ∷ ls) c = count_lchans n ls (count_lchan lc c)

unfoldable pub ts_load : Ts → PchanLoad → PchanLoad
ts_load ts cl k =
    if nm_is_running ts.mo && same_pchan ts.pchan k
    then count_lchans (ts_subslots ts) ts.lchans (cl k)
    else cl k

unfoldable pub timeslots_load : List Ts → PchanLoad → PchanLoad
timeslots_load [] cl = cl
timeslots_load (ts ∷ tss) cl = timeslots_load tss (ts_load ts cl)

unfoldable pub trx_load : Trx → PchanLoad → PchanLoad
trx_load t cl =
    if not (nm_is_running t.mo) || not (nm_is_running t.bb_transc)
    then cl
    else timeslots_load t.timeslots cl

trxs_load : List Trx → PchanLoad → PchanLoad
trxs_load [] cl = cl
trxs_load (t ∷ ts) cl = trxs_load ts (trx_load t cl)

unfoldable pub bts_chan_load : PchanLoad → Bts → PchanLoad
unfolding trxs_load
bts_chan_load cl b = trxs_load b.trxs cl

add_bts : List Bts → PchanLoad → PchanLoad
add_bts [] cl = cl
add_bts (b ∷ bs) cl = add_bts bs (bts_chan_load cl b)

unfoldable pub network_chan_load : List Bts → PchanLoad
unfolding add_bts
network_chan_load bs = add_bts bs no_load

-- At most as many channels are in use as there are.
abbrev pub Sane : PchanLoad → Type 0
Sane cl = (k : Pchan) → (cl k).used ≤ (cl k).total

count_lchans-le :
    (n : ℕ) (ls : List Lchan) (c : LoadCounter)
    → c.used ≤ c.total
    → (count_lchans n ls c).used ≤ (count_lchans n ls c).total
unfolding count_lchans count_lchan
count_lchans-le zero ls c h = h
count_lchans-le (suc n) [] c h = h
count_lchans-le (suc n) (lc ∷ ls) c h = count_lchans-le n ls (count_lchan lc c) (ground arith)

ts_load-Sane : (ts : Ts) (cl : PchanLoad) → Sane cl → Sane (ts_load ts cl)
unfolding ts_load
ts_load-Sane ts cl h k = elim (Bool-cases (nm_is_running ts.mo && same_pchan ts.pchan k)) [
  | inl e ↦ rw e (count_lchans-le (ts_subslots ts) ts.lchans (cl k) (h k))
  | inr e ↦ rw e (h k)
]

timeslots_load-Sane : (tss : List Ts) (cl : PchanLoad) → Sane cl → Sane (timeslots_load tss cl)
unfolding timeslots_load
timeslots_load-Sane [] cl h = h
timeslots_load-Sane (ts ∷ tss) cl h = timeslots_load-Sane tss (ts_load ts cl) (ts_load-Sane ts cl h)

trx_load-Sane : (t : Trx) (cl : PchanLoad) → Sane cl → Sane (trx_load t cl)
unfolding trx_load
trx_load-Sane t cl h =
    elim (Bool-cases (not (nm_is_running t.mo) || not (nm_is_running t.bb_transc))) [
      | inl e ↦ rw e h
      | inr e ↦ rw e (timeslots_load-Sane t.timeslots cl h)
    ]

trxs_load-Sane : (ts : List Trx) (cl : PchanLoad) → Sane cl → Sane (trxs_load ts cl)
unfolding trxs_load
trxs_load-Sane [] cl h = h
trxs_load-Sane (t ∷ ts) cl h = trxs_load-Sane ts (trx_load t cl) (trx_load-Sane t cl h)

pub bts_chan_load-Sane : (b : Bts) (cl : PchanLoad) → Sane cl → Sane (bts_chan_load cl b)
unfolding bts_chan_load
bts_chan_load-Sane b = trxs_load-Sane b.trxs

add_bts-Sane : (bs : List Bts) (cl : PchanLoad) → Sane cl → Sane (add_bts bs cl)
unfolding add_bts
add_bts-Sane [] cl h = h
add_bts-Sane (b ∷ bs) cl h = add_bts-Sane bs (bts_chan_load cl b) (bts_chan_load-Sane b cl h)

-- In the load of a network no kind of timeslot has more channels in use than it has channels.
pub network_chan_load-Sane : (bs : List Bts) → Sane (network_chan_load bs)
unfolding network_chan_load no_load
network_chan_load-Sane bs = add_bts-Sane bs no_load (λ k. omega arith)
