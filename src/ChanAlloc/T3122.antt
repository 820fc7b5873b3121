-- ===== src/ChanAlloc/T3122.antt =====
-- openbsc/src/libbsc/chan_alloc.c: `bts_update_t3122_chan_load`, the wait indication that follows
-- from the load of the channels. A failed assertion is `none`.
use openbsc.Base.{
  ℕ, ◌+◌, ◌*◌, ◌/◌, ◌%◌, ◌^◌, not, ◌||◌, Option, none, some, List, [], ◌∷◌, if◌then◌else◌, set, ltb,
  leb, ◌==◌,
}
use openbsc.Base.Bits.{◌<<<◌, ◌>>>◌}
use openbsc.Base.{bit_and}
use openbsc.ChanAlloc.{
  Pchan, none_pchan, ccch, ccch_sdcch4, sdcch8_sacch8c, pdch, tch_f_pdch, unknown, ccch_sdcch4_cbch,
  sdcch8_sacch8c_cbch, tch_f_tch_h_pdch, Trx, Bts, trx_is_usable,
}
use openbsc.ChanAlloc.Load.{LoadCounter, PchanLoad, no_load, bts_chan_load}

-- The fields of `struct gsm_bts` for T3122.
pub record LoadAverage : Type 0 where
  pub t3122 : ℕ
  pub chan_load_samples : List LoadCounter
  pub chan_load_samples_idx : ℕ
  pub chan_load_avg : ℕ

-- The kinds of timeslot in the order of their numbers.
abbrev pub all_pchans : List Pchan
all_pchans =
    none_pchan ∷ ccch ∷ ccch_sdcch4 ∷ Pchan.tch_f ∷ Pchan.tch_h ∷ sdcch8_sacch8c ∷ pdch ∷ tch_f_pdch
    ∷ unknown ∷ ccch_sdcch4_cbch ∷ sdcch8_sacch8c_cbch ∷ tch_f_tch_h_pdch ∷ []

-- `total` is a 32-bit number and `used` is a 64-bit one.
unfoldable pub add_counter : LoadCounter → LoadCounter → LoadCounter
add_counter c acc = record {
  total = (acc.total + c.total) % 2 ^ 32;
  used = (acc.used + c.used) % 2 ^ 64;
}

unfoldable pub sum_load : PchanLoad → List Pchan → LoadCounter → LoadCounter
unfolding add_counter
sum_load pl [] acc = acc
sum_load pl (k ∷ ks) acc =
    if ltb 65535 (pl k).used || ltb 65535 (pl k).total
    then sum_load pl ks acc
    else sum_load pl ks (add_counter (pl k) acc)

unfoldable pub sum_samples : List LoadCounter → LoadCounter → LoadCounter
unfolding add_counter
sum_samples [] acc = acc
sum_samples (s ∷ ss) acc = sum_samples ss (add_counter s acc)

-- The fixed-point quotient `used / total` after `used <<= 8`.
unfoldable pub ratio : LoadCounter → ℕ
ratio c = ((c.used <<< 8) % 2 ^ 64) / c.total

unfoldable pub load_average : ℕ → ℕ
load_average q = (bit_and (q * 100 % 2 ^ 64) 4294967040 >>> 8) % 2 ^ 8

unfoldable pub wait_ind : ℕ → ℕ
wait_ind q =
    let w = (q * 128 % 2 ^ 64) >>> 8 in if ltb w 10 then 10 else if ltb 128 w then 128 else w

-- The last part, when all samples are there.
unfoldable pub average_load : LoadCounter → LoadAverage → Option LoadAverage
average_load now w =
    let q = ratio (sum_samples w.chan_load_samples now) in
    if leb (load_average q) 100
    then some (record w {
      t3122 = wait_ind q % 2 ^ 8;
      chan_load_samples_idx = 0;
      chan_load_avg = load_average q;
    })
    else none

-- The part from the check of the sample on.
unfoldable pub add_sample : LoadCounter → LoadAverage → Option LoadAverage
unfolding average_load
add_sample now w =
    if now.total == 0 || ltb now.total now.used
    then some (record w { t3122 = 0; chan_load_samples_idx = 0 })
    else if ltb w.chan_load_samples_idx 7
    then some (record w {
      chan_load_samples =
          set w.chan_load_samples w.chan_load_samples_idx
            (record { total = now.total; used = now.used % 2 ^ 32 });
      chan_load_samples_idx = w.chan_load_samples_idx + 1;
    })
    else average_load now w

unfoldable pub bts_update_t3122_chan_load : Trx → Bts → LoadAverage → Option LoadAverage
unfolding add_sample sum_load
bts_update_t3122_chan_load c0 b w =
    if not (trx_is_usable b.is_ipaccess c0)
    then some w
    else add_sample (sum_load (bts_chan_load no_load b) all_pchans (record { total = 0; used = 0 }))
        w
