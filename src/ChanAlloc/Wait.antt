-- ===== src/ChanAlloc/Wait.antt =====
-- openbsc/src/libbsc/chan_alloc.c: the numbers behind T3122, over one update and over eight.
use native.Mathlib.Decide.{ℕ_discrete}
use native.Mathlib.Nat.{div-le_of_le-mul}
use openbsc.ChanAlloc.Search.{bind_option_at}
use openbsc.Base.{
  sym, ℕ, zero, suc, ◌+◌, ◌*◌, ◌%◌, ◌^◌, ◌≤◌, ◌<◌, ◌≡◌, refl, ◌⊎◌, inl, inr, true, not, ◌||◌,
  Option, some, List, [], ◌∷◌, All, length, set, length-set, ltb, le→leb, ◌∙◌, arith, Bool-cases,
}
use openbsc.Base.Bits.{bit_and-le}
use openbsc.ChanAlloc.{bind_option, Pchan, Trx, Bts, trx_is_usable}
use openbsc.ChanAlloc.Load.{
  LoadCounter, PchanLoad, no_load, bts_chan_load, Sane, bts_chan_load-Sane,
}
use openbsc.ChanAlloc.T3122.{
  LoadAverage, all_pchans, add_counter, sum_load, sum_samples, ratio, load_average, wait_ind,
  average_load, add_sample, bts_update_t3122_chan_load,
}

-- A counter that fits: the sum of twelve counters of 16 bits.
abbrev pub Fits : ℕ → LoadCounter → Type 0
Fits n c = (c.used ≤ c.total) × (c.total ≤ n)

add_counter-Fits :
    (m n : ℕ) (c acc : LoadCounter)
    → m + n < 4294967296
    → Fits m c
    → Fits n acc
    → Fits (m + n) (add_counter c acc)
unfolding add_counter
add_counter-Fits m n c acc h f g =
    (omega (arith, f.0, f.1, g.0, g.1), omega (arith, f.0, f.1, g.0, g.1))

sum_load-Fits :
    (pl : PchanLoad) (ks : List Pchan) (acc : LoadCounter) (n : ℕ)
    → Sane pl
    → n + 65535 * length ks < 4294967296
    → Fits n acc
    → Fits (n + 65535 * length ks) (sum_load pl ks acc)
unfolding sum_load
sum_load-Fits pl [] acc n s h f = (f.0, omega (arith, f.1))
sum_load-Fits pl (k ∷ ks) acc n s h f =
    elim (Bool-cases (ltb 65535 (pl k).used || ltb 65535 (pl k).total)) [
      | inl e ↦
          let r = sum_load-Fits pl ks acc n s (omega arith) f in rw e (r.0, omega (arith, r.1))
      | inr e ↦
          let small : (pl k).total ≤ 65535 = ground arith in
          let r =
            sum_load-Fits pl ks (add_counter (pl k) acc) (65535 + n) s (omega arith)
              (add_counter-Fits 65535 n (pl k) acc (omega arith) (s k, small) f) in
          rw e (r.0, omega (arith, r.1))
    ]

sum_samples-Fits :
    (ss : List LoadCounter) (acc : LoadCounter) (n : ℕ)
    → All (Fits 786420) ss
    → n + 786420 * length ss < 4294967296
    → Fits n acc
    → Fits (n + 786420 * length ss) (sum_samples ss acc)
unfolding sum_samples
sum_samples-Fits [] acc n a h f = (f.0, omega (arith, f.1))
sum_samples-Fits (s ∷ ss) acc n a h f =
    let r =
      sum_samples-Fits ss (add_counter s acc) (786420 + n) a.1 (omega arith)
        (add_counter-Fits 786420 n s acc (omega arith) a.0 f) in
    (r.0, omega (arith, r.1))

ratio-le : (c : LoadCounter) → Fits 4294967295 c → ratio c ≤ 256
unfolding ratio
ratio-le c f = div-le_of_le-mul c.total (omega (arith, f.0, f.1))

load_average-le : (q : ℕ) → q ≤ 256 → load_average q ≤ 100
unfolding load_average
load_average-le q h = omega (arith, bit_and-le (q * 100 % 18446744073709551616) 4294967040)

wait_ind-bounds : (q : ℕ) → (10 ≤ wait_ind q % 2 ^ 8) × (wait_ind q % 2 ^ 8 ≤ 128)
unfolding wait_ind
wait_ind-bounds q = (ground arith, ground arith)

-- The wait indication is off, or between 10 and 128 seconds.
abbrev pub WaitOk : ℕ → Type 0
WaitOk t = (t ≡ 0) ⊎ ((10 ≤ t) × (t ≤ 128))

-- What the code keeps between two updates.
pub record IsValid (w : LoadAverage) : Type 0 where
  pub wait_ok : WaitOk w.t3122
  pub samples : length w.chan_load_samples ≡ 7
  pub idx : w.chan_load_samples_idx ≤ 7
  pub fit : All (Fits 786420) w.chan_load_samples
  pub avg : w.chan_load_avg ≤ 100

All-set :
    (P : LoadCounter → Type 0) (l : List LoadCounter) (i : ℕ) (c : LoadCounter)
    → All P l
    → P c
    → All P (set l i c)
All-set P [] i c a p = tt
All-set P (x ∷ l) zero c a p = (p, a.1)
All-set P (x ∷ l) (suc i) c a p = (a.0, All-set P l i c a.1 p)

store-IsValid :
    (now : LoadCounter) (w : LoadAverage)
    → IsValid w
    → Fits 786420 now
    → w.chan_load_samples_idx < 7
    → IsValid (record w {
      chan_load_samples =
          set w.chan_load_samples w.chan_load_samples_idx
            (record { total = now.total; used = now.used % 2 ^ 32 });
      chan_load_samples_idx = w.chan_load_samples_idx + 1;
    })
store-IsValid now w v f h = record {
  wait_ok = v.wait_ok;
  samples = length-set w.chan_load_samples w.chan_load_samples_idx _ ∙ v.samples;
  idx = omega arith;
  fit =
      All-set _ w.chan_load_samples w.chan_load_samples_idx _ v.fit (omega (arith, f.0, f.1), f.1);
  avg = v.avg;
}

-- The average of the samples never fails the assertion, and sets the wait indication.
average_load-some :
    (now : LoadCounter) (w : LoadAverage)
    → IsValid w
    → Fits 786420 now
    → (w' : LoadAverage) × (average_load now w ≡ some w')
      × IsValid w'
      × (w'.chan_load_samples_idx ≡ 0)
      × (10 ≤ w'.t3122)
      × (w'.t3122 ≤ 128)
unfolding average_load
average_load-some now w v f =
    let q = ratio (sum_samples w.chan_load_samples now) in
    let s = sum_samples-Fits w.chan_load_samples now 786420 v.fit (omega (arith, v.samples)) f in
    let h =
      load_average-le q
        (ratio-le (sum_samples w.chan_load_samples now) (s.0, omega (arith, s.1, v.samples))) in
    let t = wait_ind-bounds q in
    (
      record w {
        t3122 = wait_ind q % 2 ^ 8;
        chan_load_samples_idx = 0;
        chan_load_avg = load_average q;
      },
      rw (le→leb _ _ h) refl,
      record { wait_ok = inr t; samples = v.samples; idx = omega arith; fit = v.fit; avg = h },
      refl,
      t.0,
      t.1,
    )

pub Next : (LoadAverage → Option LoadAverage) → LoadAverage → (LoadAverage → Type 0) → Type 0
Next step w P = (w' : LoadAverage) × (step w ≡ some w') × IsValid w' × P w'

-- The load of a base station, as the update sums it up.
abbrev pub bts_sum : Bts → LoadCounter
bts_sum b = sum_load (bts_chan_load no_load b) all_pchans (record { total = 0; used = 0 })

bts_sum-Fits : (b : Bts) → Fits 786420 (bts_sum b)
unfolding no_load
bts_sum-Fits b =
    sum_load-Fits (bts_chan_load no_load b) all_pchans (record { total = 0; used = 0 }) 0
      (bts_chan_load-Sane b no_load (λ k. omega arith)) (omega arith) (omega arith, omega arith)

sample-stored :
    (now : LoadCounter) (w : LoadAverage)
    → IsValid w
    → Fits 786420 now
    → 0 < now.total
    → w.chan_load_samples_idx < 7
    → Next
        (add_sample now)
        w
        (λ w'. (w'.chan_load_samples_idx ≡ w.chan_load_samples_idx + 1) × (w'.t3122 ≡ w.t3122))
unfolding add_sample Next
sample-stored now w v f pos h = (_, ground (arith, f.0), store-IsValid now w v f h, (refl, refl))

sample-last :
    (now : LoadCounter) (w : LoadAverage)
    → IsValid w
    → Fits 786420 now
    → 0 < now.total
    → w.chan_load_samples_idx ≡ 7
    → Next
        (add_sample now)
        w
        (λ w'. (w'.chan_load_samples_idx ≡ 0) × (10 ≤ w'.t3122) × (w'.t3122 ≤ 128))
unfolding add_sample Next
sample-last now w v f pos h =
    let (w', e, v', i, lo, hi) = average_load-some now w v f in
    (w', ground (arith, f.0, e), v', (i, lo, hi))

sample-bogus :
    (now : LoadCounter) (w : LoadAverage)
    → IsValid w
    → now.total ≡ 0
    → Next (add_sample now) w (λ w'. (w'.chan_load_samples_idx ≡ 0) × (w'.t3122 ≡ 0))
unfolding add_sample Next
sample-bogus now w v e = (
  record w { t3122 = 0; chan_load_samples_idx = 0 },
  ground arith,
  record { wait_ok = inl refl; samples = v.samples; idx = omega arith; fit = v.fit; avg = v.avg },
  (refl, refl),
)

add_sample-IsValid :
    (now : LoadCounter) (w : LoadAverage)
    → IsValid w
    → Fits 786420 now
    → (w' : LoadAverage) × (add_sample now w ≡ some w') × IsValid w'
unfolding Next
add_sample-IsValid now w v f = elim (ℕ_discrete now.total 0) [
  | yes e ↦ let (w', s, v', _) = sample-bogus now w v e in (w', s, v')
  | no n ↦ elim (ℕ_discrete w.chan_load_samples_idx 7) [
    | yes e ↦ let (w', s, v', _) = sample-last now w v f (omega (arith, n)) e in (w', s, v')
    | no m ↦
        let (w', s, v', _) = sample-stored now w v f (omega (arith, n)) (omega (arith, m, v.idx)) in
        (w', s, v')
  ]
]

-- From any valid state an update of T3122 succeeds, so that its assertion holds, and leaves a valid
-- state: the wait indication is off or between 10 and 128.
pub bts_update_t3122_chan_load-IsValid :
    (c0 : Trx) (b : Bts) (w : LoadAverage)
    → IsValid w
    → (w' : LoadAverage) × (bts_update_t3122_chan_load c0 b w ≡ some w') × IsValid w'
unfolding bts_update_t3122_chan_load
bts_update_t3122_chan_load-IsValid c0 b w v =
    elim (Bool-cases (not (trx_is_usable b.is_ipaccess c0))) [
      | inl e ↦ (w, rw e refl, v)
      | inr e ↦
          let (w', e', v') = add_sample-IsValid (bts_sum b) w v (bts_sum-Fits b) in
          (w', rw e e', v')
    ]

unfoldable pub updates : ℕ → Trx → Bts → LoadAverage → Option LoadAverage
unfolding bind_option
updates zero c0 b w = some w
updates (suc n) c0 b w = bind_option (bts_update_t3122_chan_load c0 b w) (updates n c0 b)

usable-update :
    (c0 : Trx) (b : Bts) (w : LoadAverage)
    → trx_is_usable b.is_ipaccess c0 ≡ true
    → bts_update_t3122_chan_load c0 b w ≡ add_sample (bts_sum b) w
unfolding bts_update_t3122_chan_load
usable-update c0 b w u = rw u refl

update_chain :
    (c0 : Trx) (b : Bts) (n : ℕ) (w : LoadAverage) {w' w'' : LoadAverage}
    → bts_update_t3122_chan_load c0 b w ≡ some w'
    → updates n c0 b w' ≡ some w''
    → updates (suc n) c0 b w ≡ some w''
unfolding updates
update_chain c0 b n w e r =
    sym (bind_option_at (bts_update_t3122_chan_load c0 b w) (updates n c0 b) e) ∙ r

-- For a base station in operation with a channel that counts, the updates that fill the seven
-- samples, and one more, set the wait indication to a value between 10 and 128.
pub updates_lem :
    (c0 : Trx) (b : Bts) (n : ℕ) (w : LoadAverage)
    → trx_is_usable b.is_ipaccess c0 ≡ true
    → 0 < (bts_sum b).total
    → IsValid w
    → w.chan_load_samples_idx + n ≡ 7
    → (w' : LoadAverage) × (updates (suc n) c0 b w ≡ some w')
      × (w'.chan_load_samples_idx ≡ 0)
      × (10 ≤ w'.t3122)
      × (w'.t3122 ≤ 128)
unfolding updates Next
updates_lem c0 b zero w u pos v h =
    let (w', e, v', t) = sample-last (bts_sum b) w v (bts_sum-Fits b) pos (omega arith) in
    (w', update_chain c0 b 0 w (usable-update c0 b w u ∙ e) refl, t.0, t.1, t.2)
updates_lem c0 b (suc n) w u pos v h =
    let (w', e, v', t) = sample-stored (bts_sum b) w v (bts_sum-Fits b) pos (omega arith) in
    let r = updates_lem c0 b n w' u pos v' (omega (arith, t.0)) in
    (r.0, update_chain c0 b (suc n) w (usable-update c0 b w u ∙ e) r.1, r.2, r.3, r.4)
