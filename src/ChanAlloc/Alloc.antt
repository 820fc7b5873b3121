-- ===== src/ChanAlloc/Alloc.antt =====
-- openbsc/src/libbsc/chan_alloc.c: the channel that `lchan_alloc` returns.
use mathlib.Core.Path.{subst}
use openbsc.Base.{
  some_inj, ℕ, ◌≡◌, refl, sym, ap, Bool, true, false, not, Option, none, some, List, [], ◌∷◌, All,
  if◌then◌else◌, get_elem?, arith,
}
use openbsc.ChanAlloc.{
  Pchan, none_pchan, ccch_sdcch4, sdcch8_sacch8c, tch_f_pdch, ccch_sdcch4_cbch, sdcch8_sacch8c_cbch,
  tch_f_tch_h_pdch, ChanType, none_type, sdcch, other, Ts, Trx, Bts, Place, trx_is_usable,
  ts_is_usable, bind_option, find_in_ts, lc_find_trx, lc_dyn_find_bts, lc_find_bts, or_try,
  try_pchan, try_dyn, choose, modify_lchan, take_lchan, lchan_alloc, Outcome, allocated, alloc_fail,
}
use openbsc.ChanAlloc.Search.{Holds, find_first-some, if_none, bind_option-some, find_in_ts-some}

abbrev pub ts_at : Bts → ℕ → ℕ → Option Ts
ts_at b i j = elim (get_elem? b.trxs i) [ none ↦ none | some t ↦ get_elem? t.timeslots j ]

All-true : (l : List ℕ) → All (λ _. Unit {0}) l
All-true [] = tt
All-true (x ∷ xs) = (tt, All-true xs)

abbrev pub InTrx : Bts → Pchan → Pchan → Trx → ℕ × ℕ → Type 0
InTrx b pchan mode t p =
    (trx_is_usable b.is_ipaccess t ≡ true)
    × (ts : Ts) × (get_elem? t.timeslots p.0 ≡ some ts)
    × (find_in_ts b.is_ipaccess pchan mode ts ≡ some p.1)

pub lc_find_trx-some :
    (b : Bts) (pchan mode : Pchan) (t : Trx) {p : ℕ × ℕ}
    → lc_find_trx b pchan mode t ≡ some p
    → InTrx b pchan mode t p
unfolding lc_find_trx
lc_find_trx-some b pchan mode t e =
    let (g, e1) = if_none (not (trx_is_usable b.is_ipaccess t)) _ e in
    let (j, _, found) = find_first-some (λ _. Unit {0}) _ _ (All-true _) e1 in
    let (ts, at, e2) = bind_option-some (get_elem? t.timeslots j) _ found in
    let (ss, e3, e4) = bind_option-some (find_in_ts b.is_ipaccess pchan mode ts) _ e2 in
    subst (InTrx b pchan mode t) (some_inj e4) (ground (arith, g), ts, at, e3)

-- A place that the search over the base station returns.
pub record Found (b : Bts) (pchan mode : Pchan) (p : Place) : Type 0 where
  pub trx : Trx
  pub trx_at : get_elem? b.trxs p.trx ≡ some trx
  pub trx_usable : trx_is_usable b.is_ipaccess trx ≡ true
  pub ts : Ts
  pub ts_here : get_elem? trx.timeslots p.ts ≡ some ts
  pub ts_usable : ts_is_usable b.is_ipaccess ts ≡ true
  pub ts_kind : ts.pchan ≡ pchan
  pub holds : Holds pchan mode ts p.ss

pub lc_dyn_find_bts-Found :
    (b : Bts) (pchan mode : Pchan) {p : Place}
    → lc_dyn_find_bts b pchan mode ≡ some p
    → Found b pchan mode p
unfolding lc_dyn_find_bts
lc_dyn_find_bts-Found b pchan mode e =
    let (i, _, found) = find_first-some (λ _. Unit {0}) _ _ (All-true _) e in
    let (t, at, e1) = bind_option-some (get_elem? b.trxs i) _ found in
    let (q, e2, e3) = bind_option-some (lc_find_trx b pchan mode t) _ e1 in
    let (usable, ts, ts_at, e4) = lc_find_trx-some b pchan mode t e2 in
    let (ts_usable, kind, holds) = find_in_ts-some b.is_ipaccess pchan mode ts e4 in
    subst (Found b pchan mode) (some_inj e3) (record {
      trx = t;
      trx_at = at;
      trx_usable = usable;
      ts = ts;
      ts_here = ts_at;
      ts_usable = ts_usable;
      ts_kind = kind;
      holds = holds;
    })

-- The kinds of timeslot that carry a channel type: a fully dynamic one is asked for in a mode.
unfoldable pub carries : ChanType → Pchan → Pchan → Bool
carries sdcch ccch_sdcch4 mode = true
carries sdcch ccch_sdcch4_cbch mode = true
carries sdcch sdcch8_sacch8c mode = true
carries sdcch sdcch8_sacch8c_cbch mode = true
carries ChanType.tch_f Pchan.tch_f mode = true
carries ChanType.tch_f tch_f_pdch mode = true
carries ChanType.tch_f tch_f_tch_h_pdch Pchan.tch_f = true
carries ChanType.tch_h Pchan.tch_h mode = true
carries ChanType.tch_h tch_f_tch_h_pdch Pchan.tch_h = true
carries _ _ _ = false

-- The types that may be given for a request.
unfoldable pub serves : ChanType → Bool → ChanType → Bool
serves sdcch big sdcch = true
serves sdcch true ChanType.tch_f = true
serves sdcch true ChanType.tch_h = true
serves ChanType.tch_f big ChanType.tch_f = true
serves ChanType.tch_f big ChanType.tch_h = true
serves ChanType.tch_h big ChanType.tch_f = true
serves ChanType.tch_h big ChanType.tch_h = true
serves _ _ _ = false

-- A choice of the ladder stands for a search that found it, in a kind that carries its type.
abbrev pub Good : Bts → (ChanType → Bool) → Option (Place × ChanType) → Type 0
Good b wanted o =
    (p : Place) (t : ChanType)
    → o ≡ some (p, t)
    → (wanted t ≡ true)
      × (pchan : Pchan) × (mode : Pchan) × (carries t pchan mode ≡ true)
      × Found b pchan mode p

module _ (b : Bts) (wanted : ChanType → Bool) where
  or_try-Good :
      (m n : Option (Place × ChanType))
      → Good b wanted m
      → Good b wanted n
      → Good b wanted (or_try m n)
  unfolding or_try
  or_try-Good none n gm gn = gn
  or_try-Good (some x) n gm gn = gm

  none-Good : Good b wanted none
  none-Good p t e = cc

  if-Good :
      (c : Bool) (m n : Option (Place × ChanType))
      → Good b wanted m
      → Good b wanted n
      → Good b wanted (if c then m else n)
  if-Good true m n gm gn = gm
  if-Good false m n gm gn = gn

  found-Good :
      (pchan mode : Pchan) (t : ChanType)
      → carries t pchan mode ≡ true
      → wanted t ≡ true
      → Good b wanted (bind_option (lc_dyn_find_bts b pchan mode) (λ q. some (q, t)))
  found-Good pchan mode t h w p u e =
      let (q, found, same) = bind_option-some (lc_dyn_find_bts b pchan mode) _ e in
      let k : (q, t) ≡ (p, u) = some_inj same in
      let place : q ≡ p = ap (λ (x : Place × ChanType). x.0) k in
      let type : t ≡ u = ap (λ (x : Place × ChanType). x.1) k in
      (
        subst (λ v. wanted v ≡ true) type w,
        pchan,
        mode,
        subst (λ v. carries v pchan mode ≡ true) type h,
        subst (Found b pchan mode) place (lc_dyn_find_bts-Found b pchan mode found),
      )

  try_dyn-Good :
      (mode : Pchan) (t : ChanType)
      → carries t tch_f_tch_h_pdch mode ≡ true
      → wanted t ≡ true
      → Good b wanted (try_dyn b mode t)
  unfolding try_dyn
  try_dyn-Good mode t = found-Good tch_f_tch_h_pdch mode t

  try_pchan-Good :
      (pchan : Pchan) (t : ChanType)
      → carries t pchan none_pchan ≡ true
      → wanted t ≡ true
      → Good b wanted (try_pchan b pchan t)
  unfolding try_pchan lc_find_bts
  try_pchan-Good pchan t = found-Good pchan none_pchan t

ruleset good = (or_try-Good, none-Good, if-Good, try_dyn-Good, try_pchan-Good)

-- Every choice is good, whatever is asked for.
pub choose-Good :
    (b : Bts) (type : ChanType) (big : Bool) → Good b (serves type big) (choose b type big)
unfolding choose carries serves
choose-Good b sdcch true = search good depth 12
choose-Good b sdcch false = search good depth 12
choose-Good b ChanType.tch_f big = search good depth 12
choose-Good b ChanType.tch_h big = search good depth 12
choose-Good b none_type big = none-Good b _
choose-Good b other big = none-Good b _

-- What an allocation has chosen.
pub record Grant (b : Bts) (wanted : ChanType → Bool) (p : Place) (b' : Bts) : Type 0 where
  pub type : ChanType
  pub type_wanted : wanted type ≡ true
  pub kind : Pchan
  pub mode : Pchan
  pub kind_carries : carries type kind mode ≡ true
  pub found : Found b kind mode p
  pub taken : b' ≡ modify_lchan (take_lchan type) b p

chosen-Grant :
    (b b' : Bts) (wanted : ChanType → Bool) (p q : Place) (t : ChanType)
    → Good b wanted (some (q, t))
    → allocated q (modify_lchan (take_lchan t) b q) ≡ allocated p b'
    → Grant b wanted p b'
chosen-Grant b b' wanted p q t good e =
    let place : q ≡ p = cc in
    let (w, kind, mode, c, found) = good q t refl in
    record {
      type = t;
      type_wanted = w;
      kind = kind;
      mode = mode;
      kind_carries = c;
      found = subst (Found b kind mode) place found;
      taken = rw (sym place) cc;
    }

outcome : Bts → ChanType → Option (Place × ChanType) → Outcome
outcome b type o = elim o [
  | some (p, t) ↦ allocated p (modify_lchan (take_lchan t) b p)
  | none ↦ alloc_fail type
]

outcome-Grant :
    (b b' : Bts) (type : ChanType) (wanted : ChanType → Bool) (p : Place)
    (o : Option (Place × ChanType))
    → Good b wanted o
    → outcome b type o ≡ allocated p b'
    → Grant b wanted p b'
unfolding outcome
outcome-Grant b b' type wanted p none good e = cc
outcome-Grant b b' type wanted p (some (q, t)) good e = chosen-Grant b b' wanted p q t good e

-- A channel that lchan_alloc returns lies in a usable timeslot of a usable transceiver, of a kind
-- that carries the type that is set, and this type serves the request; it is free, or its timeslot
-- is in PDCH mode; and nothing but this channel is written.
pub lchan_alloc-Grant :
    (b b' : Bts) (type : ChanType) (big : Bool) (p : Place)
    → lchan_alloc b type big ≡ allocated p b'
    → Grant b (serves type big) p b'
unfolding lchan_alloc outcome
lchan_alloc-Grant b b' type big p e =
    outcome-Grant b b' type (serves type big) p (choose b type big) (choose-Good b type big) e
