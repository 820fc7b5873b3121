-- ===== src/ChanAlloc/Distinct.antt =====
-- openbsc/src/libbsc/chan_alloc.c: one allocation after another, and what an allocation writes.
use mathlib.Core.Path.{subst}
use openbsc.Base.{
  some_inj, ◌≡◌, ◌≢◌, ◌∙◌, refl, sym, ap, ◌⊎◌, inl, inr, Bool, true, false, Option, none, some,
  get_elem?,
}
use openbsc.ChanAlloc.{
  Pchan, ChanType, none_type, sdcch, other, Lchan, Ts, Trx, Bts, Place, ts_pchan, bind_option,
  is_free, take_lchan, lchan_alloc, allocated,
}
use openbsc.ChanAlloc.Alloc.{Found, serves, lchan_alloc-Grant}
use openbsc.ChanAlloc.Places.{lchan_at, map_option, lchan_at-modify_self, lchan_at-modify_ne}
use openbsc.ChanAlloc.Search.{bind_option_at}

-- The timeslot at a place.
unfoldable pub ts_here : Bts → Place → Option Ts
unfolding bind_option
ts_here b p = bind_option (get_elem? b.trxs p.trx) (λ t. get_elem? t.timeslots p.ts)

-- The place is a timeslot in PDCH mode, which is switched over when a channel on it is given.
abbrev pub InPdch : Bts → Place → Type 0
InPdch b p = (ts : Ts) × (ts_here b p ≡ some ts) × (ts_pchan ts ≡ Pchan.pdch)

ts_here-at :
    (b : Bts) (p : Place) (t : Trx) (ts : Ts)
    → get_elem? b.trxs p.trx ≡ some t
    → get_elem? t.timeslots p.ts ≡ some ts
    → ts_here b p ≡ some ts
unfolding ts_here
ts_here-at b p t ts e1 e2 = sym (bind_option_at (get_elem? b.trxs p.trx) _ e1) ∙ e2

lchan_at-at :
    (b : Bts) (p : Place) (t : Trx) (ts : Ts)
    → get_elem? b.trxs p.trx ≡ some t
    → get_elem? t.timeslots p.ts ≡ some ts
    → lchan_at b p ≡ get_elem? ts.lchans p.ss
unfolding lchan_at
lchan_at-at b p t ts e1 e2 =
    sym (bind_option_at (get_elem? b.trxs p.trx) _ e1)
    ∙ sym (bind_option_at (get_elem? t.timeslots p.ts) _ e2)

-- What is given is free, or in PDCH mode.
Found-free :
    (b : Bts) (kind mode : Pchan) (p : Place)
    → Found b kind mode p
    → InPdch b p ⊎ ((lc : Lchan) × (lchan_at b p ≡ some lc) × (is_free lc ≡ true))
Found-free b kind mode p f = elim f.holds [
  | inl (idle, _) ↦ inl (f.ts, ts_here-at b p f.trx f.ts f.trx_at f.ts_here, idle)
  | inr (_, _, lc, at, free) ↦ inr (lc, lchan_at-at b p f.trx f.ts f.trx_at f.ts_here ∙ at, free)
]

serves-taken :
    (type : ChanType) (big : Bool) (t : ChanType) (lc : Lchan)
    → serves type big t ≡ true
    → is_free (take_lchan t lc) ≡ false
unfolding serves take_lchan
serves-taken type big sdcch lc h = refl
serves-taken type big ChanType.tch_f lc h = refl
serves-taken type big ChanType.tch_h lc h = refl
serves-taken sdcch true none_type lc h = cc
serves-taken sdcch false none_type lc h = cc
serves-taken ChanType.tch_f big none_type lc h = cc
serves-taken ChanType.tch_h big none_type lc h = cc
serves-taken none_type big none_type lc h = cc
serves-taken other big none_type lc h = cc
serves-taken type big other lc h = refl

taken_busy :
    (f : Lchan → Lchan) (o : Option Lchan) (lc : Lchan)
    → ((l : Lchan) → is_free (f l) ≡ false)
    → map_option f o ≡ some lc
    → is_free lc ≡ false
unfolding map_option
taken_busy f none lc h e = cc
taken_busy f (some l) lc h e = subst (λ k. is_free k ≡ false) (some_inj e) (h l)

-- A second allocation, in the base station that a first one leaves, returns another channel, or one
-- of a timeslot in PDCH mode.
pub lchan_alloc-distinct :
    (b b₁ b₂ : Bts) (type₁ type₂ : ChanType) (big₁ big₂ : Bool) (p q : Place)
    → lchan_alloc b type₁ big₁ ≡ allocated p b₁
    → lchan_alloc b₁ type₂ big₂ ≡ allocated q b₂
    → (p ≢ q) ⊎ InPdch b₁ q
lchan_alloc-distinct b b₁ b₂ type₁ type₂ big₁ big₂ p q e₁ e₂ =
    let g₁ = lchan_alloc-Grant b b₁ type₁ big₁ p e₁ in
    let g₂ = lchan_alloc-Grant b₁ b₂ type₂ big₂ q e₂ in
    elim (Found-free b₁ g₂.kind g₂.mode q g₂.found) [
      | inl idle ↦ inr idle
      | inr (lc, at, free) ↦ inl (λ same.
          let taken : lchan_at b₁ p ≡ map_option (take_lchan g₁.type) (lchan_at b p) =
            ap (λ c. lchan_at c p) g₁.taken ∙ lchan_at-modify_self (take_lchan g₁.type) b p in
          let busy =
            taken_busy (take_lchan g₁.type) (lchan_at b p) lc
              (λ l. serves-taken type₁ big₁ g₁.type l g₁.type_wanted)
              (sym taken ∙ ap (lchan_at b₁) same ∙ at) in
          cc)
    ]

-- An allocation leaves every other channel of the base station as it is, and gives the one that it
-- returns a type that serves the request.
pub lchan_alloc-frame :
    (b b' : Bts) (type : ChanType) (big : Bool) (p : Place)
    → lchan_alloc b type big ≡ allocated p b'
    → ((q : Place) → p ≢ q → lchan_at b' q ≡ lchan_at b q)
      × (t : ChanType) × (serves type big t ≡ true)
      × (lchan_at b' p ≡ map_option (take_lchan t) (lchan_at b p))
lchan_alloc-frame b b' type big p e =
    let g = lchan_alloc-Grant b b' type big p e in
    (
      λ q n. ap (λ c. lchan_at c q) g.taken ∙ lchan_at-modify_ne (take_lchan g.type) b p q n,
      g.type,
      g.type_wanted,
      ap (λ c. lchan_at c p) g.taken ∙ lchan_at-modify_self (take_lchan g.type) b p,
    )
