-- ===== src/Rf/Grace.antt =====
-- openbsc/src/osmo-bsc/osmo_bsc_grace.c: what is allowed while the radio is off or in the grace
-- period, and whom the grace period is announced to.
use openbsc.Base.{
  ℕ, zero, suc, ◌+◌, ◌≡◌, ◌∙◌, ap, inl, inr, Bool, true, false, not, ◌&&◌, Option, none, some, List,
  [], ◌∷◌, map, get_elem?, if◌then◌else◌, ◌==◌, Bool-cases, some_inj, arith,
}
use openbsc.ChanAlloc.{ChanType, LchanState, active}
use openbsc.Paging.{ChanNeed, unusable, pending, requested, paging_request_bts}
use openbsc.Paging.Area.{Cell, paging_request}
use openbsc.Rf.{Policy, rf_off, rf_on, rf_grace}

-- Which base stations are excluded from the lock, by their numbers.
abbrev pub Excluded : Type 0
Excluded = ℕ → Bool

abbrev is_on : Policy → Bool
is_on rf_on = true
is_on rf_off = false
is_on rf_grace = false

unfoldable pub bsc_grace_allow_new_connection : Policy → Excluded → Cell → Bool
bsc_grace_allow_new_connection policy excl c = if excl c.nr then true else is_on policy

-- `paging_request_bts` for a cell, with the return code if it is positive.
unfoldable pub page_cell : ℕ → ChanNeed → Cell → Cell × ℕ
page_cell bsub chan c = elim (paging_request_bts c.env c.paging bsub chan none) [
  | unusable ↦ (c, 0)
  | pending ↦ (c, 0)
  | requested t ↦ (record c { paging = t }, 1)
]

-- The loops over the base stations, which skip those that fail a test.
unfoldable pub page_cells : (Cell → Bool) → ℕ → ChanNeed → List Cell → List Cell × ℕ
unfolding page_cell
page_cells test bsub chan [] = ([], 0)
page_cells test bsub chan (c ∷ cs) =
    let (rest, n) = page_cells test bsub chan cs in
    let (c', m) = page_cell bsub chan c in if test c then (c' ∷ rest, m + n) else (c ∷ rest, n)

-- `normal_paging`; a `core_lac` of -1 is `none`.
unfoldable pub normal_paging : Option ℕ → ℕ → ℕ → ChanNeed → List Cell → List Cell × ℕ
unfolding page_cells
normal_paging (some core_lac) lac bsub chan cells = page_cells (λ c. true) bsub chan cells
normal_paging none lac bsub chan cells = paging_request lac bsub chan none cells

abbrev is_locked_target : Option ℕ → ℕ → Excluded → Cell → Bool
is_locked_target (some core_lac) lac excl c = excl c.nr
is_locked_target none lac excl c = excl c.nr && (lac == c.location_area_code)

unfoldable pub locked_paging : Option ℕ → ℕ → Excluded → ℕ → ChanNeed → List Cell → List Cell × ℕ
unfolding page_cells
locked_paging core_lac lac excl bsub chan cells =
    page_cells (is_locked_target core_lac lac excl) bsub chan cells

unfoldable pub bsc_grace_paging_request :
    Policy → Option ℕ → ℕ → Excluded → ℕ → ChanNeed → List Cell → List Cell × ℕ
unfolding normal_paging locked_paging
bsc_grace_paging_request policy core_lac lac excl bsub chan cells =
    if is_on policy
    then normal_paging core_lac lac bsub chan cells
    else locked_paging core_lac lac excl bsub chan cells

-- What the announcement looks at in a channel: `is_primary` is `conn->lchan == lchan`, of a channel
-- with a connection.
pub record GraceLchan : Type 0 where
  pub type : ChanType
  pub is_primary : Option Bool
  pub state : LchanState

abbrev is_tch : ChanType → Bool
is_tch ChanType.tch_f = true
is_tch ChanType.tch_h = true
is_tch _ = false

abbrev is_active : LchanState → Bool
is_active s = elim s [ active ↦ true | _ ↦ false ]

-- `handle_sub`: whether the notification is sent.
unfoldable pub handle_sub : GraceLchan → Bool
handle_sub lchan = elim lchan.is_primary [
  | none ↦ false
  | some primary ↦ is_tch lchan.type && primary && is_active lchan.state
]

-- The channels of the network: of the base stations, their transceivers and the timeslots.
abbrev pub Channels : Type 0
Channels = List (List (List (List GraceLchan)))

unfoldable pub handle_grace : Bool → Channels → List (List (List (List Bool)))
unfolding handle_sub
handle_grace has_text network =
    if not has_text then [] else map (map (map (map handle_sub))) network

-- `handle_rf_signal`.
unfoldable pub handle_rf_signal : Policy → Bool → Channels → List (List (List (List Bool)))
unfolding handle_grace
handle_rf_signal rf_grace has_text network = handle_grace has_text network
handle_rf_signal rf_off has_text network = []
handle_rf_signal rf_on has_text network = []

page_cells-skip :
    (test : Cell → Bool) (bsub : ℕ) (chan : ChanNeed) (cs : List Cell) (i : ℕ) (c : Cell)
    → get_elem? cs i ≡ some c
    → test c ≡ false
    → get_elem? (page_cells test bsub chan cs).0 i ≡ some c
unfolding page_cells
page_cells-skip test bsub chan [] i c h e = h
page_cells-skip test bsub chan (d ∷ cs) zero c h e =
    let e' : test d ≡ false = ap test (some_inj h) ∙ e in rw e' h
page_cells-skip test bsub chan (d ∷ cs) (suc i) c h e = elim (Bool-cases (test d)) [
  | inl t ↦ rw t (page_cells-skip test bsub chan cs i c h e)
  | inr t ↦ rw t (page_cells-skip test bsub chan cs i c h e)
]

not_target :
    (core_lac : Option ℕ) (lac : ℕ) (excl : Excluded) (c : Cell)
    → excl c.nr ≡ false
    → is_locked_target core_lac lac excl c ≡ false
not_target none lac excl c e = ground (arith, e)
not_target (some n) lac excl c e = e

-- Whatever the policy, a paging request leaves every base station on which no new connection is
-- allowed as it was.
pub bsc_grace_paging_request-refused :
    (policy : Policy) (core_lac : Option ℕ) (lac : ℕ) (excl : Excluded) (bsub : ℕ) (chan : ChanNeed)
    (cs : List Cell) (i : ℕ) (c : Cell)
    → get_elem? cs i ≡ some c
    → bsc_grace_allow_new_connection policy excl c ≡ false
    → get_elem? (bsc_grace_paging_request policy core_lac lac excl bsub chan cs).0 i ≡ some c
unfolding bsc_grace_paging_request bsc_grace_allow_new_connection
bsc_grace_paging_request-refused policy core_lac lac excl bsub chan cs i c h e =
    elim (Bool-cases (excl c.nr)) [
      | inl x ↦ absurd (ground (arith, x, e))
      | inr x ↦
          let p : is_on policy ≡ false = ground (arith, x, e) in
          rw p (
            page_cells-skip (is_locked_target core_lac lac excl) bsub chan cs i c h
              (not_target core_lac lac excl c x))
    ]
