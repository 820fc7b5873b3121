-- ===== src/ChanAlloc/Free.antt =====
-- openbsc/src/libbsc/chan_alloc.c: freeing, resetting and releasing a channel, with the calls that
-- the code makes on the way as a list of events, and the signals that it sends.
use openbsc.Base.{
  ℕ, ◌≡◌, refl, Bool, true, false, List, [], ◌∷◌, ◌++◌, map, if◌then◌else◌, get_or, ◌==◌,
}
use openbsc.ChanAlloc.{ChanType, none_type, LchanState, none_state, rel_req, Lchan, is_free}

pub data Event : Type 0 where
  unexpected_release : Event
  freed : ChanType → Event
  rtp_socket_free : Event
  set_state : LchanState → Event
  release_sapis_from : ℕ → Event
  send_rr_release : Event
  deact_sacch : Event
  start_t3109 : Event
  direct_rf_release : Event
  release_request : ℕ → ℕ → Event

abbrev pub State : Type 0
State = Lchan × List Event

when : Bool → List Event → List Event
when c es = if c then es else []

-- `lchan_free`. The signal `S_CHALLOC_FREED` carries the type that the channel had.
unfoldable pub lchan_free : Lchan → State
unfolding when
lchan_free lc = (
  record lc {
    type = none_type;
    rtp_socket = false;
    t3101 = false;
    meas_rep_idx = 0;
    meas_rep = map (λ _. (0, 0)) lc.meas_rep;
    neigh_arfcns = map (λ _. 0) lc.neigh_arfcns;
    rqd_ref = false;
    rqd_ta = if lc.rqd_ref then 0 else lc.rqd_ta;
    conn = false;
  },
  when lc.conn (unexpected_release ∷ [])
      ++ (when lc.rtp_socket (rtp_socket_free ∷ []) ++ (freed lc.type ∷ [])),
)

-- `lchan_reset`.
unfoldable pub lchan_reset : Lchan → State
unfolding when
lchan_reset lc = (
  record lc {
    t3101 = false;
    t3109 = false;
    t3111 = false;
    error_timer = false;
    type = none_type;
    state = none_state;
    rtp_socket = false;
  },
  when lc.rtp_socket (rtp_socket_free ∷ []),
)

-- `_lchan_handle_release`: what it asks of the radio link layer; an unused SAPI is 0.
unfoldable pub lchan_handle_release : Bool → ℕ → Lchan → List Event
lchan_handle_release sacch_deact mode lc =
    release_sapis_from 1
    ∷ (if sacch_deact
        then send_rr_release ∷ deact_sacch ∷ start_t3109 ∷ []
        else if get_or lc.sapis 0 0 == 0
        then direct_rf_release ∷ []
        else release_request 0 mode ∷ [])

-- `lchan_release`; `rsl_lchan_set_state` of abis_rsl.c is the write of the state.
unfoldable pub lchan_release : Bool → ℕ → Lchan → State
lchan_release sacch_deact mode lc =
    let lc' : Lchan = record lc { state = rel_req; conn = false } in
    (lc', set_state rel_req ∷ lchan_handle_release sacch_deact mode lc')

-- Freeing and then resetting a channel makes it available for allocation, with no timer pending and
-- no socket, connection, request reference or cached measurement left, whatever it was in.
pub lchan_free-lchan_reset :
    (lc : Lchan)
    → let lc' = (lchan_reset (lchan_free lc).0).0 in
      (is_free lc' ≡ true)
      × (lc'.t3101 ≡ false)
      × (lc'.t3109 ≡ false)
      × (lc'.t3111 ≡ false)
      × (lc'.error_timer ≡ false)
      × (lc'.conn ≡ false)
      × (lc'.rtp_socket ≡ false)
      × (lc'.rqd_ref ≡ false)
      × (lc'.meas_rep_idx ≡ 0)
      × ((lchan_reset (lchan_free lc).0).1 ≡ [])
unfolding lchan_free lchan_reset when
lchan_free-lchan_reset lc = (refl, refl, refl, refl, refl, refl, refl, refl, refl, refl)
