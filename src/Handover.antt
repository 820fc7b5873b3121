-- ===== src/Handover.antt =====
-- openbsc/src/libbsc/handover_logic.c: the procedure of a handover, from the allocation of the new
-- channel to its end by completion, failure, T3103 or the end of the connection.
--
-- Channels, connections and base stations are numbers, and the pointers between them are functions;
-- `none` for a result is the use of a null pointer. What `lchan_alloc` and the activation return is
-- an argument. The counters of the statistics are left out.
pub mod Pointers
pub mod Valid
pub mod Start
pub mod Assignment
pub mod Ends
pub mod Settled
mod Tests
use openbsc.Base.{
  ℕ, ◌+◌, ◌%◌, Bool, true, false, not, ◌&&◌, Option, none, some, List, [], ◌∷◌, ◌++◌, if◌then◌else◌,
  ◌==◌,
}

-- `struct bsc_handover`; `t3103` is whether the timer is pending.
pub record Handover : Type 0 where
  pub old_lchan : ℕ
  pub new_lchan : ℕ
  pub t3103 : Bool
  pub ho_ref : ℕ

-- `conn` is that of a channel, `lchan`, `ho_lchan`, `secondary_lchan` and `bts` are those of a
-- connection. `settings` stands for what is copied from the old channel: cipher, power, mode and
-- codec.
pub record State : Type 0 where
  pub bsc_handovers : List Handover
  pub next_ref : ℕ
  pub conn : ℕ → Option ℕ
  pub settings : ℕ → ℕ
  pub lchan : ℕ → Option ℕ
  pub ho_lchan : ℕ → Option ℕ
  pub secondary_lchan : ℕ → Option ℕ
  pub bts : ℕ → ℕ

-- The base station of a channel, and the kinds of base stations.
pub record Site : Type 0 where
  pub bts_of : ℕ → ℕ
  pub is_ipaccess : ℕ → Bool
  pub is_e1 : ℕ → Bool

-- The calls into the other parts.
pub data Event : Type 0 where
  chan_activate : ℕ → ℕ → Event
  set_act_req : ℕ → Event
  free_lchan : ℕ → Event
  release_lchan : ℕ → Event
  send_ho_cmd : ℕ → ℕ → ℕ → Event
  ipacc_crcx : ℕ → Event
  switch_trau : ℕ → ℕ → Event

-- The return codes 0, -EBUSY, -ENOSPC, -ENODEV and that of a failed activation.
pub data Rc : Type 0 where
  done : Rc
  busy : Rc
  no_space : Rc
  no_device : Rc
  failed : ℕ → Rc

abbrev pub Outcome : Type 0
Outcome = Rc × State × List Event

abbrev pub write {ℓ} : {A : Type ℓ} → (ℕ → A) → ℕ → A → ℕ → A
write f k v x = if x == k then v else f x

abbrev pub same_handover : Handover → Handover → Bool
same_handover h g = (h.old_lchan == g.old_lchan) && (h.new_lchan == g.new_lchan)

-- `handover_free`: the handover leaves the list, and its timer stops with it.
unfoldable pub handover_free : Handover → List Handover → List Handover
handover_free h [] = []
handover_free h (g ∷ hs) =
    let rest = handover_free h hs in if same_handover g h then hs else g ∷ rest

unfoldable pub bsc_ho_by_new_lchan : List Handover → ℕ → Option Handover
bsc_ho_by_new_lchan [] new_lchan = none
bsc_ho_by_new_lchan (h ∷ hs) new_lchan =
    let rest = bsc_ho_by_new_lchan hs new_lchan in if h.new_lchan == new_lchan then some h else rest

unfoldable pub bsc_ho_by_old_lchan : List Handover → ℕ → Option Handover
bsc_ho_by_old_lchan [] old_lchan = none
bsc_ho_by_old_lchan (h ∷ hs) old_lchan =
    let rest = bsc_ho_by_old_lchan hs old_lchan in if h.old_lchan == old_lchan then some h else rest

-- The new channel takes part in the connection.
abbrev pub join : ℕ → ℕ → ℕ → State → State
join old_lchan new_lchan c s = record s {
  next_ref = (s.next_ref + 1) % 256;
  settings = write s.settings new_lchan (s.settings old_lchan);
  conn = write s.conn new_lchan (some c);
  ho_lchan = write s.ho_lchan c (some new_lchan);
}

-- The new channel leaves the connection.
abbrev pub leave : ℕ → ℕ → State → State
leave new_lchan c s = record s {
  ho_lchan = write s.ho_lchan c none;
  conn = write s.conn new_lchan none;
}

abbrev pub drop_handover : Handover → State → State
drop_handover h s = record s { bsc_handovers = handover_free h s.bsc_handovers }

-- `bsc_handover_start` with a channel that was allocated and the error of its activation, if any.
unfoldable pub start_on : ℕ → ℕ → ℕ → Option ℕ → State → Outcome
start_on old_lchan c new_lchan none s = (
  done,
  record (join old_lchan new_lchan c s) {
    bsc_handovers =
        record { old_lchan = old_lchan; new_lchan = new_lchan; t3103 = false; ho_ref = s.next_ref }
        ∷ s.bsc_handovers;
  },
  chan_activate new_lchan s.next_ref ∷ set_act_req new_lchan ∷ [],
)
start_on old_lchan c new_lchan (some rc) s = (
  failed rc,
  leave new_lchan c (join old_lchan new_lchan c s),
  chan_activate new_lchan s.next_ref ∷ free_lchan new_lchan ∷ [],
)

abbrev pub start_if_alloc : ℕ → ℕ → Option ℕ → Option ℕ → State → Outcome
start_if_alloc old_lchan c none rc s = (no_space, s, [])
start_if_alloc old_lchan c (some new_lchan) rc s = start_on old_lchan c new_lchan rc s

abbrev pub start_if_conn : ℕ → Option ℕ → Option ℕ → Option ℕ → State → Outcome
start_if_conn old_lchan none alloc rc s = (no_space, s, [])
start_if_conn old_lchan (some c) alloc rc s = start_if_alloc old_lchan c alloc rc s

abbrev pub start_if_free : ℕ → Option Handover → Option ℕ → Option ℕ → State → Outcome
start_if_free old_lchan (some h) alloc rc s = (busy, s, [])
start_if_free old_lchan none alloc rc s = start_if_conn old_lchan (s.conn old_lchan) alloc rc s

unfoldable pub bsc_handover_start : ℕ → Option ℕ → Option ℕ → State → Outcome
unfolding start_on bsc_ho_by_old_lchan
bsc_handover_start old_lchan alloc rc s =
    start_if_free old_lchan (bsc_ho_by_old_lchan s.bsc_handovers old_lchan) alloc rc s

-- The end of a handover that did not take place, with what is called. The connection of the new
-- channel is used.
abbrev pub abandon : Handover → Option ℕ → List Event → State → Option Outcome
abandon h none events s = none
abandon h (some c) events s = some (done, drop_handover h (leave h.new_lchan c s), events)

-- `ho_T3103_cb`; a released channel has no connection, which holds already.
unfoldable pub ho_t3103_cb : Handover → State → Option Outcome
unfolding handover_free
ho_t3103_cb h s = abandon h (s.conn h.new_lchan) (release_lchan h.new_lchan ∷ []) s

unfoldable pub mark_t3103 : Handover → List Handover → List Handover
mark_t3103 h [] = []
mark_t3103 h (g ∷ hs) =
    let rest = mark_t3103 h hs in
    if same_handover g h then record g { t3103 = true } ∷ hs else g ∷ rest

unfoldable pub ho_chan_activ_ack : Site → ℕ → State → Outcome
unfolding mark_t3103
ho_chan_activ_ack site new_lchan s = elim (bsc_ho_by_new_lchan s.bsc_handovers new_lchan) [
  | none ↦ (no_device, s, [])
  | some h ↦ (
    done,
    record s { bsc_handovers = mark_t3103 h s.bsc_handovers },
    send_ho_cmd h.old_lchan new_lchan h.ho_ref
        ∷ (if site.is_ipaccess (site.bts_of new_lchan) then ipacc_crcx new_lchan ∷ [] else []),
  )
]

abbrev pub nack_of : Option Handover → State → Option Outcome
nack_of none s = some (no_device, s, [])
nack_of (some h) s = abandon h (s.conn h.new_lchan) [] s

unfoldable pub ho_chan_activ_nack : ℕ → State → Option Outcome
unfolding bsc_ho_by_new_lchan handover_free
ho_chan_activ_nack new_lchan s = nack_of (bsc_ho_by_new_lchan s.bsc_handovers new_lchan) s

-- The connection moves to the new channel, and the old one is released, which takes it off the
-- connection. Both channels' connections are used.
abbrev pub complete : Site → Handover → Option ℕ → Option ℕ → State → Option Outcome
complete site h none old_conn s = none
complete site h (some c) none s = none
complete site h (some c) (some d) s = some (
  done,
  drop_handover h (record s {
    ho_lchan = write s.ho_lchan c none;
    lchan = write s.lchan c (some h.new_lchan);
    bts = write s.bts c (site.bts_of h.new_lchan);
    conn = write s.conn h.old_lchan none;
  }),
  (if site.is_e1 (s.bts c) then switch_trau h.old_lchan h.new_lchan ∷ [] else [])
      ++ (release_lchan h.old_lchan ∷ []),
)

abbrev pub compl_of : Site → Option Handover → State → Option Outcome
compl_of site none s = some (no_device, s, [])
compl_of site (some h) s = complete site h (s.conn h.new_lchan) (s.conn h.old_lchan) s

unfoldable pub ho_gsm48_ho_compl : Site → ℕ → State → Option Outcome
unfolding bsc_ho_by_new_lchan handover_free
ho_gsm48_ho_compl site new_lchan s = compl_of site (bsc_ho_by_new_lchan s.bsc_handovers new_lchan) s

abbrev pub fail_of : Option Handover → State → Option Outcome
fail_of none s = some (no_device, s, [])
fail_of (some h) s = abandon h (s.conn h.new_lchan) (release_lchan h.new_lchan ∷ []) s

unfoldable pub ho_gsm48_ho_fail : ℕ → State → Option Outcome
unfolding bsc_ho_by_old_lchan handover_free
ho_gsm48_ho_fail old_lchan s = fail_of (bsc_ho_by_old_lchan s.bsc_handovers old_lchan) s

-- `bsc_clear_handover`: the handover of the connection's channel, if it has one.
abbrev pub clear_of : Bool → ℕ → Option ℕ → Option Handover → State → Option Outcome
clear_of release c none h s = some (done, s, [])
clear_of release c (some new_lchan) none s = some (done, s, [])
clear_of release c (some new_lchan) (some h) s = some (
  done,
  drop_handover h (leave new_lchan c s),
  if release then release_lchan h.new_lchan ∷ [] else [],
)

abbrev pub ho_of : List Handover → Option ℕ → Option Handover
ho_of hs none = none
ho_of hs (some new_lchan) = bsc_ho_by_new_lchan hs new_lchan

unfoldable pub bsc_clear_handover : Bool → ℕ → State → Option Outcome
unfolding bsc_ho_by_new_lchan handover_free
bsc_clear_handover release c s =
    clear_of release c (s.ho_lchan c) (ho_of s.bsc_handovers (s.ho_lchan c)) s

-- `bsc_handover_pending`: the old channel of a handover to the channel.
unfoldable pub bsc_handover_pending : State → ℕ → Option ℕ
unfolding bsc_ho_by_new_lchan
bsc_handover_pending s new_lchan = elim (bsc_ho_by_new_lchan s.bsc_handovers new_lchan) [
  | none ↦ none
  | some h ↦ some h.old_lchan
]
