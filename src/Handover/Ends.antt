-- ===== src/Handover/Ends.antt =====
-- openbsc/src/libbsc/handover_logic.c: every sequence of starts, answers and ends of handovers, and
-- of assignments beside them.
use mathlib.Core.Path.{subst}
use openbsc.Base.{ℕ, ◌≡◌, sym, ◌∙◌, Bool, Option, none, some, [], some_inj}
use openbsc.Handover.{
  Handover, State, Site, Outcome, bsc_handover_start, ho_t3103_cb, ho_chan_activ_ack,
  ho_chan_activ_nack, ho_gsm48_ho_compl, ho_gsm48_ho_fail, bsc_clear_handover,
}
use openbsc.Handover.Pointers.{IsIn, IsValid, Different}
use openbsc.Handover.Valid.{
  Kept, ho_t3103_cb-Kept, ho_chan_activ_nack-Kept, ho_gsm48_ho_compl-Kept, ho_gsm48_ho_fail-Kept,
  bsc_clear_handover-Kept, ho_chan_activ_ack-IsValid,
}
use openbsc.Handover.Start.{
  CanStart, bsc_handover_start-IsValid, connect, disconnect, connect-IsValid, disconnect-IsValid,
}
use openbsc.Handover.Assignment.{
  handle_new_assignment, handle_ass_compl, assignment_t10_timeout, handle_new_assignment-IsValid,
  IsSettled, Gives, handle_ass_compl-IsValid, IsBeside, drop_secondary-IsValid,
}

-- The calls of the procedure for a pending handover, whose timer can end, or for any channel.
pub data Call : State → Type 0 where
  timeout : {s : State} (h : Handover) → IsIn h s.bsc_handovers → Call s
  nack : {s : State} (new_lchan : ℕ) → Call s
  compl : {s : State} (new_lchan : ℕ) → Call s
  fail : {s : State} (old_lchan : ℕ) → Call s
  clear : {s : State} (free_lchan : Bool) (conn : ℕ) → Call s

unfoldable pub run : Site → (s : State) → Call s → Option Outcome
run site s (timeout h i) = ho_t3103_cb h s
run site s (nack l) = ho_chan_activ_nack l s
run site s (compl l) = ho_gsm48_ho_compl site l s
run site s (fail l) = ho_gsm48_ho_fail l s
run site s (clear release c) = bsc_clear_handover release c s

run-Kept : (site : Site) (s : State) (k : Call s) → IsValid s → Kept (run site s k)
unfolding run
run-Kept site s (timeout h i) v = ho_t3103_cb-Kept s h v i
run-Kept site s (nack l) v = ho_chan_activ_nack-Kept s l v
run-Kept site s (compl l) v = ho_gsm48_ho_compl-Kept site s l v
run-Kept site s (fail l) v = ho_gsm48_ho_fail-Kept s l v
run-Kept site s (clear release c) v = bsc_clear_handover-Kept release c s v

-- Something that can happen to the handovers, and to the connections beside them. A handover starts
-- from the channel of its connection (`CanStart`), and no assignment is completed while the
-- connection has a handover (`IsSettled`); the code checks neither. `gsm0808_clear` and the release
-- of a channel are a call of `bsc_clear_handover` with `gives_up` and `disconnects`.
pub data Step (site : Site) : State → State → Type 0 where
  starts :
      (s : State) (old_lchan : ℕ) (alloc rc : Option ℕ)
      → CanStart s old_lchan alloc
      → Step site s (bsc_handover_start old_lchan alloc rc s).1
  acks : (s : State) (new_lchan : ℕ) → Step site s (ho_chan_activ_ack site new_lchan s).1
  calls :
      (s : State) (k : Call s) (outcome : Outcome)
      → run site s k ≡ some outcome
      → Step site s outcome.1
  connects :
      (s : State) (l c : ℕ) → s.conn l ≡ none → s.lchan c ≡ none → Step site s (connect l c s)
  disconnects :
      (s : State) (l c : ℕ)
      → s.conn l ≡ some c
      → s.ho_lchan c ≡ none
      → Step site s (disconnect l c s)
  assigns : (s : State) (l c : ℕ) → s.conn l ≡ none → Step site s (handle_new_assignment l c s)
  assigned :
      (s : State) (is_speech : Bool) (octets l c : ℕ) (outcome : Outcome)
      → IsSettled s c
      → handle_ass_compl site is_speech octets l c s ≡ some outcome
      → Step site s outcome.1
  gives_up :
      (s : State) (l c : ℕ)
      → s.secondary_lchan c ≡ some l
      → IsBeside s c l
      → Step site s (assignment_t10_timeout c s)

abbrev pub no_handovers : State
no_handovers = record {
  bsc_handovers = [];
  next_ref = 0;
  conn = λ l. none;
  settings = λ l. 0;
  lchan = λ c. none;
  ho_lchan = λ c. none;
  secondary_lchan = λ c. none;
  bts = λ c. 0;
}

pub data Reachable (site : Site) : State → Type 0 where
  initial : Reachable site no_handovers
  next : {s t : State} → Reachable site s → Step site s t → Reachable site t

Step-IsValid : (site : Site) {s t : State} → Step site s t → IsValid s → IsValid t
Step-IsValid site (starts s old_lchan alloc rc k) v =
    bsc_handover_start-IsValid s old_lchan alloc rc k v
Step-IsValid site (acks s l) v = ho_chan_activ_ack-IsValid site l s v
Step-IsValid site (calls s k outcome e) v =
    let r = run-Kept site s k v in
    subst (λ (o : Outcome). IsValid o.1) (some_inj (sym r.returns ∙ e)) r.valid
Step-IsValid site (connects s l c p q) v = connect-IsValid l c s p q v
Step-IsValid site (disconnects s l c p q) v = disconnect-IsValid l c s p q v
Step-IsValid site (assigns s l c p) v = handle_new_assignment-IsValid l c s p v
Step-IsValid site (assigned s is_speech octets l c outcome k e) v =
    subst (Gives IsValid) e (handle_ass_compl-IsValid site is_speech octets l c s k v)
Step-IsValid site (gives_up s l c e k) v =
    unfold assignment_t10_timeout in rw e (drop_secondary-IsValid l c s k v)

-- As long as handovers start only from the channel of their connection to a channel without one,
-- and no assignment is completed while the connection has a handover, both channels of each pending
-- handover belong to one connection, whose channel is the old one and whose handover channel is the
-- new one, and no two have the same old channel, in every state that starts, answers, ends,
-- assignments and their failures lead to.
pub Reachable-IsValid : {site : Site} {s : State} → Reachable site s → IsValid s
unfolding Different
Reachable-IsValid initial = record { active = tt; different = tt }
Reachable-IsValid (next r k) = Step-IsValid _ k (Reachable-IsValid r)

-- As long as handovers start only from the channel of their connection to a channel without one,
-- and no assignment is completed while the connection has a handover, T3103 of a pending handover,
-- a refused activation, a completion, a failure and the end of a connection use no null pointer.
pub run-returns :
    {site : Site} {s : State}
    → Reachable site s
    → (k : Call s) → (outcome : Outcome) × (run site s k ≡ some outcome)
run-returns r k = let kept = run-Kept _ _ k (Reachable-IsValid r) in (kept.outcome, kept.returns)
