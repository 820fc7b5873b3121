-- ===== src/Handover/Tests.antt =====
-- A handover from channel 1 to channel 2, and each theorem at it.
use openbsc.Base.{ℕ, ◌≡◌, refl, true, false, none, some, arith}
use openbsc.Handover.{
  Handover, State, Site, Rc, Outcome, handover_free, bsc_ho_by_new_lchan, bsc_ho_by_old_lchan,
  start_on, bsc_handover_start, ho_t3103_cb, ho_chan_activ_nack, ho_gsm48_ho_compl,
  bsc_handover_pending,
}
use openbsc.Handover.Pointers.{IsValid}
use openbsc.Handover.Start.{CanStart, connect}
use openbsc.Handover.Ends.{
  starts, connects, no_handovers, Reachable, initial, next, Reachable-IsValid,
}
use openbsc.Handover.Assignment.{
  handle_new_assignment, handle_ass_compl, handle_ass_compl-ho_gsm48_ho_compl,
}
use openbsc.Handover.Settled.{EndsOn, handover_ends}

program : Unit {0}
unfolding handover_free bsc_ho_by_new_lchan bsc_ho_by_old_lchan start_on bsc_handover_start
    ho_gsm48_ho_compl bsc_handover_pending
program = tt

abbrev site : Site
site = record { bts_of = λ l. l; is_ipaccess = λ b. true; is_e1 = λ b. false }

-- Connection 7 on channel 1.
abbrev connected : State
connected = connect 1 7 no_handovers

abbrev started : State
started = (bsc_handover_start 1 (some 2) none connected).1

abbrev the_handover : Handover
the_handover = record { old_lchan = 1; new_lchan = 2; t3103 = false; ho_ref = 0 }

is_pending : bsc_handover_pending started 2 ≡ some 1
unfolding program
is_pending = refl

-- The channel 1 has a handover already.
second : (bsc_handover_start 1 (some 3) none started).0 ≡ Rc.busy
unfolding program
second = refl

can_start : CanStart connected 1 (some 2)
can_start = record { primary = λ c e. ground (arith, e); unconnected = λ n e. ground (arith, e) }

started-Reachable : Reachable site started
started-Reachable =
    next (next initial (connects no_handovers 1 7 refl refl))
      (starts connected 1 (some 2) none can_start)

Reachable-IsValid_example : IsValid started
Reachable-IsValid_example = Reachable-IsValid started-Reachable

handover_ends_example :
    (c : ℕ) × (started.lchan c ≡ some 1)
    × EndsOn (ho_gsm48_ho_compl site 2 started) c 2 1 2
    × EndsOn (ho_chan_activ_nack 2 started) c 1 2 2
    × EndsOn (ho_t3103_cb the_handover started) c 1 2 2
unfolding program
handover_ends_example = handover_ends started-Reachable the_handover refl

-- The connection has been assigned channel 3 beside.
abbrev assigning : State
assigning = handle_new_assignment 3 7 started

handle_ass_compl-ho_gsm48_ho_compl_example :
    (outcome : Outcome) × (handle_ass_compl site true 1 3 7 assigning ≡ some outcome)
    × (outcome.1.lchan 7 ≡ some 3)
    × (ho_gsm48_ho_compl site 2 outcome.1 ≡ none)
unfolding program
handle_ass_compl-ho_gsm48_ho_compl_example =
    handle_ass_compl-ho_gsm48_ho_compl site true assigning the_handover 3 7 refl refl refl
