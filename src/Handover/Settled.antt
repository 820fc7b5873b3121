-- ===== src/Handover/Settled.antt =====
-- openbsc/src/libbsc/handover_logic.c: where the connection is after a handover.
use openbsc.Base.{
  All-zip, ℕ, ◌≡◌, ◌≢◌, refl, sym, ap, ◌∙◌, Option, none, some, List, [], ◌∷◌, All, arith,
}
use openbsc.Handover.{
  Handover, State, Site, Rc, done, Event, ho_t3103_cb, handover_free, bsc_ho_by_new_lchan, abandon,
  complete, ho_chan_activ_nack, ho_gsm48_ho_compl, bsc_handover_pending,
}
use openbsc.Handover.Pointers.{
  IsActive, IsIn, IsValid, IsIn-All, All-handover_free, handover_free_other, write_same,
  write_other, IsActive-Apart, bsc_ho_by_new_lchan-IsIn,
}
use openbsc.Handover.Ends.{Reachable, Reachable-IsValid}

-- The connection uses the channel, and no handover to `target` is pending.
pub record IsSettled (t : State) (c lchan target : ℕ) : Type 0 where
  pub primary : t.lchan c ≡ some lchan
  pub connected : t.conn lchan ≡ some c
  pub no_target : t.ho_lchan c ≡ none
  pub not_pending : bsc_handover_pending t target ≡ none

bsc_ho_by_new_lchan-none :
    (hs : List Handover) (l : ℕ) → All (λ g. g.new_lchan ≢ l) hs → bsc_ho_by_new_lchan hs l ≡ none
unfolding bsc_ho_by_new_lchan
bsc_ho_by_new_lchan-none [] l a = refl
bsc_ho_by_new_lchan-none (g ∷ hs) l a = ground (arith, a.0, bsc_ho_by_new_lchan-none hs l a.1)

not_pending_after :
    (s t : State) (h : Handover)
    → IsValid s
    → IsIn h s.bsc_handovers
    → t.bsc_handovers ≡ handover_free h s.bsc_handovers
    → bsc_handover_pending t h.new_lchan ≡ none
unfolding bsc_handover_pending
not_pending_after s t h v i e =
    let a = IsIn-All (IsActive s) h s.bsc_handovers i v.active in
    let others =
      All-zip (IsActive s) (λ g. g.old_lchan ≢ h.old_lchan) (λ g. g.new_lchan ≢ h.new_lchan)
        (handover_free h s.bsc_handovers) (λ g b n. (IsActive-Apart s h g a b n).new_new)
        (All-handover_free (IsActive s) h s.bsc_handovers v.active)
        (handover_free_other h s.bsc_handovers i v.different) in
    rw
      (
        ap (λ hs. bsc_ho_by_new_lchan hs h.new_lchan) e
            ∙ bsc_ho_by_new_lchan-none (handover_free h s.bsc_handovers) h.new_lchan others,
        bsc_handover_pending,
      )
      refl

-- The end of the handover `h` of the connection `c`: the call returns, the connection is on `stays`,
-- `goes` has none.
pub record EndsOn (r : Option (Rc × State × List Event)) (c stays goes target : ℕ) : Type 0 where
  pub state : State
  pub events : List Event
  pub returns : r ≡ some (done, state, events)
  pub settled : IsSettled state c stays target
  pub unconnected : state.conn goes ≡ none

completed :
    (site : Site) (s : State) (h : Handover) (v : IsValid s) (i : IsIn h s.bsc_handovers)
    → let a = IsIn-All (IsActive s) h s.bsc_handovers i v.active in
      EndsOn
        (complete site h (s.conn h.new_lchan) (s.conn h.old_lchan) s)
        a.owner
        h.new_lchan
        h.old_lchan
        h.new_lchan
completed site s h v i =
    let a = IsIn-All (IsActive s) h s.bsc_handovers i v.active in
    rw (a.new_conn, a.old_conn)
      (record {
        state = _;
        events = _;
        returns = refl;
        settled = record {
          primary = write_same s.lchan a.owner (some h.new_lchan);
          connected =
              write_other s.conn h.old_lchan none h.new_lchan (λ e. a.apart (sym e)) ∙ a.new_conn;
          no_target = write_same s.ho_lchan a.owner none;
          not_pending = not_pending_after s _ h v i refl;
        };
        unconnected = write_same s.conn h.old_lchan none;
      })

abandoned :
    (s : State) (h : Handover) (events : List Event) (v : IsValid s) (i : IsIn h s.bsc_handovers)
    → let a = IsIn-All (IsActive s) h s.bsc_handovers i v.active in
      EndsOn (abandon h (s.conn h.new_lchan) events s) a.owner h.old_lchan h.new_lchan h.new_lchan
abandoned s h events v i =
    let a = IsIn-All (IsActive s) h s.bsc_handovers i v.active in
    rw a.new_conn (record {
      state = _;
      events = _;
      returns = refl;
      settled = record {
        primary = a.primary;
        connected = write_other s.conn h.new_lchan none h.old_lchan a.apart ∙ a.old_conn;
        no_target = write_same s.ho_lchan a.owner none;
        not_pending = not_pending_after s _ h v i refl;
      };
      unconnected = write_same s.conn h.new_lchan none;
    })

-- As long as handovers start only from the channel of their connection to a channel without one,
-- and no assignment is completed while the connection has a handover, there is, for each pending
-- handover that is found by its new channel, a connection on the old channel that, on completion,
-- is on the new channel alone, and on a refused activation and at T3103 stays on the old channel
-- alone; it has no handover channel then, and none to the new channel is pending.
pub handover_ends :
    {site : Site} {s : State}
    → Reachable site s
    → (h : Handover) → bsc_ho_by_new_lchan s.bsc_handovers h.new_lchan ≡ some h
    → (c : ℕ) × (s.lchan c ≡ some h.old_lchan)
      × EndsOn (ho_gsm48_ho_compl site h.new_lchan s) c h.new_lchan h.old_lchan h.new_lchan
      × EndsOn (ho_chan_activ_nack h.new_lchan s) c h.old_lchan h.new_lchan h.new_lchan
      × EndsOn (ho_t3103_cb h s) c h.old_lchan h.new_lchan h.new_lchan
unfolding ho_gsm48_ho_compl ho_chan_activ_nack ho_t3103_cb
handover_ends {site} {s} r h e =
    let v = Reachable-IsValid r in
    let i = (bsc_ho_by_new_lchan-IsIn s.bsc_handovers h.new_lchan h e).0 in
    let a = IsIn-All (IsActive s) h s.bsc_handovers i v.active in
    (
      a.owner,
      a.primary,
      rw e (completed site s h v i),
      rw e (abandoned s h [] v i),
      abandoned s h _ v i,
    )
