-- ===== src/Handover/Valid.antt =====
-- openbsc/src/libbsc/handover_logic.c: what each step does to the pointers of the handovers.
use openbsc.Base.{
  All-map, All-zip, ℕ, ◌≡◌, ◌≢◌, refl, sym, ap, ◌∙◌, inl, inr, Bool, true, Option, none, some, List,
  [], ◌∷◌, All, Bool-cases, Option-cases, some_inj,
}
use openbsc.Handover.{
  Handover, State, Site, Event, Rc, Outcome, same_handover, handover_free, bsc_ho_by_new_lchan,
  bsc_ho_by_old_lchan, leave, drop_handover, abandon, ho_t3103_cb, mark_t3103, ho_chan_activ_ack,
  ho_chan_activ_nack, complete, ho_gsm48_ho_compl, ho_gsm48_ho_fail, clear_of, ho_of,
  bsc_clear_handover,
}
use openbsc.Handover.Pointers.{
  IsActive, Different, IsIn, IsValid, IsIn-All, write_other, IsActive-Apart, IsActive-frame,
  All-handover_free, Different-handover_free, handover_free_other, bsc_ho_by_new_lchan-IsIn,
  bsc_ho_by_old_lchan-IsIn,
}

-- The call returns, and leaves a valid state.
pub record Kept (r : Option Outcome) : Type 0 where
  pub outcome : Outcome
  pub returns : r ≡ some outcome
  pub valid : IsValid outcome.1

-- A handover of the list ends, and the others stay active.
drop_handover-IsValid :
    (s t : State) (h : Handover)
    → IsValid s
    → IsIn h s.bsc_handovers
    → t.bsc_handovers ≡ s.bsc_handovers
    → ((g : Handover) → IsActive s g → g.old_lchan ≢ h.old_lchan → IsActive t g)
    → IsValid (drop_handover h t)
drop_handover-IsValid s t h v i e f =
    let u : State = record t { bsc_handovers = handover_free h s.bsc_handovers } in
    rw e (record {
      active =
          All-map (IsActive t) (IsActive u) (handover_free h s.bsc_handovers)
            (λ g b. IsActive-frame t u g b refl refl refl refl)
            (All-zip (IsActive s) (λ g. g.old_lchan ≢ h.old_lchan) (IsActive t)
              (handover_free h s.bsc_handovers) f
              (All-handover_free (IsActive s) h s.bsc_handovers v.active)
              (handover_free_other h s.bsc_handovers i v.different));
      different = Different-handover_free h s.bsc_handovers v.different;
    })

leave-IsActive :
    (s : State) (h g : Handover) (a : IsActive s h) (b : IsActive s g) (c : ℕ)
    → b.owner ≢ c
    → g.old_lchan ≢ h.old_lchan
    → IsActive (leave h.new_lchan c s) g
leave-IsActive s h g a b c o n =
    let p = IsActive-Apart s h g a b n in
    IsActive-frame s (leave h.new_lchan c s) g b
      (write_other s.conn h.new_lchan none g.old_lchan p.old_new)
      (write_other s.conn h.new_lchan none g.new_lchan p.new_new) refl
      (write_other s.ho_lchan c none b.owner o)

abandon-Kept :
    (s : State) (h : Handover) (events : List Event)
    → IsValid s
    → IsIn h s.bsc_handovers
    → Kept (abandon h (s.conn h.new_lchan) events s)
abandon-Kept s h events v i =
    let a = IsIn-All (IsActive s) h s.bsc_handovers i v.active in
    rw a.new_conn (record {
      outcome = _;
      returns = refl;
      valid =
          drop_handover-IsValid s (leave h.new_lchan a.owner s) h v i refl
            (λ g b n. leave-IsActive s h g a b a.owner (IsActive-Apart s h g a b n).owners n);
    })

pub ho_t3103_cb-Kept :
    (s : State) (h : Handover) → IsValid s → IsIn h s.bsc_handovers → Kept (ho_t3103_cb h s)
unfolding ho_t3103_cb
ho_t3103_cb-Kept s h v i = abandon-Kept s h _ v i

same-Kept : {rc : Rc} (s : State) → IsValid s → Kept (some (rc, s, []))
same-Kept s v = record { outcome = _; returns = refl; valid = v }

pub ho_chan_activ_nack-Kept : (s : State) (l : ℕ) → IsValid s → Kept (ho_chan_activ_nack l s)
unfolding ho_chan_activ_nack
ho_chan_activ_nack-Kept s l v = elim (Option-cases (bsc_ho_by_new_lchan s.bsc_handovers l)) [
  | inl e ↦ rw e (same-Kept s v)
  | inr (h, e) ↦ rw e (abandon-Kept s h [] v (bsc_ho_by_new_lchan-IsIn s.bsc_handovers l h e).0)
]

pub ho_gsm48_ho_fail-Kept : (s : State) (l : ℕ) → IsValid s → Kept (ho_gsm48_ho_fail l s)
unfolding ho_gsm48_ho_fail
ho_gsm48_ho_fail-Kept s l v = elim (Option-cases (bsc_ho_by_old_lchan s.bsc_handovers l)) [
  | inl e ↦ rw e (same-Kept s v)
  | inr (h, e) ↦ rw e (abandon-Kept s h _ v (bsc_ho_by_old_lchan-IsIn s.bsc_handovers l h e).0)
]

complete-Kept :
    (site : Site) (s : State) (h : Handover)
    → IsValid s
    → IsIn h s.bsc_handovers
    → Kept (complete site h (s.conn h.new_lchan) (s.conn h.old_lchan) s)
complete-Kept site s h v i =
    let a = IsIn-All (IsActive s) h s.bsc_handovers i v.active in
    rw (a.new_conn, a.old_conn)
      (record {
        outcome = _;
        returns = refl;
        valid = drop_handover-IsValid s _ h v i refl (λ g b n.
            let p = IsActive-Apart s h g a b n in
            IsActive-frame s _ g b (write_other s.conn h.old_lchan none g.old_lchan p.old_old)
              (write_other s.conn h.old_lchan none g.new_lchan p.new_old)
              (write_other s.lchan a.owner (some h.new_lchan) b.owner p.owners)
              (write_other s.ho_lchan a.owner none b.owner p.owners));
      })

pub ho_gsm48_ho_compl-Kept :
    (site : Site) (s : State) (l : ℕ) → IsValid s → Kept (ho_gsm48_ho_compl site l s)
unfolding ho_gsm48_ho_compl
ho_gsm48_ho_compl-Kept site s l v = elim (Option-cases (bsc_ho_by_new_lchan s.bsc_handovers l)) [
  | inl e ↦ rw e (same-Kept s v)
  | inr (h, e) ↦ rw e (complete-Kept site s h v (bsc_ho_by_new_lchan-IsIn s.bsc_handovers l h e).0)
]

clear_of-Kept :
    (release : Bool) (c : ℕ) (s : State) (target : Option ℕ)
    → s.ho_lchan c ≡ target
    → IsValid s
    → Kept (clear_of release c target (ho_of s.bsc_handovers target) s)
clear_of-Kept release c s none e v = same-Kept s v
clear_of-Kept release c s (some l) e v =
    elim (Option-cases (bsc_ho_by_new_lchan s.bsc_handovers l)) [
      | inl n ↦ rw n (same-Kept s v)
      | inr (h, f) ↦
          let (i, p) = bsc_ho_by_new_lchan-IsIn s.bsc_handovers l h f in
          let a = IsIn-All (IsActive s) h s.bsc_handovers i v.active in
          rw f (record {
            outcome = _;
            returns = refl;
            valid = rw (sym p) (
                drop_handover-IsValid s (leave h.new_lchan c s) h v i refl (λ g b n.
                  leave-IsActive s h g a b c
                    (λ q.
                      (IsActive-Apart s h g a b n).new_new
                        (some_inj (sym b.target ∙ ap s.ho_lchan q ∙ e ∙ ap some (sym p))))
                    n));
          })
    ]

pub bsc_clear_handover-Kept :
    (release : Bool) (c : ℕ) (s : State) → IsValid s → Kept (bsc_clear_handover release c s)
unfolding bsc_clear_handover
bsc_clear_handover-Kept release c s v = clear_of-Kept release c s (s.ho_lchan c) refl v

mark_t3103-All :
    (P : Handover → Type 0) (h : Handover) (hs : List Handover)
    → ((g : Handover) → P g → P (record g { t3103 = true }))
    → All P hs
    → All P (mark_t3103 h hs)
unfolding mark_t3103
mark_t3103-All P h [] f a = tt
mark_t3103-All P h (g ∷ hs) f a = elim (Bool-cases (same_handover g h)) [
  | inl e ↦ rw e (f g a.0, a.1)
  | inr e ↦ rw e (a.0, mark_t3103-All P h hs f a.1)
]

mark_t3103-Different :
    (h : Handover) (hs : List Handover) → Different hs → Different (mark_t3103 h hs)
unfolding mark_t3103 Different
mark_t3103-Different h [] d = tt
mark_t3103-Different h (g ∷ hs) d = elim (Bool-cases (same_handover g h)) [
  | inl e ↦ rw e d
  | inr e ↦ rw e (
    mark_t3103-All (λ x. x.old_lchan ≢ g.old_lchan) h hs (λ x n. n) d.0,
    mark_t3103-Different h hs d.1,
  )
]

marked-IsActive : (s : State) (g : Handover) → IsActive s g → IsActive s (record g { t3103 = true })
marked-IsActive s g b = record {
  owner = b.owner;
  old_conn = b.old_conn;
  new_conn = b.new_conn;
  primary = b.primary;
  target = b.target;
  apart = b.apart;
}

pub ho_chan_activ_ack-IsValid :
    (site : Site) (l : ℕ) (s : State) → IsValid s → IsValid (ho_chan_activ_ack site l s).1
unfolding ho_chan_activ_ack
ho_chan_activ_ack-IsValid site l s v = elim (Option-cases (bsc_ho_by_new_lchan s.bsc_handovers l)) [
  | inl e ↦ rw (e, ho_chan_activ_ack) v
  | inr (h, e) ↦
      let t : State = record s { bsc_handovers = mark_t3103 h s.bsc_handovers } in
      rw (e, ho_chan_activ_ack)
        (record {
          active =
              All-map (IsActive s) (IsActive t) (mark_t3103 h s.bsc_handovers)
                (λ g b. IsActive-frame s t g b refl refl refl refl)
                (mark_t3103-All (IsActive s) h s.bsc_handovers (marked-IsActive s) v.active);
          different = mark_t3103-Different h s.bsc_handovers v.different;
        })
]
