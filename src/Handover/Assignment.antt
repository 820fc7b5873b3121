-- ===== src/Handover/Assignment.antt =====
-- openbsc/src/libbsc/bsc_api.c: an assignment of another channel to a connection, which shares the
-- pointers of the handovers.
use openbsc.Base.{
  All-map, ℕ, ◌≡◌, ◌≢◌, refl, sym, ap, ◌∙◌, Bool, true, false, not, ◌&&◌, ◌||◌, Option, none, some,
  [], ◌∷◌, ◌++◌, ◌==◌, if◌then◌else◌, some_inj, arith,
}
use openbsc.Handover.{
  Handover, State, Site, release_lchan, switch_trau, ipacc_crcx, done, Outcome, write,
  bsc_ho_by_new_lchan, complete, ho_gsm48_ho_compl,
}
use openbsc.Handover.Pointers.{IsActive, IsValid, write_same, write_other, IsActive-frame}
use openbsc.Handover.Start.{connected_ne}

-- The end of `handle_new_assignment`: the new channel is the second one of the connection.
abbrev pub handle_new_assignment : ℕ → ℕ → State → State
handle_new_assignment new_lchan c s = record s {
  conn = write s.conn new_lchan (some c);
  secondary_lchan = write s.secondary_lchan c (some new_lchan);
}

abbrev pub is_secondary : Option ℕ → ℕ → Bool
is_secondary none l = false
is_secondary (some k) l = k == l

-- The second channel becomes the channel of the connection, and the channel before is released.
abbrev pub swapped : Site → Bool → ℕ → ℕ → ℕ → State → Outcome
swapped site is_speech l c old_lchan s = (
  done,
  record s {
    conn = write s.conn old_lchan none;
    lchan = write s.lchan c (some l);
    secondary_lchan = write s.secondary_lchan c none;
  },
  (if site.is_e1 (s.bts c) then switch_trau old_lchan l ∷ [] else [])
      ++ release_lchan old_lchan
        ∷ (if site.is_ipaccess (s.bts c) && is_speech then ipacc_crcx l ∷ [] else []),
)

abbrev pub swap_lchan : Site → Bool → ℕ → ℕ → Option ℕ → State → Option Outcome
swap_lchan site is_speech l c none s = none
swap_lchan site is_speech l c (some old_lchan) s = some (swapped site is_speech l c old_lchan s)

-- `handle_ass_compl` for a message on the channel `l` of the connection `c`, which has as many octets
-- of content; `is_speech` is that the mode of the channel is not signalling only.
unfoldable pub handle_ass_compl : Site → Bool → ℕ → ℕ → ℕ → State → Option Outcome
handle_ass_compl site is_speech octets l c s =
    if not (is_secondary (s.secondary_lchan c) l) || not (octets == 1)
    then some (done, s, [])
    else swap_lchan site is_speech l c (s.lchan c) s

-- The second channel is released, when the assignment fails or T10 expires.
abbrev pub drop_secondary : Option ℕ → ℕ → State → State
drop_secondary none c s = s
drop_secondary (some l) c s = record s {
  conn = write s.conn l none;
  secondary_lchan = write s.secondary_lchan c none;
}

unfoldable pub assignment_t10_timeout : ℕ → State → State
assignment_t10_timeout c s = drop_secondary (s.secondary_lchan c) c s

pub handle_new_assignment-IsValid :
    (l c : ℕ) (s : State) → s.conn l ≡ none → IsValid s → IsValid (handle_new_assignment l c s)
handle_new_assignment-IsValid l c s p v = record {
  active =
      All-map (IsActive s) (IsActive (handle_new_assignment l c s)) s.bsc_handovers
        (λ g b.
          IsActive-frame s (handle_new_assignment l c s) g b
            (write_other s.conn l (some c) g.old_lchan
              (connected_ne s g.old_lchan l b.owner b.old_conn p))
            (write_other s.conn l (some c) g.new_lchan
              (connected_ne s g.new_lchan l b.owner b.new_conn p))
            refl refl)
        v.active;
  different = v.different;
}

-- What keeps an assignment away from the handovers: the channel of the connection is its own, and it
-- has no handover.
pub record IsSettled (s : State) (c : ℕ) : Type 0 where
  pub old_lchan : ℕ
  pub owned : s.conn old_lchan ≡ some c
  pub primary : s.lchan c ≡ some old_lchan
  pub no_target : s.ho_lchan c ≡ none

-- The assertion of a result, if there is one.
abbrev pub Gives : (State → Type 0) → Option Outcome → Type 0
Gives P none = ⊥
Gives P (some o) = P o.1

pub handle_ass_compl-IsValid :
    (site : Site) (is_speech : Bool) (octets l c : ℕ) (s : State)
    → IsSettled s c
    → IsValid s
    → Gives IsValid (handle_ass_compl site is_speech octets l c s)
unfolding handle_ass_compl
handle_ass_compl-IsValid site is_speech octets l c s k v =
    choose (not (is_secondary (s.secondary_lchan c) l) || not (octets == 1))
  where
    after : State
    after = (swapped site is_speech l c k.old_lchan s).1

    after-IsActive : (g : Handover) → IsActive s g → IsActive after g
    after-IsActive g b =
        let o : b.owner ≢ c = λ e. ground (arith, sym b.target ∙ ap s.ho_lchan e ∙ k.no_target) in
        IsActive-frame s after g b
          (write_other s.conn k.old_lchan none g.old_lchan
            (λ e. o (some_inj (sym b.old_conn ∙ ap s.conn e ∙ k.owned))))
          (write_other s.conn k.old_lchan none g.new_lchan
            (λ e. o (some_inj (sym b.new_conn ∙ ap s.conn e ∙ k.owned))))
          (write_other s.lchan c (some l) b.owner o) refl

    choose :
        (b : Bool)
        → Gives IsValid
            (if b then some (done, s, []) else swap_lchan site is_speech l c (s.lchan c) s)
    choose true = v
    choose false = rw k.primary (record {
      active = All-map (IsActive s) (IsActive after) s.bsc_handovers after-IsActive v.active;
      different = v.different;
    })

-- The second channel is neither the channel of its connection nor that of a handover.
pub record IsBeside (s : State) (c l : ℕ) : Type 0 where
  pub owned : s.conn l ≡ some c
  pub not_primary : s.lchan c ≢ some l
  pub not_target : s.ho_lchan c ≢ some l

pub drop_secondary-IsValid :
    (l c : ℕ) (s : State) → IsBeside s c l → IsValid s → IsValid (drop_secondary (some l) c s)
drop_secondary-IsValid l c s k v = record {
  active =
      All-map (IsActive s) (IsActive (drop_secondary (some l) c s)) s.bsc_handovers
        (λ g b.
          IsActive-frame s (drop_secondary (some l) c s) g b
            (write_other s.conn l none g.old_lchan (λ e. k.not_primary (
              ap s.lchan (sym (some_inj (sym b.old_conn ∙ ap s.conn e ∙ k.owned)))
              ∙ b.primary
              ∙ ap some e)))
            (write_other s.conn l none g.new_lchan (λ e. k.not_target (
              ap s.ho_lchan (sym (some_inj (sym b.new_conn ∙ ap s.conn e ∙ k.owned)))
              ∙ b.target
              ∙ ap some e)))
            refl refl)
        v.active;
  different = v.different;
}

-- When a connection has a second channel and the handover from its channel is pending, a valid
-- completion of the assignment moves the connection to the second channel, and the completion of
-- the handover then uses a null pointer.
pub handle_ass_compl-ho_gsm48_ho_compl :
    (site : Site) (is_speech : Bool) (s : State) (h : Handover) (l c : ℕ)
    → bsc_ho_by_new_lchan s.bsc_handovers h.new_lchan ≡ some h
    → s.lchan c ≡ some h.old_lchan
    → s.secondary_lchan c ≡ some l
    → (outcome : Outcome) × (handle_ass_compl site is_speech 1 l c s ≡ some outcome)
      × (outcome.1.lchan c ≡ some l)
      × (ho_gsm48_ho_compl site h.new_lchan outcome.1 ≡ none)
unfolding handle_ass_compl ho_gsm48_ho_compl
handle_ass_compl-ho_gsm48_ho_compl site is_speech s h l c pending primary second =
    let is_second : is_secondary (s.secondary_lchan c) l ≡ true = rw second (ground arith) in
    (
      swapped site is_speech l c h.old_lchan s,
      rw (handle_ass_compl, is_second, primary) refl,
      write_same s.lchan c (some l),
      rw pending (
          no_old (write s.conn h.old_lchan none h.new_lchan) _ _
            (write_same s.conn h.old_lchan none)),
    )
  where
    no_old :
        (new_conn old_conn : Option ℕ) (t : State)
        → old_conn ≡ none
        → complete site h new_conn old_conn t ≡ none
    no_old none o t e = refl
    no_old (some d) none t e = refl
    no_old (some d) (some b) t e = absurd (ground (arith, e))
