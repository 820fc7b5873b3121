-- ===== src/Handover/Start.antt =====
-- openbsc/src/libbsc/handover_logic.c: the start of a handover, and connections that come and go.
use openbsc.Base.{
  All-map, All-zip, ℕ, ◌≡◌, ◌≢◌, refl, sym, ap, ◌∙◌, false, Option, none, some, ◌∷◌, All, some_inj,
  arith,
}
use openbsc.Handover.{
  Handover, State, write, bsc_ho_by_old_lchan, join, leave, start_on, start_if_alloc, start_if_conn,
  start_if_free, bsc_handover_start,
}
use openbsc.Handover.Pointers.{
  IsActive, Different, IsValid, write_same, write_other, IsActive-frame, bsc_ho_by_old_lchan-none,
}

-- What is asked of the caller: the channel is the one that its connection uses, and an allocated
-- channel has no connection.
pub record CanStart (s : State) (old_lchan : ℕ) (alloc : Option ℕ) : Type 0 where
  pub primary : (c : ℕ) → s.conn old_lchan ≡ some c → s.lchan c ≡ some old_lchan
  pub unconnected : (n : ℕ) → alloc ≡ some n → s.conn n ≡ none

-- A channel that has a connection is not one that has none.
pub connected_ne : (s : State) (x n c : ℕ) → s.conn x ≡ some c → s.conn n ≡ none → x ≢ n
connected_ne s x n c p q = λ e. ground (arith, sym p ∙ ap s.conn e ∙ q)

module _ (s : State) (old_lchan c n : ℕ) (p : s.conn old_lchan ≡ some c)
    (q : s.lchan c ≡ some old_lchan) (u : s.conn n ≡ none) where
  other_owner : (g : Handover) (b : IsActive s g) → g.old_lchan ≢ old_lchan → b.owner ≢ c
  other_owner g b d = λ e. d (some_inj (sym b.primary ∙ ap s.lchan e ∙ q))

  joined-IsActive :
      (g : Handover) → IsActive s g → g.old_lchan ≢ old_lchan → IsActive (join old_lchan n c s) g
  joined-IsActive g b d =
      IsActive-frame s (join old_lchan n c s) g b
        (write_other s.conn n (some c) g.old_lchan
          (connected_ne s g.old_lchan n b.owner b.old_conn u))
        (write_other s.conn n (some c) g.new_lchan
          (connected_ne s g.new_lchan n b.owner b.new_conn u))
        refl (write_other s.ho_lchan c (some n) b.owner (other_owner g b d))

  left-IsActive :
      (g : Handover)
      → IsActive s g
      → g.old_lchan ≢ old_lchan
      → IsActive (leave n c (join old_lchan n c s)) g
  left-IsActive g b d =
      let o = connected_ne s g.old_lchan n b.owner b.old_conn u in
      let m = connected_ne s g.new_lchan n b.owner b.new_conn u in
      let w = other_owner g b d in
      IsActive-frame s (leave n c (join old_lchan n c s)) g b
        (write_other (write s.conn n (some c)) n none g.old_lchan o
          ∙ write_other s.conn n (some c) g.old_lchan o)
        (write_other (write s.conn n (some c)) n none g.new_lchan m
          ∙ write_other s.conn n (some c) g.new_lchan m)
        refl
        (write_other (write s.ho_lchan c (some n)) c none b.owner w
          ∙ write_other s.ho_lchan c (some n) b.owner w)

  new-IsActive :
      (ref : ℕ)
      → IsActive
          (join old_lchan n c s)
          (record { old_lchan = old_lchan; new_lchan = n; t3103 = false; ho_ref = ref })
  new-IsActive ref = record {
    owner = c;
    old_conn = write_other s.conn n (some c) old_lchan (connected_ne s old_lchan n c p u) ∙ p;
    new_conn = write_same s.conn n (some c);
    primary = q;
    target = write_same s.ho_lchan c (some n);
    apart = connected_ne s old_lchan n c p u;
  }

  start_on-IsValid :
      (rc : Option ℕ)
      → IsValid s
      → All (λ g. g.old_lchan ≢ old_lchan) s.bsc_handovers
      → IsValid (start_on old_lchan c n rc s).1
  unfolding start_on Different
  start_on-IsValid none v d =
      let h : Handover = record {
        old_lchan = old_lchan;
        new_lchan = n;
        t3103 = false;
        ho_ref = s.next_ref;
      } in
      let j : State = join old_lchan n c s in
      let t : State = record j { bsc_handovers = h ∷ s.bsc_handovers } in
      record {
        active = (
          IsActive-frame j t h (new-IsActive s.next_ref) refl refl refl refl,
          All-map (IsActive j) (IsActive t) s.bsc_handovers
              (λ g b. IsActive-frame j t g b refl refl refl refl)
              (All-zip (IsActive s) (λ g. g.old_lchan ≢ old_lchan) (IsActive j) s.bsc_handovers
                joined-IsActive v.active d),
        );
        different = (d, v.different);
      }
  start_on-IsValid (some rc) v d = record {
    active =
        All-zip (IsActive s) (λ g. g.old_lchan ≢ old_lchan)
          (IsActive (leave n c (join old_lchan n c s))) s.bsc_handovers left-IsActive v.active d;
    different = v.different;
  }

pub bsc_handover_start-IsValid :
    (s : State) (old_lchan : ℕ) (alloc rc : Option ℕ)
    → CanStart s old_lchan alloc
    → IsValid s
    → IsValid (bsc_handover_start old_lchan alloc rc s).1
unfolding bsc_handover_start
bsc_handover_start-IsValid s old_lchan alloc rc k v =
    by_handover (bsc_ho_by_old_lchan s.bsc_handovers old_lchan) refl
  where
    by_alloc :
        (c : ℕ)
        → s.conn old_lchan ≡ some c
        → All (λ g. g.old_lchan ≢ old_lchan) s.bsc_handovers
        → (a : Option ℕ) → alloc ≡ a
        → IsValid (start_if_alloc old_lchan c a rc s).1
    by_alloc c e d none f = v
    by_alloc c e d (some n) f =
        start_on-IsValid s old_lchan c n e (k.primary c e) (k.unconnected n f) rc v d

    by_conn :
        All (λ g. g.old_lchan ≢ old_lchan) s.bsc_handovers
        → (o : Option ℕ) → s.conn old_lchan ≡ o
        → IsValid (start_if_conn old_lchan o alloc rc s).1
    by_conn d none e = v
    by_conn d (some c) e = by_alloc c e d alloc refl

    by_handover :
        (o : Option Handover)
        → bsc_ho_by_old_lchan s.bsc_handovers old_lchan ≡ o
        → IsValid (start_if_free old_lchan o alloc rc s).1
    by_handover (some h) e = v
    by_handover none e =
        by_conn (bsc_ho_by_old_lchan-none s.bsc_handovers old_lchan e) (s.conn old_lchan) refl

-- A connection begins on a channel that has none, and ends once it has no handover channel.
abbrev pub connect : ℕ → ℕ → State → State
connect l c s = record s { conn = write s.conn l (some c); lchan = write s.lchan c (some l) }

abbrev pub disconnect : ℕ → ℕ → State → State
disconnect l c s = record s { conn = write s.conn l none; lchan = write s.lchan c none }

pub connect-IsValid :
    (l c : ℕ) (s : State) → s.conn l ≡ none → s.lchan c ≡ none → IsValid s → IsValid (connect l c s)
connect-IsValid l c s p q v = record {
  active =
      All-map (IsActive s) (IsActive (connect l c s)) s.bsc_handovers
        (λ g b.
          IsActive-frame s (connect l c s) g b
            (write_other s.conn l (some c) g.old_lchan
              (connected_ne s g.old_lchan l b.owner b.old_conn p))
            (write_other s.conn l (some c) g.new_lchan
              (connected_ne s g.new_lchan l b.owner b.new_conn p))
            (write_other s.lchan c (some l) b.owner
              (λ e. ground (arith, sym b.primary ∙ ap s.lchan e ∙ q)))
            refl)
        v.active;
  different = v.different;
}

pub disconnect-IsValid :
    (l c : ℕ) (s : State)
    → s.conn l ≡ some c
    → s.ho_lchan c ≡ none
    → IsValid s
    → IsValid (disconnect l c s)
disconnect-IsValid l c s p q v = record {
  active =
      All-map (IsActive s) (IsActive (disconnect l c s)) s.bsc_handovers
        (λ g b.
          let o : b.owner ≢ c = λ e. ground (arith, sym b.target ∙ ap s.ho_lchan e ∙ q) in
          IsActive-frame s (disconnect l c s) g b
            (write_other s.conn l none g.old_lchan
              (λ e. o (some_inj (sym b.old_conn ∙ ap s.conn e ∙ p))))
            (write_other s.conn l none g.new_lchan
              (λ e. o (some_inj (sym b.new_conn ∙ ap s.conn e ∙ p))))
            (write_other s.lchan c none b.owner o) refl)
        v.active;
  different = v.different;
}
