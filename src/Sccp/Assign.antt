-- ===== src/Sccp/Assign.antt =====
-- openbsc/src/osmo-bsc_nat/bsc_sccp.c: the search for a free reference ends.
use openbsc.Base.{
  ℕ, zero, suc, ◌+◌, ◌-◌, ◌*◌, ◌%◌, ◌≤◌, ◌<◌, ◌≡◌, refl, sym, ap, ◌∙◌, ◌⊎◌, inl, inr, true, false,
  Option, none, some, List, ◌==◌, Bool-cases, ==→eq, arith,
}
use openbsc.Sccp.{Conn, Nat, sccp_ref_is_free, next_ref, assign_loop, assign_src_local_reference}

-- What the loop returns: a free reference, or none because every reference is taken.
pub record IsAssigned (conns : List Conn) (r : Option (Option ℕ × ℕ)) : Type 0 where
  pub ref : Option ℕ
  pub last : ℕ
  pub returns : r ≡ some (ref, last)
  pub in_range : last < 16777215
  pub free :
      ((n : ℕ) × (ref ≡ some n) × (n < 16777215) × (sccp_ref_is_free conns n ≡ true))
      ⊎ ((ref ≡ none) × ((n : ℕ) → n < 16777215 → sccp_ref_is_free conns n ≡ false))

-- In the second round, the references before the current one are taken.
abbrev Taken : List Conn → ℕ → ℕ → Type 0
Taken conns last_ref wrapped =
    wrapped ≡ 1 → (n : ℕ) → n < last_ref → sccp_ref_is_free conns n ≡ false

next_ref-stays : (l : ℕ) → l + 1 < 16777215 → next_ref l ≡ (l + 1, false)
next_ref-stays l h =
    let m : (l + 1) % 4294967296 ≡ l + 1 = omega (arith, h) in
    let e : ((l + 1) % 16777216 == 16777215) ≡ false = ground (arith, h) in rw m (rw e refl)

next_ref-wraps : (l : ℕ) → l + 1 ≡ 16777215 → next_ref l ≡ (0, true)
next_ref-wraps l h = let m : (l + 1) % 4294967296 ≡ 16777215 = omega (arith, h) in rw m refl

Taken-next :
    (conns : List Conn) (l wrapped : ℕ)
    → sccp_ref_is_free conns l ≡ false
    → Taken conns l wrapped
    → Taken conns (l + 1) wrapped
Taken-next conns l wrapped e t = λ w n h. elim (Bool-cases (n == l)) [
  | inl q ↦ rw (==→eq n l q) e
  | inr q ↦ t w n (ground (arith, q, h))
]

found_free :
    (conns : List Conn) (l : ℕ)
    → l < 16777215
    → sccp_ref_is_free conns (l % 16777216) ≡ true
    → IsAssigned conns (some (some (l % 16777216), (next_ref l).0))
found_free conns l b e = record {
  ref = some (l % 16777216);
  last = (next_ref l).0;
  returns = refl;
  in_range = ground (arith, b);
  free = inl (l % 16777216, refl, omega (arith, b), e);
}

all_taken :
    (conns : List Conn)
    → ((n : ℕ) → n < 16777215 → sccp_ref_is_free conns n ≡ false)
    → IsAssigned conns (some (none, 0))
all_taken conns h = record {
  ref = none;
  last = 0;
  returns = refl;
  in_range = omega arith;
  free = inr (refl, h);
}

assign_loop-IsAssigned :
    (fuel : ℕ) (conns : List Conn) (l wrapped : ℕ)
    → l < 16777215
    → wrapped < 2
    → (2 - wrapped) * 16777215 ≤ fuel + l
    → Taken conns l wrapped
    → IsAssigned conns (assign_loop fuel conns l wrapped)
unfolding assign_loop
assign_loop-IsAssigned zero conns l wrapped b w f t = absurd (omega arith)
assign_loop-IsAssigned (suc fuel) conns l wrapped b w f t =
    let m : l % 16777216 ≡ l = omega (arith, b) in
    elim (Bool-cases (sccp_ref_is_free conns (l % 16777216))) [
      | inl e ↦ rw (e, assign_loop) (found_free conns l b e)
      | inr e ↦
          let taken : sccp_ref_is_free conns l ≡ false = ap (sccp_ref_is_free conns) (sym m) ∙ e in
          let t' = Taken-next conns l wrapped taken t in
          elim (Bool-cases (l + 1 == 16777215)) [
            | inl q ↦
                let q' : l + 1 ≡ 16777215 = ==→eq (l + 1) 16777215 q in
                let n = next_ref-wraps l q' in
                elim (Bool-cases (wrapped + 1 == 2)) [
                  | inl r ↦
                      rw (e, assign_loop)
                        (rw n (
                          rw r (
                            rw n (
                              all_taken conns (λ i h.
                                t' (omega (arith, ==→eq (wrapped + 1) 2 r)) i
                                  (omega (arith, q', h)))))))
                  | inr r ↦
                      rw (e, assign_loop)
                        (rw n (
                          rw r (
                            rw n (
                              assign_loop-IsAssigned fuel conns 0 (wrapped + 1) (omega arith)
                                (ground (arith, r, w)) (omega (arith, f, q'))
                                (λ x i h. absurd (omega (arith, h)))))))
                ]
            | inr q ↦
                let n = next_ref-stays l (ground (arith, q, b)) in
                let r : (wrapped == 2) ≡ false = ground (arith, w) in
                rw (e, assign_loop)
                  (rw n (
                    rw r (
                      rw n (
                        assign_loop-IsAssigned fuel conns (l + 1) wrapped (ground (arith, q, b)) w
                          (omega (arith, f)) t'))))
          ]
    ]

-- From a last reference below 0xffffff, the assignment ends: it returns a reference below 0xffffff
-- that no connection has, or none when every such reference is taken, and the last reference stays
-- in range.
pub assign_src_local_reference-IsAssigned :
    (nat : Nat)
    → nat.last_ref < 16777215
    → IsAssigned nat.sccp_connections (assign_src_local_reference nat)
unfolding assign_src_local_reference
assign_src_local_reference-IsAssigned nat b =
    assign_loop-IsAssigned 33554430 nat.sccp_connections nat.last_ref 0 b (omega arith)
      (omega arith) (λ x i h. absurd (omega (arith, x)))
