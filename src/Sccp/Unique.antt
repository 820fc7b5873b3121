-- ===== src/Sccp/Unique.antt =====
-- openbsc/src/osmo-bsc_nat/bsc_sccp.c: the references towards the MSC tell the connections apart.
use mathlib.Core.Path.{subst}
use openbsc.Base.{
  All-append, ℕ, ◌≡◌, ◌≢◌, ◌<◌, refl, sym, ap, ◌∙◌, inl, inr, Bool, true, false, Option, none, some,
  List, [], ◌∷◌, ◌++◌, ◌==◌, All, Bool-cases, some_inj, eq→==, arith,
}
use openbsc.Sccp.{
  Conn, Nat, Created, sccp_ref_is_free, is_conn, find_conn, remove_conn, reassign_conn, new_conn,
  create_with, create_sccp_src_ref, is_patched, remove_sccp_src_ref, patch_sccp_src_ref_to_bsc,
  patch_sccp_src_ref_to_msc,
}
use openbsc.Sccp.Assign.{IsAssigned, assign_src_local_reference-IsAssigned}

abbrev Not : ℕ → Conn → Type 0
Not ref c = c.patched_ref ≢ ref

unfoldable pub Different : List Conn → Type 0
Different [] = Unit
Different (c ∷ cs) = All (Not c.patched_ref) cs × Different cs

-- No two connections have the same reference towards the MSC.
pub record IsUnique (nat : Nat) : Type 0 where
  pub different : Different nat.sccp_connections
  pub in_range : nat.last_ref < 16777215

free-All : (cs : List Conn) (ref : ℕ) → sccp_ref_is_free cs ref ≡ true → All (Not ref) cs
unfolding sccp_ref_is_free
free-All [] ref e = tt
free-All (c ∷ cs) ref e = elim (Bool-cases (ref == c.patched_ref)) [
  | inl t ↦ absurd (ground (arith, t, e))
  | inr t ↦ (λ p. ground (arith, t, p), free-All cs ref (rw t at e))
]

All-remove_conn :
    (P : Conn → Type 0) (cs : List Conn) (test : Conn → Bool)
    → All P cs
    → All P (remove_conn cs test)
unfolding remove_conn
All-remove_conn P [] test a = tt
All-remove_conn P (c ∷ cs) test a = elim (Bool-cases (test c)) [
  | inl t ↦ rw t a.1
  | inr t ↦ rw t (a.0, All-remove_conn P cs test a.1)
]

Different-remove_conn :
    (cs : List Conn) (test : Conn → Bool) → Different cs → Different (remove_conn cs test)
unfolding remove_conn Different
Different-remove_conn [] test d = tt
Different-remove_conn (c ∷ cs) test d = elim (Bool-cases (test c)) [
  | inl t ↦ rw t d.1
  | inr t ↦
      rw t (All-remove_conn (Not c.patched_ref) cs test d.0, Different-remove_conn cs test d.1)
]

All-reassign_conn :
    (old : ℕ) (cs : List Conn) (test : Conn → Bool) (ref : ℕ)
    → ref ≢ old
    → All (Not old) cs
    → All (Not old) (reassign_conn cs test ref)
unfolding reassign_conn
All-reassign_conn old [] test ref n a = tt
All-reassign_conn old (c ∷ cs) test ref n a = elim (Bool-cases (test c)) [
  | inl t ↦ rw t (n, a.1)
  | inr t ↦ rw t (a.0, All-reassign_conn old cs test ref n a.1)
]

Different-reassign_conn :
    (cs : List Conn) (test : Conn → Bool) (ref : ℕ)
    → All (Not ref) cs
    → Different cs
    → Different (reassign_conn cs test ref)
unfolding reassign_conn Different
Different-reassign_conn [] test ref a d = tt
Different-reassign_conn (c ∷ cs) test ref a d = elim (Bool-cases (test c)) [
  | inl t ↦ rw t (a.1, d.1)
  | inr t ↦ rw t (
    All-reassign_conn c.patched_ref cs test ref (λ e. a.0 (sym e)) d.0,
    Different-reassign_conn cs test ref a.1 d.1,
  )
]

Different-append :
    (cs : List Conn) (c : Conn)
    → All (Not c.patched_ref) cs
    → Different cs
    → Different (cs ++ (c ∷ []))
unfolding Different
Different-append [] c a d = (tt, tt)
Different-append (x ∷ cs) c a d =
    (All-append (Not x.patched_ref) cs c d.0 (λ e. a.0 (sym e)), Different-append cs c a.1 d.1)

create_with-Different :
    (bsc src : ℕ) (o : Option Conn) (ref : Option ℕ) (last : ℕ) (cs : List Conn)
    → Different cs
    → ((n : ℕ) → ref ≡ some n → All (Not n) cs)
    → Different (create_with bsc src o (ref, last) cs).1.sccp_connections
unfolding create_with
create_with-Different bsc src (some c) none last cs d f =
    Different-remove_conn cs (is_conn bsc src) d
create_with-Different bsc src (some c) (some n) last cs d f =
    Different-reassign_conn cs (is_conn bsc src) n (f n refl) d
create_with-Different bsc src none none last cs d f = d
create_with-Different bsc src none (some n) last cs d f =
    Different-append cs (new_conn bsc src n) (f n refl) d

create_with-last :
    (bsc src : ℕ) (o : Option Conn) (ref : Option ℕ) (last : ℕ) (cs : List Conn)
    → (create_with bsc src o (ref, last) cs).1.last_ref ≡ last
unfolding create_with
create_with-last bsc src (some c) none last cs = refl
create_with-last bsc src (some c) (some n) last cs = refl
create_with-last bsc src none none last cs = refl
create_with-last bsc src none (some n) last cs = refl

new_ref :
    (cs : List Conn) {r : Option (Option ℕ × ℕ)} (a : IsAssigned cs r) (n : ℕ)
    → a.ref ≡ some n
    → All (Not n) cs
new_ref cs a n e = elim a.free [
  | inl (m, p, b, f) ↦ subst (λ k. All (Not k) cs) (some_inj (sym p ∙ e)) (free-All cs m f)
  | inr (p, f) ↦ absurd (ground (arith, p, e))
]

-- When no two connections have the same reference towards the MSC, a connection request is handled
-- to its end, and so is the removal of a connection, and then no two have the same reference
-- either.
pub create_sccp_src_ref-IsUnique :
    (nat : Nat) (bsc src : ℕ)
    → IsUnique nat
    → ((r : Created) × (create_sccp_src_ref bsc src nat ≡ some r) × IsUnique r.1)
      × IsUnique (remove_sccp_src_ref src nat)
unfolding create_sccp_src_ref remove_sccp_src_ref
create_sccp_src_ref-IsUnique nat bsc src u =
    let a = assign_src_local_reference-IsAssigned nat u.in_range in
    let cs = nat.sccp_connections in
    let o = find_conn cs (is_conn bsc src) in
    (
      (
        create_with bsc src o (a.ref, a.last) cs,
        rw (a.returns, create_sccp_src_ref) refl,
        record {
          different = create_with-Different bsc src o a.ref a.last cs u.different (new_ref cs a);
          in_range = rw (create_with-last bsc src o a.ref a.last cs) a.in_range;
        },
      ),
      record {
        different = Different-remove_conn cs (is_patched src) u.different;
        in_range = u.in_range;
      },
    )

-- What a search finds.
find_conn-All :
    (P : Conn → Type 0) (cs : List Conn) (test : Conn → Bool) (c : Conn)
    → find_conn cs test ≡ some c
    → All P cs
    → P c
unfolding find_conn
find_conn-All P [] test c e a = absurd (ground (arith, e))
find_conn-All P (x ∷ cs) test c e a = elim (Bool-cases (test x)) [
  | inl t ↦ let p : some x ≡ some c = rw t at e in subst P (some_inj p) a.0
  | inr t ↦ find_conn-All P cs test c (rw t at e) a.1
]

find_conn-passes :
    (cs : List Conn) (test : Conn → Bool) (c : Conn) → find_conn cs test ≡ some c → test c ≡ true
unfolding find_conn
find_conn-passes [] test c e = absurd (ground (arith, e))
find_conn-passes (x ∷ cs) test c e = elim (Bool-cases (test x)) [
  | inl t ↦ let p : some x ≡ some c = rw t at e in ap test (sym (some_inj p)) ∙ t
  | inr t ↦ find_conn-passes cs test c (rw t at e)
]

find_patched :
    (cs : List Conn) (test : Conn → Bool) (c : Conn)
    → Different cs
    → find_conn cs test ≡ some c
    → find_conn cs (is_patched c.patched_ref) ≡ some c
unfolding find_conn Different
find_patched [] test c d e = absurd (ground (arith, e))
find_patched (x ∷ cs) test c d e = elim (Bool-cases (test x)) [
  | inl t ↦
      let q : some x ≡ some c = rw t at e in
      let p : x ≡ c = some_inj q in
      let same : (c.patched_ref == x.patched_ref) ≡ true =
        eq→== c.patched_ref x.patched_ref (ap (λ (y : Conn). y.patched_ref) (sym p)) in
      rw same (ap some p)
  | inr t ↦
      let e' : find_conn cs test ≡ some c = rw t at e in
      let n : (c.patched_ref == x.patched_ref) ≡ false =
        ground (arith, find_conn-All (Not x.patched_ref) cs test c e' d.0) in
      rw n (find_patched cs test c d.1 e')
]

-- The connection that a message to the MSC is patched for.
patched_conn :
    (o : Option Conn) (c : Conn) (ref : ℕ)
    → elim o as (λ x. Option (Conn × Option ℕ)) [
      | none ↦ none
      | some d ↦ some (d, some d.patched_ref)
    ]
      ≡ some (c, some ref)
    → (o ≡ some c) × (c.patched_ref ≡ ref)
patched_conn none c ref e = absurd (ground (arith, e))
patched_conn (some d) c ref e =
    let p = some_inj e in
    let q : d ≡ c = ap (λ (x : Conn × Option ℕ). x.0) p in
    let r : some d.patched_ref ≡ some ref = ap (λ (x : Conn × Option ℕ). x.1) p in
    (ap some q, ap (λ (x : Conn). x.patched_ref) (sym q) ∙ some_inj r)

-- When no two connections have the same reference towards the MSC, the answer to a message of a
-- controller that is patched for the MSC goes to the same connection, and to the reference that the
-- controller used.
pub patch_sccp_src_ref_lem :
    (nat : Nat) (bsc src : ℕ) (dest : Option ℕ) (c : Conn) (ref : ℕ)
    → IsUnique nat
    → patch_sccp_src_ref_to_msc bsc (some src) dest nat ≡ some (c, some ref)
    → (patch_sccp_src_ref_to_bsc (some ref) nat ≡ some (c, src)) × (c.bsc ≡ bsc)
unfolding patch_sccp_src_ref_to_msc patch_sccp_src_ref_to_bsc
patch_sccp_src_ref_lem nat bsc src dest c ref u e =
    let cs = nat.sccp_connections in
    let (f, p) = patched_conn (find_conn cs (is_conn bsc src)) c ref e in
    let t : is_conn bsc src c ≡ true = find_conn-passes cs (is_conn bsc src) c f in
    let real : c.real_ref ≡ src = ground (arith, t) in
    let owner : c.bsc ≡ bsc = ground (arith, t) in
    let g : find_conn cs (is_patched ref) ≡ some c =
      ap (λ n. find_conn cs (is_patched n)) (sym p)
      ∙ find_patched cs (is_conn bsc src) c u.different f in
    (rw (g, patch_sccp_src_ref_to_bsc) (ap (λ n. some (c, n)) real), owner)
