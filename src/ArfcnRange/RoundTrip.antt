-- ===== src/ArfcnRange/RoundTrip.antt =====
-- openbsc/src/libbsc/arfcn_range_encode.c: what `range_enc_arfcns` writes decodes to its frequencies.
use openbsc.Base.{
  ℕ, zero, suc, ◌+◌, ◌-◌, ◌*◌, ◌≡◌, ◌≤◌, ◌<◌, refl, sym, ap, ◌∙◌, some, some_inj, List, [], ◌∷◌,
  length, get_or, set, All, length-set, length-replicate, replicate, arith,
}
use openbsc.ArfcnRange.{Rc, done, range_enc_arfcns}
use openbsc.ArfcnRange.Window.{count}
use openbsc.ArfcnRange.Split.{IsDistinct}
use openbsc.ArfcnRange.Levels.{level}
use openbsc.ArfcnRange.Decode.{full, decode, entry, decode-empty}
use openbsc.ArfcnRange.Places.{
  Encoded, IsFree, doubled, left-IsFree, right-IsFree, root-out₁, keeps-out₁, node-fits,
}
use openbsc.ArfcnRange.Tree.{range_enc_arfcns-empty, Encodes, pair-Encoded}

free_root :
    (n size : ℕ) (out : List ℕ) (index step : ℕ)
    → IsFree n size out index step
    → get_or out index 0 ≡ 0
free_root n size out index step free = ap (λ i. get_or out i 0) (omega arith) ∙ free.empty 0

empty-Encoded :
    (k n : ℕ) (out : List ℕ) (index step : ℕ)
    → IsFree n 0 out index step
    → Encoded k [] out index step
empty-Encoded k n out index step free = record {
  out' = out;
  returns = range_enc_arfcns-empty k (full k) out index;
  decodes = λ x. ap (count x) (decode-empty k out index step (free_root n 0 out index step free));
  keeps = λ q h. refl;
  same_length = refl;
  fits = λ i. omega (arith, free.empty i);
}

range_enc_arfcns-single :
    (k range x : ℕ) (out : List ℕ) (index : ℕ)
    → range_enc_arfcns k range (x ∷ []) out index ≡ some (done, set out index (1 + x))
unfolding range_enc_arfcns
range_enc_arfcns-single zero range x out index = refl
range_enc_arfcns-single (suc k) range x out index = refl

-- A tree that is its root.
decode_leaf :
    (k n x : ℕ) (out : List ℕ) (index step : ℕ)
    → IsFree n 1 out index step
    → decode (suc k) (set out index (1 + x)) index step ≡ x ∷ []
unfolding decode
decode_leaf k n x out index step free =
    let out' = set out index (1 + x) in
    let root : get_or out' index 0 ≡ suc x =
      root-out₁ n 1 x out index step free (omega arith) ∙ omega arith in
    let left = left-IsFree n 1 x out index step free 0 (omega arith) in
    let right = right-IsFree n 1 x out index step free 0 0 out' (λ q h. refl) refl (omega arith) in
    rw
      (
        root,
        decode-empty k out' (index + step) (2 * step)
            (free_root (suc n) 0 out' (index + step) (2 * step) left),
        decode-empty k out' (index + 2 * step) (2 * step)
            (free_root (suc n) 0 out' (index + 2 * step) (2 * step) right),
      )
      refl

leaf-fits :
    (k n x : ℕ) (out : List ℕ) (index step : ℕ)
    → x < full (suc k)
    → IsFree n 1 out index step
    → (i : ℕ) → get_or (set out index (1 + x)) (entry index step i) 0 ≤ full (suc k - level i)
leaf-fits k n x out index step h free =
    let out' = set out index (1 + x) in
    let left = left-IsFree n 1 x out index step free 0 (omega arith) in
    let right = right-IsFree n 1 x out index step free 0 0 out' (λ q h. refl) refl (omega arith) in
    node-fits n 1 x out index step free 0 0 out' (λ q h. refl) refl out' (λ q h. refl) k h
      (omega arith) (λ i. omega (arith, left.empty i)) (λ i. omega (arith, right.empty i))

single-Encoded :
    (k n x : ℕ) (out : List ℕ) (index step : ℕ)
    → x < full k
    → IsFree n 1 out index step
    → Encoded k (x ∷ []) out index step
single-Encoded zero n x out index step h free = absurd (unfold full in omega arith)
single-Encoded (suc k) n x out index step h free = record {
  out' = set out index (1 + x);
  returns = range_enc_arfcns-single (suc k) (full (suc k)) x out index;
  decodes = λ y. ap (count y) (decode_leaf k n x out index step free);
  keeps = λ q o. keeps-out₁ n 1 x out index step free q (λ e. o 0 (omega arith) (omega (arith, e)));
  same_length = length-set out index (1 + x);
  fits = leaf-fits k n x out index step h free;
}

pub range_enc_arfcns-Encoded : (k : ℕ) → Encodes k
range_enc_arfcns-Encoded k n [] out index step a once free = empty-Encoded k n out index step free
range_enc_arfcns-Encoded k n (x ∷ []) out index step a once free =
    single-Encoded k n x out index step a.0 free
range_enc_arfcns-Encoded zero n (x ∷ (y ∷ xs)) out index step a once free =
    absurd (unfold full in omega (arith, a.0))
range_enc_arfcns-Encoded (suc k) n (x ∷ (y ∷ xs)) out index step a once free =
    pair-Encoded k n x y xs out index step (range_enc_arfcns-Encoded k) (unfold full in a) once free

get_or-zeros : (n q : ℕ) {z : ℕ} → z ≡ 0 → get_or (replicate n z) q 0 ≡ 0
get_or-zeros zero q e = refl
get_or-zeros (suc n) zero e = e
get_or-zeros (suc n) (suc q) e = get_or-zeros n q e

IsFree-zeros : (room size : ℕ) → size ≤ room → IsFree 0 size (replicate room 0) 0 1
IsFree-zeros room size h = record {
  power = unfold doubled in refl;
  low = omega arith;
  high = omega arith;
  empty = λ i. get_or-zeros room (entry 0 1 i) refl;
  room = λ i m. omega (arith, m, h, length-replicate {A = ℕ} room 0);
}

-- For different frequencies below the range of k bits, and no more than there is room for, the
-- encoder returns 0. What it has written decodes, by the procedure of 3GPP TS 44.018, to these
-- frequencies, each once, and takes no entries but the first ones, one for each frequency.
pub range_enc_arfcns-decode :
    (k room : ℕ) (arfcns : List ℕ)
    → All (λ x. x < full k) arfcns
    → IsDistinct arfcns
    → length arfcns ≤ room
    → (w : List ℕ) × (range_enc_arfcns k (full k) arfcns (replicate room 0) 0 ≡ some (done, w))
      × ((x : ℕ) → count x (decode k w 0 1) ≡ count x arfcns)
      × ((q : ℕ) → get_or w (length arfcns + q) 0 ≡ 0)
range_enc_arfcns-decode k room arfcns a once h =
    let e =
      range_enc_arfcns-Encoded k 0 arfcns (replicate room 0) 0 1 a once
        (IsFree-zeros room (length arfcns) h) in
    (
      e.out',
      e.returns,
      e.decodes,
      λ q.
          e.keeps (length arfcns + q) (λ i l z. omega (arith, z, l))
          ∙ get_or-zeros room (length arfcns + q) refl,
    )

-- The entries of such a tree lie in the ranges of their levels.
pub range_enc_arfcns-fits :
    (k room : ℕ) (arfcns : List ℕ)
    → All (λ x. x < full k) arfcns
    → IsDistinct arfcns
    → length arfcns ≤ room
    → (w : List ℕ) → range_enc_arfcns k (full k) arfcns (replicate room 0) 0 ≡ some (done, w)
    → (i : ℕ) → get_or w i 0 ≤ full (k - level i)
range_enc_arfcns-fits k room arfcns a once h w r i =
    let e =
      range_enc_arfcns-Encoded k 0 arfcns (replicate room 0) 0 1 a once
        (IsFree-zeros room (length arfcns) h) in
    let same : e.out' ≡ w = ap (λ (p : Rc × List ℕ). p.1) (some_inj (sym e.returns ∙ r)) in
    let z : entry 0 1 i ≡ i = omega arith in
    rw (← same) (omega (arith, e.fits i, ap (λ q. get_or e.out' q 0) z))
