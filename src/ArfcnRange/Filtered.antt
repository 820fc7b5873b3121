-- ===== src/ArfcnRange/Filtered.antt =====
-- openbsc/src/libbsc/arfcn_range_encode.c and system_information.c: what `range_encode` hands to the
-- tree. The filter leaves out F0 and closes the gap, but the number of frequencies stays.
use openbsc.Base.{
  ℕ, suc, ◌+◌, ◌-◌, ◌≡◌, ◌≤◌, ◌<◌, refl, sym, ap, ap₂, ◌∙◌, inl, inr, Bool, true, false, some, List,
  [], ◌∷◌, ◌++◌, map, ◌==◌, if◌then◌else◌, length, get_or, set, replicate, All, Bool-cases,
  length-map, length-append, All-append, eq→==, ==→eq, arith,
}
use openbsc.ArfcnRange.{
  done, sub_ℕ, modulo, Filter, filter_step, filter_loop, range_enc_filter_arfcns, range_enc_arfcns,
  range_encode, last_arfcn,
}
use openbsc.ArfcnRange.Window.{count, same}
use openbsc.ArfcnRange.Split.{IsDistinct}
use openbsc.ArfcnRange.Levels.{level}
use openbsc.ArfcnRange.Decode.{full, decode, count-append}
use openbsc.ArfcnRange.RoundTrip.{range_enc_arfcns-decode, range_enc_arfcns-fits}

-- The number of a frequency in the range that follows F0.
abbrev pub offset : ℕ → ℕ → ℕ
offset f0 x = modulo (sub_ℕ x (f0 + 1)) 1024

get_or-middle : (d : List ℕ) (x : ℕ) (t : List ℕ) → get_or (d ++ (x ∷ t)) (length d) 0 ≡ x
get_or-middle [] x t = refl
get_or-middle (y ∷ d) x t = get_or-middle d x t

get_or-second :
    (d : List ℕ) (y x : ℕ) (t : List ℕ) → get_or (d ++ (y ∷ (x ∷ t))) (suc (length d)) 0 ≡ x
get_or-second [] y x t = refl
get_or-second (z ∷ d) y x t = get_or-second d y x t

set-middle :
    (d : List ℕ) (x v : ℕ) (t : List ℕ) → set (d ++ (x ∷ t)) (length d) v ≡ (d ++ (v ∷ [])) ++ t
set-middle [] x v t = refl
set-middle (y ∷ d) x v t = ap (λ l. y ∷ l) (set-middle d x v t)

append-cons : (d : List ℕ) (v : ℕ) (t : List ℕ) → (d ++ (v ∷ [])) ++ t ≡ d ++ (v ∷ t)
append-cons [] v t = refl
append-cons (y ∷ d) v t = ap (λ l. y ∷ l) (append-cons d v t)

length-snoc : (d : List ℕ) (v : ℕ) → suc (length d) ≡ length (d ++ (v ∷ []))
length-snoc d v = omega (arith, length-append d (v ∷ []))

abbrev pub Differs : ℕ → List ℕ → Type 0
Differs f0 = All (λ x. (x == f0) ≡ false)

filter_step-keep :
    (f0 i x : ℕ) (s : Filter)
    → get_or s.arfcns i 0 ≡ x
    → (x == f0) ≡ false
    → filter_step f0 i s ≡ record s { arfcns = set s.arfcns s.j (offset f0 x); j = suc s.j }
unfolding filter_step
filter_step-keep f0 i x s e t = rw (e, t) refl

filter_step-skip :
    (f0 i x : ℕ) (s : Filter)
    → get_or s.arfcns i 0 ≡ x
    → (x == f0) ≡ true
    → filter_step f0 i s ≡ record s { f0_included = true }
unfolding filter_step
filter_step-skip f0 i x s e t = rw (e, t) refl

abbrev state : List ℕ → List ℕ → Bool → Filter
state d t inc = record { arfcns = d ++ t; j = length d; f0_included = inc }

-- One round that keeps `x`, which overwrites the first of the entries after `d`.
keep_round :
    (rounds f0 i x y : ℕ) (d t : List ℕ) (inc : Bool)
    → get_or (d ++ (y ∷ t)) i 0 ≡ x
    → (x == f0) ≡ false
    → filter_loop (suc rounds) f0 i (state d (y ∷ t) inc)
      ≡ filter_loop rounds f0 (suc i) (state (d ++ (offset f0 x ∷ [])) t inc)
unfolding filter_loop
keep_round rounds f0 i x y d t inc e h = ap (filter_loop rounds f0 (suc i)) (
    filter_step-keep f0 i x (state d (y ∷ t) inc) e h
    ∙ ap₂ (λ l n. record { arfcns = l; j = n; f0_included = inc }) (set-middle d y (offset f0 x) t)
        (length-snoc d (offset f0 x)))

-- With nothing left out so far, the array is filled from left to right.
filter_loop-none :
    (f0 : ℕ) (inc : Bool) (d rest : List ℕ)
    → Differs f0 rest
    → (filter_loop (length rest) f0 (length d) (state d rest inc)).arfcns
      ≡ d ++ map (offset f0) rest
filter_loop-none f0 inc d [] h = unfold filter_loop in refl
filter_loop-none f0 inc d (x ∷ rest) h =
    let d' = d ++ (offset f0 x ∷ []) in
    ap (λ (s : Filter). s.arfcns)
      (keep_round (length rest) f0 (length d) x x d rest inc (get_or-middle d x rest) h.0)
    ∙ ap (λ n. (filter_loop (length rest) f0 n (state d' rest inc)).arfcns)
        (length-snoc d (offset f0 x))
    ∙ filter_loop-none f0 inc d' rest h.1
    ∙ append-cons d (offset f0 x) (map (offset f0) rest)

filter_loop-none_flag :
    (f0 : ℕ) (inc : Bool) (d rest : List ℕ)
    → Differs f0 rest
    → (filter_loop (length rest) f0 (length d) (state d rest inc)).f0_included ≡ inc
filter_loop-none_flag f0 inc d [] h = unfold filter_loop in refl
filter_loop-none_flag f0 inc d (x ∷ rest) h =
    let d' = d ++ (offset f0 x ∷ []) in
    ap (λ (s : Filter). s.f0_included)
      (keep_round (length rest) f0 (length d) x x d rest inc (get_or-middle d x rest) h.0)
    ∙ ap (λ n. (filter_loop (length rest) f0 n (state d' rest inc)).f0_included)
        (length-snoc d (offset f0 x))
    ∙ filter_loop-none_flag f0 inc d' rest h.1

pub filter-absent_flag :
    (f0 : ℕ) (arfcns : List ℕ)
    → Differs f0 arfcns
    → (range_enc_filter_arfcns arfcns f0).f0_included ≡ false
unfolding range_enc_filter_arfcns
filter-absent_flag f0 arfcns h = filter_loop-none_flag f0 false [] arfcns h

-- With one left out, each entry is overwritten by the next, and the last one stays.
filter_loop-one :
    (f0 y : ℕ) (inc : Bool) (d rest : List ℕ)
    → Differs f0 rest
    → (filter_loop (length rest) f0 (suc (length d)) (state d (y ∷ rest) inc)).arfcns
      ≡ d ++ (map (offset f0) rest ++ (last_arfcn y rest ∷ []))
filter_loop-one f0 y inc d [] h = unfold filter_loop last_arfcn in refl
filter_loop-one f0 y inc d (x ∷ rest) h =
    let d' = d ++ (offset f0 x ∷ []) in
    ap (λ (s : Filter). s.arfcns)
      (keep_round (length rest) f0 (suc (length d)) x y d (x ∷ rest) inc (get_or-second d y x rest)
        h.0)
    ∙ ap (λ n. (filter_loop (length rest) f0 (suc n) (state d' (x ∷ rest) inc)).arfcns)
        (length-snoc d (offset f0 x))
    ∙ filter_loop-one f0 x inc d' rest h.1
    ∙ append-cons d (offset f0 x) (map (offset f0) rest ++ (last_arfcn x rest ∷ []))
    ∙ unfold last_arfcn in refl

filter-first :
    (f0 : ℕ) (rest : List ℕ)
    → Differs f0 rest
    → (range_enc_filter_arfcns (f0 ∷ rest) f0).arfcns
      ≡ map (offset f0) rest ++ (last_arfcn f0 rest ∷ [])
unfolding range_enc_filter_arfcns filter_loop
filter-first f0 rest h =
    ap (λ s. (filter_loop (length rest) f0 1 s).arfcns)
      (filter_step-skip f0 0 f0 (state [] (f0 ∷ rest) false) refl (eq→== f0 f0 refl))
    ∙ filter_loop-one f0 f0 true [] rest h

filter-absent :
    (f0 : ℕ) (arfcns : List ℕ)
    → Differs f0 arfcns
    → (range_enc_filter_arfcns arfcns f0).arfcns ≡ map (offset f0) arfcns
unfolding range_enc_filter_arfcns
filter-absent f0 arfcns h = filter_loop-none f0 false [] arfcns h

length-snoc_map :
    (f0 m : ℕ) (rest : List ℕ) → length (map (offset f0) rest ++ (m ∷ [])) ≡ suc (length rest)
length-snoc_map f0 m rest =
    omega (arith, length-append (map (offset f0) rest) (m ∷ []), length-map rest (offset f0))

-- What is known of the entries that stand for some numbers.
pub record StandsFor (k : ℕ) (numbers w : List ℕ) : Type 0 where
  pub decodes : (x : ℕ) → count x (decode k w 0 1) ≡ count x numbers
  pub fits : (i : ℕ) → get_or w i 0 ≤ full (k - level i)
  pub few : (i : ℕ) → length numbers ≤ i → get_or w i 0 ≡ 0

StandsFor-numbers :
    (k room : ℕ) (numbers : List ℕ)
    → All (λ x. x < full k) numbers
    → IsDistinct numbers
    → length numbers ≤ room
    → (w : List ℕ) × (range_enc_arfcns k (full k) numbers (replicate room 0) 0 ≡ some (done, w))
      × StandsFor k numbers w
StandsFor-numbers k room numbers a once h =
    let (w, e, c, z) = range_enc_arfcns-decode k room numbers a once h in
    (
      w,
      e,
      record {
        decodes = c;
        fits = range_enc_arfcns-fits k room numbers a once h w e;
        few = λ i m.
            let past : length numbers + (i - length numbers) ≡ i = omega arith in
            ap (λ j. get_or w j 0) (sym past) ∙ z (i - length numbers);
      },
    )

-- When F0 is not among the frequencies, as with range 1024 and no ARFCN 0, what `range_encode`
-- writes decodes to the offsets of the frequencies, if these differ, lie in the range and have room.
pub range_encode-absent :
    (k room f0 : ℕ) (arfcns : List ℕ)
    → Differs f0 arfcns
    → All (λ x. x < full k) (map (offset f0) arfcns)
    → IsDistinct (map (offset f0) arfcns)
    → length arfcns ≤ room
    → (w : List ℕ) × (range_encode k (full k) arfcns (replicate room 0) f0 ≡ some (done, w))
      × StandsFor k (map (offset f0) arfcns) w
unfolding range_encode
range_encode-absent k room f0 arfcns h a once l =
    let (w, e, entries) =
      StandsFor-numbers k room (map (offset f0) arfcns) a once
        (omega (arith, l, length-map arfcns (offset f0))) in
    (w, rw (filter-absent f0 arfcns h) e, entries)

excess_once :
    (x m : ℕ) (others : List ℕ)
    → count x others ≤ 1
    → count m others ≡ 0
    → count x (others ++ (m ∷ [])) ≡ count x others + same x m
    → count x (others ++ (m ∷ [])) ≤ 1
excess_once x m others o f e = elim (Bool-cases (x == m)) [
  | inl t ↦ ground (arith, t, e, f, ap (λ z. count z others) (==→eq x m t))
  | inr t ↦ ground (arith, t, e, o)
]

abbrev pub with_excess : ℕ → List ℕ → List ℕ
with_excess f0 rest = map (offset f0) rest ++ (last_arfcn f0 rest ∷ [])

pub count-with_excess :
    (f0 x : ℕ) (rest : List ℕ)
    → count x (with_excess f0 rest) ≡ count x (map (offset f0) rest) + same x (last_arfcn f0 rest)
count-with_excess f0 x rest =
    omega (arith, count-append x (map (offset f0) rest) (last_arfcn f0 rest ∷ []))

pub range_encode-tree :
    (k room f0 : ℕ) (rest : List ℕ)
    → Differs f0 rest
    → All (λ x. x < full k) (map (offset f0) rest)
    → last_arfcn f0 rest < full k
    → IsDistinct (map (offset f0) rest)
    → count (last_arfcn f0 rest) (map (offset f0) rest) ≡ 0
    → length rest < room
    → (w : List ℕ) × (range_encode k (full k) (f0 ∷ rest) (replicate room 0) f0 ≡ some (done, w))
      × StandsFor k (with_excess f0 rest) w
unfolding range_encode
range_encode-tree k room f0 rest h a b once fresh l =
    let m = last_arfcn f0 rest in
    let once' : IsDistinct (with_excess f0 rest) =
      λ x. excess_once x m (map (offset f0) rest) (once x) fresh (count-with_excess f0 x rest) in
    let (w, e, entries) =
      StandsFor-numbers k room (with_excess f0 rest)
        (All-append (λ x. x < full k) (map (offset f0) rest) m a b) once'
        (omega (arith, l, length-snoc_map f0 m rest)) in
    (w, rw (filter-first f0 rest h) e, entries)

-- When F0 is the first of the frequencies and is not among the others, what `range_encode` writes
-- decodes to the offsets of the others and to one number more, that of the last frequency itself,
-- if all of these differ, lie in the range and have room.
pub range_encode-excess :
    (k room f0 : ℕ) (rest : List ℕ)
    → Differs f0 rest
    → All (λ x. x < full k) (map (offset f0) rest)
    → last_arfcn f0 rest < full k
    → IsDistinct (map (offset f0) rest)
    → count (last_arfcn f0 rest) (map (offset f0) rest) ≡ 0
    → length rest < room
    → (w : List ℕ) × (range_encode k (full k) (f0 ∷ rest) (replicate room 0) f0 ≡ some (done, w))
      × ((x : ℕ)
          → count x (decode k w 0 1)
            ≡ count x (map (offset f0) rest) + (if x == last_arfcn f0 rest then 1 else 0))
range_encode-excess k room f0 rest h a b once fresh l =
    let (w, e, entries) = range_encode-tree k room f0 rest h a b once fresh l in
    (w, e, λ x. entries.decodes x ∙ count-with_excess f0 x rest)
