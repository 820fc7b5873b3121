-- ===== src/ArfcnRange.antt =====
-- openbsc/src/libbsc/arfcn_range_encode.c: the range formats of a frequency list. The numbers of the
-- frequencies, all below the range, become the entries W(1), W(2), ... of a balanced tree. Every
-- number in this code is an int that is not negative but the differences, which are of type ℤ.
pub mod Window
pub mod Split
pub mod Sides
pub mod Decode
pub mod Levels
pub mod Places
pub mod Tree
pub mod RoundTrip
pub mod Filtered
pub mod Octets
pub mod Tests
use openbsc.Base.{
  ℕ, zero, suc, ◌+◌, ◌-◌, ◌*◌, ◌/◌, ◌%◌, Bool, true, false, Option, none, some, List, [], ◌∷◌, ◌++◌,
  ◌&&◌, map, ltb, leb, ◌==◌, if◌then◌else◌, length, get_or, set,
}

-- `negsuc n` is -(n + 1).
pub data ℤ : Type 0 where
  pos : ℕ → ℤ
  negsuc : ℕ → ℤ

abbrev pub sub_ℕ : ℕ → ℕ → ℤ
sub_ℕ a b = if leb b a then pos (a - b) else negsuc (b - a - 1)

-- `greatest_power_of_2_lesser_or_equal_to`: the loop, from the power that the last round has left.
pub power_loop : ℕ → ℕ → ℕ → ℕ
power_loop zero power_of_2 index = power_of_2 / 2
power_loop (suc fuel) power_of_2 index =
    let doubled = power_of_2 * 2 in
    let rest = power_loop fuel doubled index in if leb doubled index then rest else doubled / 2

-- Each round doubles the power, so that as many rounds as the index are enough.
pub greatest_power_of_2_lesser_or_equal_to : ℕ → ℕ
unfolding power_loop
greatest_power_of_2_lesser_or_equal_to index = power_loop (suc index) 1 index

-- The remainder in C has the sign of the dividend; a negative one is raised by one range.
pub modulo : ℤ → ℕ → ℕ
modulo (pos n) range = n % range
modulo (negsuc n) range = let res = suc n % range in if res == 0 then 0 else range - res

-- The inner loop of `range_enc_find_index`: how many of the frequencies lie in the half of the range
-- that begins with `f`.
pub half_count : ℕ → ℕ → List ℕ → ℕ
unfolding modulo
half_count range f [] = 0
half_count range f (x ∷ xs) =
    (if leb (modulo (sub_ℕ x f) range) ((range - 1) / 2) then 1 else 0) + half_count range f xs

-- The outer loop, from the index `i` on, where `fs` are the frequencies left to try.
pub find_index_loop : ℕ → List ℕ → List ℕ → ℕ → Option ℕ
unfolding half_count
find_index_loop range freqs [] i = none
find_index_loop range freqs (f ∷ fs) i =
    if half_count range f freqs == (length freqs - 1) / 2 + 1
    then some i
    else find_index_loop range freqs fs (suc i)

-- `none` is -1.
pub range_enc_find_index : ℕ → List ℕ → Option ℕ
unfolding find_index_loop
range_enc_find_index range freqs = find_index_loop range freqs freqs 0

-- The loop that fills `arfcns_left`, for its origin, and `arfcns_right`, for its own.
pub side : ℕ → ℕ → List ℕ → List ℕ
unfolding modulo
side range origin [] = []
side range origin (x ∷ xs) =
    let rest = side range origin xs in
    let offset = modulo (sub_ℕ x origin) range in
    if ltb offset (range / 2) then offset ∷ rest else rest

-- What the encoder returns.
pub data Rc : Type 0 where
  done : Rc
  einval : Rc

-- The type of `range_enc_arfcns`: range, frequencies, `out` and the index in it; no result means
-- that the fuel has run out.
abbrev pub Encoder : Type 0
Encoder = ℕ → List ℕ → List ℕ → ℕ → Option (Rc × List ℕ)

-- A call of itself: only where there are frequencies, and what it returns is not looked at.
pub encode_side : Encoder → ℕ → List ℕ → List ℕ → ℕ → Option (List ℕ)
encode_side rec range [] out index = some out
encode_side rec range (x ∷ xs) out index = elim (rec range (x ∷ xs) out index) [
  | none ↦ none
  | some r ↦ some r.1
]

-- The calls of itself, for the left side and then for the right one.
pub encode_sides : Encoder → ℕ → List ℕ → List ℕ → ℕ → List ℕ → ℕ → Option (Rc × List ℕ)
unfolding encode_side
encode_sides rec range left right power out index =
    elim (encode_side rec (range / 2) left out (index + power)) [
      | none ↦ none
      | some out' ↦ elim (encode_side rec ((range - 1) / 2) right out' (index + 2 * power)) [
        | none ↦ none
        | some out'' ↦ some (done, out'')
      ]
    ]

-- From the frequency at which the list is split to the end of the function.
pub encode_split : Encoder → ℕ → List ℕ → ℕ → List ℕ → ℕ → Option (Rc × List ℕ)
unfolding encode_sides side modulo greatest_power_of_2_lesser_or_equal_to
encode_split rec range arfcns pivot out index =
    encode_sides rec range (side range (modulo (pos (pivot + (range - 1) / 2 + 1)) range) arfcns)
      (side range (modulo (pos (pivot + 1)) range) arfcns)
      (greatest_power_of_2_lesser_or_equal_to (index + 1)) (set out index (1 + pivot)) index

pub encode_body : Encoder → Encoder
unfolding range_enc_find_index encode_split
encode_body rec range [] out index = some (done, out)
encode_body rec range (x ∷ []) out index = some (done, set out index (1 + x))
encode_body rec range (x ∷ (y ∷ xs)) out index = elim (range_enc_find_index range (x ∷ y ∷ xs)) [
  | none ↦ some (einval, out)
  | some split_at ↦ encode_split rec range (x ∷ y ∷ xs) (get_or (x ∷ y ∷ xs) split_at 0) out index
]

-- The fuel is the depth of the tree: a range of k bits needs k.
pub range_enc_arfcns : ℕ → Encoder
unfolding encode_body
range_enc_arfcns zero = encode_body (λ range arfcns out index. none)
range_enc_arfcns (suc fuel) = encode_body (range_enc_arfcns fuel)

-- `range_enc_filter_arfcns`: what its loop carries. The array is written while it is read.
pub record Filter : Type 0 where
  pub arfcns : List ℕ
  pub j : ℕ
  pub f0_included : Bool

pub filter_step : ℕ → ℕ → Filter → Filter
unfolding modulo
filter_step f0 i s =
    let x = get_or s.arfcns i 0 in
    if x == f0
    then record s { f0_included = true }
    else record s { arfcns = set s.arfcns s.j (modulo (sub_ℕ x (f0 + 1)) 1024); j = suc s.j }

pub filter_loop : ℕ → ℕ → ℕ → Filter → Filter
unfolding filter_step
filter_loop zero f0 i s = s
filter_loop (suc rounds) f0 i s = filter_loop rounds f0 (suc i) (filter_step f0 i s)

pub range_enc_filter_arfcns : List ℕ → ℕ → Filter
unfolding filter_loop
range_enc_filter_arfcns arfcns f0 =
    filter_loop (length arfcns) f0 0 (record { arfcns = arfcns; j = 0; f0_included = false })

-- `range_encode` of openbsc/src/libbsc/system_information.c up to its switch: the number of
-- frequencies that are left is not looked at. The range is that of `bits` bits.
pub range_encode : ℕ → ℕ → List ℕ → List ℕ → ℕ → Option (Rc × List ℕ)
unfolding range_enc_filter_arfcns range_enc_arfcns
range_encode bits r arfcns w f0 =
    range_enc_arfcns bits r (range_enc_filter_arfcns arfcns f0).arfcns w 0

-- The last frequency; the first one is `x`.
pub last_arfcn : ℕ → List ℕ → ℕ
last_arfcn x [] = x
last_arfcn x (y ∷ ys) = last_arfcn y ys

pub range_of : ℕ → ℕ → Option ℕ
range_of max size =
    if ltb max 128 && leb size 29
    then some 127
    else if ltb max 256 && leb size 22
    then some 255
    else if ltb max 512 && leb size 18
    then some 511
    else if ltb max 1024 && leb size 17
    then some 1023
    else none

-- The range, with `none` for ARFCN_RANGE_INVALID, and F0. For no frequencies the source reads the
-- entry before the first one: no result.
pub range_enc_determine_range : List ℕ → Option (Option ℕ × ℕ)
unfolding last_arfcn range_of
range_enc_determine_range [] = none
range_enc_determine_range (x ∷ xs) =
    let range = range_of (last_arfcn x xs - x) (length (x ∷ xs)) in
    some (range, elim range [ none ↦ x | some r ↦ if r == 1023 then 0 else x ])
