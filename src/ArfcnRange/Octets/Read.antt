-- ===== src/ArfcnRange/Octets/Read.antt =====
-- How the octets of openbsc/src/libbsc/arfcn_range_encode.c are read: the formats 1024 range, 512
-- range, 256 range and 128 range of 3GPP TS 44.018, 10.5.2.13. Bit 0 is the highest one of the first
-- octet, which is bit 8 there.
use openbsc.Base.{
  ℕ, zero, suc, ◌+◌, ◌%◌, ◌≡◌, ◌∙◌, not, Option, none, some, List, [], ◌∷◌, map, ltb, ◌==◌,
  if◌then◌else◌, get_or, arith,
}
use openbsc.ArfcnRange.Decode.{decode}
use openbsc.ArfcnRange.Levels.{shape}
use openbsc.ArfcnRange.Octets.Entry.{read_bits}
use openbsc.ArfcnRange.Octets.Levels.{place, width}

-- The entry at an index, where the first entry begins at bit `base`.
abbrev pub entry_at : List ℕ → ℕ → ℕ → ℕ → ℕ
entry_at l base w1_len m = read_bits l (base + place w1_len (shape m)) (width w1_len m)

-- `n` entries from the one at index `m` on.
unfoldable pub read_entries : List ℕ → ℕ → ℕ → ℕ → ℕ → List ℕ
read_entries l base w1_len m zero = []
read_entries l base w1_len m (suc n) =
    entry_at l base w1_len m ∷ read_entries l base w1_len (suc m) n

pub get_or-read_entries :
    (l : List ℕ) (base w1_len m n i : ℕ)
    → get_or (read_entries l base w1_len m n) i 0
      ≡ (if ltb i n then entry_at l base w1_len (m + i) else 0)
unfolding read_entries
get_or-read_entries l base w1_len m zero i = ground arith
get_or-read_entries l base w1_len m (suc n) zero =
    let e : m + 0 ≡ m = omega arith in rw e (ground arith)
get_or-read_entries l base w1_len m (suc n) (suc i) =
    let e : m + suc i ≡ suc m + i = omega arith in
    rw e (get_or-read_entries l base w1_len (suc m) n i ∙ ground arith)

-- The frequencies of a tree of `k` levels, which count from the one that follows F0.
unfoldable pub read_arfcns : ℕ → ℕ → List ℕ → List ℕ
read_arfcns k f0 w = map (λ x. (x + f0 + 1) % 1024) (decode k w 0 1)

unfoldable pub read_range : List ℕ → ℕ → ℕ → List ℕ
unfolding read_arfcns read_entries
read_range l k size =
    let f0 = read_bits l 7 10 in f0 ∷ read_arfcns k f0 (read_entries l 17 k 0 size)

unfoldable pub read_range1024 : List ℕ → List ℕ
unfolding read_arfcns read_entries
read_range1024 l =
    let others = read_arfcns 10 0 (read_entries l 6 10 0 16) in
    if read_bits l 5 1 == 1 then 0 ∷ others else others

-- The format by its bits 8 and 7, and 4, 3 and 2.
unfoldable pub read_freq_list : List ℕ → Option (List ℕ)
unfolding read_range read_range1024
read_freq_list l =
    if not (read_bits l 0 2 == 2)
    then none
    else if read_bits l 4 1 == 0
    then some (read_range1024 l)
    else if read_bits l 4 3 == 4
    then some (read_range l 9 17)
    else if read_bits l 4 3 == 5
    then some (read_range l 8 21)
    else if read_bits l 4 3 == 6
    then some (read_range l 7 28)
    else none
