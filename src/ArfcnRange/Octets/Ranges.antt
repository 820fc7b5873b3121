-- ===== src/ArfcnRange/Octets/Ranges.antt =====
-- openbsc/src/libbsc/arfcn_range_encode.c and system_information.c: the octets of each of the four
-- formats are read as the tree of entries that they have been made of.
use openbsc.Base.{
  ℕ, ◌+◌, ◌*◌, ◌/◌, ◌≤◌, ◌<◌, ◌≡◌, refl, ap, ◌∙◌, Bool, true, false, some, List, [], ◌∷◌, length,
  bit_or, ◌==◌, if◌then◌else◌, arith,
}
use openbsc.Base.Bits.{◌<<<◌, test_bit}
use openbsc.ArfcnRange.Decode.{full}
use openbsc.ArfcnRange.Levels.{shape}
use openbsc.ArfcnRange.Octets.{
  Writer, write_all_wn, range_enc_range128, range_enc_range256, range_enc_range512,
  range_enc_range1024, encode_format,
}
use openbsc.ArfcnRange.Octets.Slice.{bit_at}
use openbsc.ArfcnRange.Octets.Entry.{read_bits, read_bits-ext}
use openbsc.ArfcnRange.Octets.Levels.{place, Entries, write_all_wn-Entries}
use openbsc.ArfcnRange.Octets.Formats.{IsTree, read_format, read_range-octets, read_arfcns-written}
use openbsc.ArfcnRange.Octets.Read.{
  read_arfcns, read_entries, read_range, read_range1024, read_freq_list,
}

-- The formats with F0, the levels of their trees, and the numbers of their entries.
pub data RangeFormat : Type 0 where
  range128 range256 range512 : RangeFormat

abbrev pub depth : RangeFormat → ℕ
depth range128 = 7
depth range256 = 8
depth range512 = 9

abbrev pub most : RangeFormat → ℕ
most range128 = 28
most range256 = 21
most range512 = 17

-- A list of 16 octets, whatever is in it.
abbrev pub chan : ℕ → ℕ → ℕ → List ℕ → List ℕ
chan a b c l = a ∷ (b ∷ (c ∷ l))

abbrev FormatBits : ℕ → ℕ → Type 0
FormatBits code id =
    (read_bits (code ∷ []) 0 2 ≡ 2)
    × (read_bits (code ∷ []) 4 1 ≡ 1)
    × (read_bits (code ∷ []) 4 3 ≡ id)
    × (test_bit code 0 ≡ false)

FormatBits-128 : FormatBits 0x8C 6
unfolding read_bits bit_at test_bit
FormatBits-128 = (refl, refl, refl, refl)

FormatBits-256 : FormatBits 0x8A 5
unfolding read_bits bit_at test_bit
FormatBits-256 = (refl, refl, refl, refl)

FormatBits-512 : FormatBits 0x88 4
unfolding read_bits bit_at test_bit
FormatBits-512 = (refl, refl, refl, refl)

freq_list-128 :
    (o : List ℕ)
    → read_bits o 0 2 ≡ 2
    → read_bits o 4 1 ≡ 1
    → read_bits o 4 3 ≡ 6
    → read_freq_list o ≡ some (read_range o 7 28)
unfolding read_freq_list
freq_list-128 o e f g = rw (e, f, g) refl

freq_list-256 :
    (o : List ℕ)
    → read_bits o 0 2 ≡ 2
    → read_bits o 4 1 ≡ 1
    → read_bits o 4 3 ≡ 5
    → read_freq_list o ≡ some (read_range o 8 21)
unfolding read_freq_list
freq_list-256 o e f g = rw (e, f, g) refl

freq_list-512 :
    (o : List ℕ)
    → read_bits o 0 2 ≡ 2
    → read_bits o 4 1 ≡ 1
    → read_bits o 4 3 ≡ 4
    → read_freq_list o ≡ some (read_range o 9 17)
unfolding read_freq_list
freq_list-512 o e f g = rw (e, f, g) refl

freq_list-1024 :
    (o : List ℕ)
    → read_bits o 0 2 ≡ 2
    → read_bits o 4 1 ≡ 0
    → read_freq_list o ≡ some (read_range1024 o)
unfolding read_freq_list
freq_list-1024 o e f = rw (e, f) refl

room-128 : 17 + place 7 (shape 28) ≤ 128
unfolding place shape
room-128 = omega arith

room-256 : 17 + place 8 (shape 21) ≤ 128
unfolding place shape
room-256 = omega arith

room-512 : 17 + place 9 (shape 17) ≤ 128
unfolding place shape
room-512 = omega arith

room-1024 : 6 + place 10 (shape 16) ≤ 128
unfolding place shape
room-1024 = omega arith

module _ (a b c : ℕ) (l w : List ℕ) (sixteen : length (chan a b c l) ≡ 16) (f0 : ℕ)
    (small : f0 < 1024) where
  enough : (bits : ℕ) → bits ≤ 128 → bits ≤ 8 * length (chan a b c l)
  enough bits h = omega (arith, sixteen)

  read_range128 :
      IsTree 7 28 w
      → read_freq_list (range_enc_range128 (chan a b c l) f0 w) ≡ some (f0 ∷ read_arfcns 7 f0 w)
  unfolding range_enc_range128
  read_range128 tree =
      let (id, one, format, even) = FormatBits-128 in
      let f = read_format 0x8C f0 a b c l w 7 28 even small (enough _ room-128) tree in
      freq_list-128 _ (f 0 2 (omega arith) ∙ id) (f 4 1 (omega arith) ∙ one)
        (f 4 3 (omega arith) ∙ format)
      ∙ ap some (read_range-octets 0x8C f0 a b c l w 7 28 even small (enough _ room-128) tree)

  read_range256 :
      IsTree 8 21 w
      → read_freq_list (range_enc_range256 (chan a b c l) f0 w) ≡ some (f0 ∷ read_arfcns 8 f0 w)
  unfolding range_enc_range256
  read_range256 tree =
      let (id, one, format, even) = FormatBits-256 in
      let f = read_format 0x8A f0 a b c l w 8 21 even small (enough _ room-256) tree in
      freq_list-256 _ (f 0 2 (omega arith) ∙ id) (f 4 1 (omega arith) ∙ one)
        (f 4 3 (omega arith) ∙ format)
      ∙ ap some (read_range-octets 0x8A f0 a b c l w 8 21 even small (enough _ room-256) tree)

  read_range512 :
      IsTree 9 17 w
      → read_freq_list (range_enc_range512 (chan a b c l) f0 w) ≡ some (f0 ∷ read_arfcns 9 f0 w)
  unfolding range_enc_range512
  read_range512 tree =
      let (id, one, format, even) = FormatBits-512 in
      let f = read_format 0x88 f0 a b c l w 9 17 even small (enough _ room-512) tree in
      freq_list-512 _ (f 0 2 (omega arith) ∙ id) (f 4 1 (omega arith) ∙ one)
        (f 4 3 (omega arith) ∙ format)
      ∙ ap some (read_range-octets 0x88 f0 a b c l w 9 17 even small (enough _ room-512) tree)

  pub encode_format-read :
      (fm : RangeFormat) (f0_included : Bool)
      → IsTree (depth fm) (most fm) w
      → (o : List ℕ) × (encode_format (full (depth fm)) (chan a b c l) f0 f0_included w ≡ some o)
        × (read_freq_list o ≡ some (f0 ∷ read_arfcns (depth fm) f0 w))
  unfolding encode_format full
  encode_format-read range128 f0_included tree = (_, refl, read_range128 tree)
  encode_format-read range256 f0_included tree = (_, refl, read_range256 tree)
  encode_format-read range512 f0_included tree = (_, refl, read_range512 tree)

-- The first octet of the format 1024 range.
abbrev first_octet : Bool → ℕ
first_octet f0_included = bit_or 0x80 ((if f0_included then 1 else 0) <<< 2)

included_bits :
    (f0_included : Bool)
    → (read_bits (first_octet f0_included ∷ []) 0 2 ≡ 2)
      × (read_bits (first_octet f0_included ∷ []) 4 1 ≡ 0)
      × (read_bits (first_octet f0_included ∷ []) 5 1 ≡ (if f0_included then 1 else 0))
unfolding read_bits bit_at test_bit
included_bits true = (refl, refl, refl)
included_bits false = (refl, refl, refl)

bit_at-first : (x p : ℕ) (l : List ℕ) → p < 8 → bit_at (x ∷ l) p ≡ bit_at (x ∷ []) p
unfolding bit_at
bit_at-first x p l h = let e : p / 8 ≡ 0 = omega arith in rw e refl

module _ (a : ℕ) (l w : List ℕ) (sixteen : length (a ∷ l) ≡ 16) (tree : IsTree 10 16 w)
    (f0_included : Bool) where
  abbrev octets : List ℕ
  octets = write_all_wn (first_octet f0_included ∷ l) 0 6 w 16 10

  written :
      (s' : Writer) × (octets ≡ s'.chan_list)
      × Entries w 10 16 0 6
          (record { chan_list = first_octet f0_included ∷ l; octet_offs = 0; bit_offs = 6 })
          s'
  written =
      write_all_wn-Entries (first_octet f0_included ∷ l) 0 6 w 16 10 (omega arith)
        (omega (arith, room-1024, sixteen))

  read_head :
      (p n : ℕ) → p + n ≤ 6 → read_bits octets p n ≡ read_bits (first_octet f0_included ∷ []) p n
  read_head p n h =
      let (s', e, entries) = written in
      read_bits-ext octets (first_octet f0_included ∷ []) p n (λ q m.
        ap (λ o. bit_at o q) e
        ∙ entries.before q (omega arith)
        ∙ bit_at-first (first_octet f0_included) q l (omega arith))

  others : read_arfcns 10 0 (read_entries octets 6 10 0 16) ≡ read_arfcns 10 0 w
  others =
      let (s', e, entries) = written in
      ap (λ o. read_arfcns 10 0 (read_entries o 6 10 0 16)) e
      ∙ read_arfcns-written w 10 16 6 _ s' entries tree 0

  read_included :
      read_range1024 octets ≡ (if f0_included then 0 ∷ read_arfcns 10 0 w else read_arfcns 10 0 w)
  unfolding read_range1024
  read_included =
      let (id, zero_bit, included) = included_bits f0_included in
      rw (others, read_head 5 1 (omega arith), included) (by_flag f0_included)
    where
      by_flag :
          (f : Bool)
          → (if (if f then 1 else 0) == 1 then 0 ∷ read_arfcns 10 0 w else read_arfcns 10 0 w)
            ≡ (if f then 0 ∷ read_arfcns 10 0 w else read_arfcns 10 0 w)
      by_flag true = refl
      by_flag false = refl

  pub encode_format-1024 :
      (f0 : ℕ)
      → (o : List ℕ) × (encode_format 1023 (a ∷ l) f0 f0_included w ≡ some o)
        × (read_freq_list o
            ≡ some (if f0_included then 0 ∷ read_arfcns 10 0 w else read_arfcns 10 0 w))
  unfolding encode_format range_enc_range1024
  encode_format-1024 f0 =
      let (id, zero_bit, included) = included_bits f0_included in
      (
        octets,
        refl,
        freq_list-1024 octets (read_head 0 2 (omega arith) ∙ id)
              (read_head 4 1 (omega arith) ∙ zero_bit)
            ∙ ap some read_included,
      )
