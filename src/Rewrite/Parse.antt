-- ===== src/Rewrite/Parse.antt =====
-- openbsc/src/osmo-bsc_nat/bsc_nat_rewrite_trie.c: a file of rules and the search in what was read.
use mathlib.Core.Path.{fun_ext}
use openbsc.Base.{
  ℕ, ◌-◌, ◌≤◌, ◌≡◌, ◌≢◌, ◌∙◌, refl, sym, ap, Bool, true, false, not, ◌&&◌, Option, none, some, List,
  [], ◌∷◌, ◌++◌, All, length, length-append, take, if◌then◌else◌, arith,
}
use openbsc.Rewrite.{
  Rule, NatRewrite, empty_node, insert_rewrite_node, nat_rewrite_lookup, split_comma, parse_line,
  handle_line, handle_lines, no_rewrite, nat_rewrite_parse,
}
use openbsc.Rewrite.Lookup.{
  get, path, all_valid, longest, or_first, lookup_from-longest, get-absent,
}
use openbsc.Rewrite.Install.{is_none, is_empty, same, installs, insert_rewrite_node-update}

-- The reference for a file: for a path the first line that has a rule for it; a rule counts when its
-- prefix is a number.
unfoldable pub first_rule : List (List ℕ) → List ℕ → Option Rule
first_rule [] q = none
first_rule (l ∷ ls) q =
    let rest = first_rule ls q in
    elim (parse_line l) [
      | none ↦ rest
      | some r ↦
          if not (is_empty r.prefix) && all_valid r.prefix && same q (path r.prefix)
          then some r
          else rest
    ]

same_eq : (p q : List ℕ) → same p q ≡ true → p ≡ q
unfolding same
same_eq [] [] h = refl
same_eq [] (y ∷ q) h = cc
same_eq (x ∷ p) [] h = cc
same_eq (x ∷ p) (y ∷ q) h =
    let e : x ≡ y = ground arith in let r : p ≡ q = same_eq p q (ground arith) in cc

-- A rule that is added and then a later one, or an earlier one and then the rule.
merge :
    (c s : Bool) (g at : Option Rule) (r : Rule) (rest : Option Rule)
    → (s ≡ true → at ≡ g)
    → or_first (if (c && is_none at) && s then some r else g) rest
      ≡ or_first g (if c && s then some r else rest)
unfolding or_first
merge false s g at r rest h = refl
merge true false g none r rest h = refl
merge true false g (some x) r rest h = refl
merge true true none at r rest h = rw (h refl) refl
merge true true (some y) at r rest h = rw (h refl) refl

first_of : Option Rule → List ℕ → Option Rule → Option Rule
first_of none q rest = rest
first_of (some r) q rest =
    if (not (is_empty r.prefix) && all_valid r.prefix) && same q (path r.prefix)
    then some r
    else rest

handle_rule : NatRewrite → Option Rule → NatRewrite
handle_rule root none = root
handle_rule root (some r) = insert_rewrite_node r root

get-handle_rule :
    (o : Option Rule) (root : NatRewrite) (q : List ℕ) (rest : Option Rule)
    → or_first (get (handle_rule root o).rule q) rest
      ≡ or_first (get root.rule q) (first_of o q rest)
unfolding handle_rule first_of installs
get-handle_rule none root q rest = refl
get-handle_rule (some r) root q rest =
    ap (λ g. or_first g rest) (insert_rewrite_node-update r root q).0
    ∙ merge (not (is_empty r.prefix) && all_valid r.prefix) (same q (path r.prefix))
        (get root.rule q) (get root.rule (path r.prefix)) r rest
        (λ h. ap (get root.rule) (sym (same_eq q (path r.prefix) h)))

handle_line_rule :
    (l : List ℕ) (root : NatRewrite) → handle_line root l ≡ handle_rule root (parse_line l)
unfolding handle_line handle_rule
handle_line_rule l root = ground arith

first_rule_line :
    (l : List ℕ) (ls : List (List ℕ)) (q : List ℕ)
    → first_rule (l ∷ ls) q ≡ first_of (parse_line l) q (first_rule ls q)
unfolding first_rule first_of
first_rule_line l ls q = ground arith

or_first-none : (o : Option Rule) → or_first o none ≡ o
unfolding or_first
or_first-none none = refl
or_first-none (some r) = refl

get-handle_lines :
    (ls : List (List ℕ)) (root : NatRewrite) (q : List ℕ)
    → get (handle_lines root ls).rule q ≡ or_first (get root.rule q) (first_rule ls q)
unfolding handle_lines or_first
get-handle_lines [] root q = unfold first_rule in sym (or_first-none (get root.rule q))
get-handle_lines (l ∷ ls) root q =
    get-handle_lines ls (handle_line root l) q
    ∙ ap (λ (n : NatRewrite). or_first (get n.rule q) (first_rule ls q)) (handle_line_rule l root)
    ∙ get-handle_rule (parse_line l) root q (first_rule ls q)
    ∙ ap (or_first (get root.rule q)) (sym (first_rule_line l ls q))

get-empty : (q : List ℕ) → get empty_node q ≡ none
unfolding get
get-empty [] = refl
get-empty (k ∷ q) = get-absent q

longest_same :
    (f g : List ℕ → Option Rule) (ks : List ℕ)
    → ((q : List ℕ) → f q ≡ g q)
    → longest f ks ≡ longest g ks
longest_same f g ks h = ap (λ (k : List ℕ → Option Rule). longest k ks) (fun_ext h)

-- The search in the trie that was read from a file returns, for a number whose first 13 characters
-- are digits or `+`, the rule with the longest prefix among the lines of the file, and of two lines
-- for the same prefix the first.
pub nat_rewrite_parse-lookup :
    (file : List (List ℕ)) (number : List ℕ)
    → all_valid (take 13 number) ≡ true
    → nat_rewrite_lookup (nat_rewrite_parse file) number
      ≡ longest (first_rule file) (path (take 13 number))
unfolding nat_rewrite_lookup nat_rewrite_parse
nat_rewrite_parse-lookup file number v =
    lookup_from-longest none (handle_lines no_rewrite file).rule (take 13 number) v
    ∙ or_first-none (longest (get (handle_lines no_rewrite file).rule) (path (take 13 number)))
    ∙ longest_same (get (handle_lines no_rewrite file).rule) (first_rule file)
        (path (take 13 number))
        (λ q.
          get-handle_lines file no_rewrite q
          ∙ ap (λ o. or_first o (first_rule file q)) (get-empty q)
          ∙ unfold or_first in refl)

split_comma-print : (a b : List ℕ) → All (λ c. c ≢ 44) a → split_comma (a ++ (44 ∷ b)) ≡ some (a, b)
unfolding split_comma
split_comma-print [] b h = refl
split_comma-print (c ∷ a) b h = ground (arith, h.0, split_comma-print a b h.1)

take-length : (b c : List ℕ) → take (length b) (b ++ c) ≡ b
take-length [] c = refl
take-length (y ∷ b) c = ap (λ l. y ∷ l) (take-length b c)

take_line : (b : List ℕ) (x : ℕ) → take (length (b ++ (x ∷ [])) - 1) (b ++ (x ∷ [])) ≡ b
take_line b x =
    let e : length (b ++ (x ∷ [])) - 1 ≡ length b = omega (arith, length-append b (x ∷ [])) in
    ap (λ n. take n (b ++ (x ∷ []))) e ∙ take-length b (x ∷ [])

-- A printed rule, with a prefix of at most 13 characters and no comma, and a rewrite of one to
-- five, is read back from its line.
pub parse_line-print :
    (r : Rule) (newline : ℕ)
    → All (λ c. c ≢ 44) r.prefix
    → length r.prefix ≤ 13
    → 1 ≤ length r.rewrite
    → length r.rewrite ≤ 5
    → parse_line (r.prefix ++ (44 ∷ (r.rewrite ++ (newline ∷ [])))) ≡ some r
unfolding parse_line
parse_line-print r newline h p l u =
    let b = r.rewrite ++ (newline ∷ []) in
    rw (split_comma-print r.prefix b h, parse_line)
      (ground (
        arith,
        length-append r.prefix (44 ∷ b),
        length-append r.rewrite (newline ∷ []),
        take_line r.rewrite newline,
      ))
