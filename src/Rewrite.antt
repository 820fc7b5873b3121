-- ===== src/Rewrite.antt =====
-- openbsc/src/osmo-bsc_nat/bsc_nat_rewrite_trie.c: the rewrite rules of the NAT for called numbers,
-- in a trie over the eleven symbols of a number.
--
-- A string is the list of its character codes, and a file is the list of its lines. An array of
-- pointers to nodes is a function, `absent` is NULL. A failed allocation is not modelled.
pub mod Lookup
pub mod Install
pub mod Parse
mod Tests
use openbsc.Base.{
  ℕ, zero, suc, ◌+◌, ◌-◌, ◌%◌, ◌≡◌, Bool, true, false, not, ◌&&◌, ◌||◌, Option, none, some, List,
  [], ◌∷◌, ◌++◌, length, take, if◌then◌else◌, ltb, leb, ◌==◌,
}

-- The prefix and the rewrite of a rule.
pub record Rule : Type 0 where
  pub prefix : List ℕ
  pub rewrite : List ℕ

-- `struct nat_rewrite_rule`: an `empty` node has no rule of its own.
pub data Node : Type 0 where
  absent : Node
  node : Option Rule → (ℕ → Node) → Node

pub record NatRewrite : Type 0 where
  pub rule : Node
  pub prefixes : ℕ

-- `isdigit(c) || c == '+'`, and `TO_INT`.
abbrev pub is_valid : ℕ → Bool
is_valid c = (leb 48 c && leb c 57) || (c == 43)

abbrev pub to_int : ℕ → ℕ
to_int c = if c == 43 then 10 else (c - 48) % 10

abbrev pub no_rules : ℕ → Node
no_rules k = absent

abbrev pub empty_node : Node
empty_node = node none no_rules

abbrev pub rules_of : Node → ℕ → Node
rules_of absent = no_rules
rules_of (node r rules) = rules

abbrev pub rule_of : Node → Option Rule
rule_of absent = none
rule_of (node r rules) = r

abbrev pub set_rules : Node → ℕ → Node → Node
set_rules n pos child = node (rule_of n) (λ k. if k == pos then child else rules_of n k)

-- The node that the loop goes on with: a missing one is allocated.
abbrev pub or_empty : Node → Node
or_empty absent = empty_node
or_empty (node r rules) = node r rules

-- The place where the rule is added: it is taken as a node, or it fills an empty one.
unfoldable pub place_rule : Rule → Node → Node × Bool
place_rule r absent = (node (some r) no_rules, true)
place_rule r (node none rules) = (node (some r) rules, true)
place_rule r (node (some q) rules) = (node (some q) rules, false)

-- The walk along the rest of the prefix, which is not empty; nodes that were allocated before a
-- failure stay. The flag tells whether the rule was added.
unfoldable pub insert_at : Rule → ℕ → List ℕ → Node → Node × Bool
unfolding place_rule
insert_at r c [] n =
    let (child, ok) = place_rule r (rules_of n (to_int c)) in
    if is_valid c then (set_rules n (to_int c) child, ok) else (n, false)
insert_at r c (d ∷ ds) n =
    let (child, ok) = insert_at r d ds (or_empty (rules_of n (to_int c))) in
    if is_valid c then (set_rules n (to_int c) child, ok) else (n, false)

unfoldable pub insert_prefix : Rule → List ℕ → Node → Node × Bool
unfolding insert_at
insert_prefix r [] n = (n, false)
insert_prefix r (c ∷ cs) n = insert_at r c cs n

unfoldable pub insert_rewrite_node : Rule → NatRewrite → NatRewrite
unfolding insert_prefix
insert_rewrite_node r root =
    let (n, ok) = insert_prefix r r.prefix root.rule in
    record { rule = n; prefixes = if ok then root.prefixes + 1 else root.prefixes }

-- `if (rule && !rule->empty) last = rule`.
abbrev pub or_last : Option Rule → Option Rule → Option Rule
or_last none last = last
or_last (some r) last = some r

-- The loop of `nat_rewrite_lookup`, with the rule that it would return; a character that is no part
-- of a number fails the whole search.
unfoldable pub lookup_from : Option Rule → Node → List ℕ → Option Rule
lookup_from last absent cs = last
lookup_from last (node r rules) [] = last
lookup_from last (node r rules) (c ∷ cs) =
    let next = rules (to_int c) in
    let rest = lookup_from (or_last (rule_of next) last) next cs in
    if is_valid c then rest else none

unfoldable pub nat_rewrite_lookup : NatRewrite → List ℕ → Option Rule
unfolding lookup_from
nat_rewrite_lookup rewrite number = lookup_from none rewrite.rule (take 13 number)

-- `strstr(line, ",")`: what stands before the first comma and what stands behind it.
unfoldable pub split_comma : List ℕ → Option (List ℕ × List ℕ)
split_comma [] = none
split_comma (c ∷ cs) =
    let rest = split_comma cs in
    if c == 44 then some ([], cs) else elim rest [ none ↦ none | some (a, b) ↦ some (c ∷ a, b) ]

-- `handle_line` up to the insertion: the rule of the line. Its last character is left out.
unfoldable pub parse_line : List ℕ → Option Rule
unfolding split_comma
parse_line line = elim (split_comma line) [
  | none ↦ none
  | some (a, b) ↦
      if leb (length line - length a) 2
      then none
      else if ltb 13 (length a)
      then none
      else if ltb 5 (length b - 1)
      then none
      else some (record { prefix = a; rewrite = take (length b - 1) b })
]

unfoldable pub handle_line : NatRewrite → List ℕ → NatRewrite
unfolding parse_line insert_rewrite_node
handle_line rewrite line = elim (parse_line line) [
  | none ↦ rewrite
  | some r ↦ insert_rewrite_node r rewrite
]

handle_lines : NatRewrite → List (List ℕ) → NatRewrite
handle_lines rewrite [] = rewrite
handle_lines rewrite (l ∷ ls) = handle_lines (handle_line rewrite l) ls

abbrev pub no_rewrite : NatRewrite
no_rewrite = record { rule = empty_node; prefixes = 0 }

-- `nat_rewrite_parse` of a file that can be opened.
unfoldable pub nat_rewrite_parse : List (List ℕ) → NatRewrite
unfolding handle_lines
nat_rewrite_parse file = handle_lines no_rewrite file
