-- ===== src/Rewrite/Lookup.antt =====
-- openbsc/src/osmo-bsc_nat/bsc_nat_rewrite_trie.c: the search, against the map from paths to rules.
use openbsc.Base.{ℕ, ◌≡◌, ◌∙◌, refl, Bool, true, ◌&&◌, Option, none, some, List, [], ◌∷◌, arith}
use openbsc.Rewrite.{
  Rule, Node, absent, node, is_valid, to_int, rules_of, rule_of, or_last, lookup_from,
}

-- The rule that stands at the end of a path.
unfoldable pub get : Node → List ℕ → Option Rule
get n [] = rule_of n
get n (k ∷ ks) = get (rules_of n k) ks

unfoldable pub path : List ℕ → List ℕ
path [] = []
path (c ∷ cs) = to_int c ∷ path cs

unfoldable pub all_valid : List ℕ → Bool
all_valid [] = true
all_valid (c ∷ cs) = is_valid c && all_valid cs

unfoldable pub or_first : Option Rule → Option Rule → Option Rule
or_first (some r) o = some r
or_first none o = o

-- The reference: of the prefixes of a path that have a rule, but the empty one, the longest.
unfoldable pub longest : (List ℕ → Option Rule) → List ℕ → Option Rule
unfolding or_first
longest f [] = none
longest f (k ∷ ks) = or_first (longest (λ p. f (k ∷ p)) ks) (f (k ∷ []))

longest_nothing :
    (f : List ℕ → Option Rule) (ks : List ℕ) → ((p : List ℕ) → f p ≡ none) → longest f ks ≡ none
unfolding longest
longest_nothing f [] h = refl
longest_nothing f (k ∷ ks) h =
    rw (longest_nothing (λ p. f (k ∷ p)) ks (λ p. h (k ∷ p)), longest) (h (k ∷ []))

-- The last rule on the way is the first choice.
or_last-or_first :
    (x a last : Option Rule) → or_first x (or_last a last) ≡ or_first (or_first x a) last
unfolding or_first
or_last-or_first (some r) a last = refl
or_last-or_first none none last = refl
or_last-or_first none (some r) last = refl

pub get-absent : (p : List ℕ) → get absent p ≡ none
unfolding get
get-absent [] = refl
get-absent (k ∷ ks) = get-absent ks

pub lookup_from-longest :
    (last : Option Rule) (n : Node) (cs : List ℕ)
    → all_valid cs ≡ true
    → lookup_from last n cs ≡ or_first (longest (get n) (path cs)) last
unfolding lookup_from longest path all_valid get or_first
lookup_from-longest last absent cs v = rw (longest_nothing (get absent) (path cs) get-absent) refl
lookup_from-longest last (node r rules) [] v = refl
lookup_from-longest last (node r rules) (c ∷ cs) v =
    let here : is_valid c ≡ true = ground (arith, v) in
    let rest : all_valid cs ≡ true = ground (arith, v) in
    let next = rules (to_int c) in
    rw here (
      lookup_from-longest (or_last (rule_of next) last) next cs rest
      ∙ or_last-or_first (longest (get next) (path cs)) (rule_of next) last)
