-- ===== src/Rewrite/Install.antt =====
-- openbsc/src/osmo-bsc_nat/bsc_nat_rewrite_trie.c: the insertion of a rule, as an update of the map
-- from paths to rules.
use openbsc.Base.{
  ℕ, ◌+◌, ◌≡◌, ◌∙◌, refl, sym, ap, inl, inr, Bool, true, false, not, ◌&&◌, Option, none, some, List,
  [], ◌∷◌, if◌then◌else◌, ◌==◌, ==→eq, arith, Bool-cases,
}
use openbsc.Rewrite.{
  Rule, Node, absent, node, NatRewrite, is_valid, to_int, rules_of, set_rules, or_empty, place_rule,
  insert_at, insert_prefix, insert_rewrite_node,
}
use openbsc.Rewrite.Lookup.{get, path, all_valid}

abbrev pub is_none : Option Rule → Bool
is_none none = true
is_none (some r) = false

unfoldable pub same : List ℕ → List ℕ → Bool
same [] [] = true
same [] (y ∷ ys) = false
same (x ∷ xs) [] = false
same (x ∷ xs) (y ∷ ys) = (x == y) && same xs ys

abbrev pub is_empty : List ℕ → Bool
is_empty [] = true
is_empty (c ∷ cs) = false

-- A rule is installed when its prefix is a number and has no rule yet.
unfoldable pub installs : List ℕ → (List ℕ → Option Rule) → Bool
installs cs f = not (is_empty cs) && all_valid cs && is_none (f (path cs))

-- The map from paths to rules, changed at one path.
abbrev pub update : (List ℕ → Option Rule) → Bool → List ℕ → Rule → List ℕ → Option Rule
update f ok p r q = if ok && same q p then some r else f q

get-or_empty : (m : Node) (q : List ℕ) → get (or_empty m) q ≡ get m q
unfolding get
get-or_empty absent [] = refl
get-or_empty absent (k ∷ ks) = refl
get-or_empty (node r rules) q = refl

get-place_rule :
    (r : Rule) (m : Node) (q : List ℕ)
    → get (place_rule r m).0 q ≡ update (get m) (is_none (get m [])) [] r q
unfolding get place_rule same
get-place_rule r absent [] = refl
get-place_rule r absent (k ∷ ks) = refl
get-place_rule r (node none rules) [] = refl
get-place_rule r (node none rules) (k ∷ ks) = refl
get-place_rule r (node (some x) rules) q = refl

place_rule_ok : (r : Rule) (m : Node) → (place_rule r m).1 ≡ is_none (get m [])
unfolding place_rule get
place_rule_ok r absent = refl
place_rule_ok r (node none rules) = refl
place_rule_ok r (node (some x) rules) = refl

-- A child that was changed at a path is the node changed at the longer path.
get-set_rules :
    (n child : Node) (ok : Bool) (pos : ℕ) (p : List ℕ) (r : Rule)
    → ((q : List ℕ) → get child q ≡ update (get (rules_of n pos)) ok p r q)
    → (q : List ℕ) → get (set_rules n pos child) q ≡ update (get n) ok (pos ∷ p) r q
unfolding get same
get-set_rules n child ok pos p r h [] = ground arith
get-set_rules n child ok pos p r h (k ∷ ks) = elim (Bool-cases (k == pos)) [
  | inl e ↦
      let same_child : rules_of n pos ≡ rules_of n k = ap (rules_of n) (sym (==→eq k pos e)) in
      rw e (h ks ∙ ap (λ m. update (get m) ok p r ks) same_child)
  | inr e ↦ ground (arith, e)
]

insert_at_ok :
    (r : Rule) (c : ℕ) (cs : List ℕ) (n : Node)
    → (insert_at r c cs n).1 ≡ (all_valid (c ∷ cs) && is_none (get n (path (c ∷ cs))))
unfolding insert_at all_valid path get
insert_at_ok r c [] n = ground (arith, place_rule_ok r (rules_of n (to_int c)))
insert_at_ok r c (d ∷ ds) n = ground (
  arith,
  insert_at_ok r d ds (or_empty (rules_of n (to_int c))),
  get-or_empty (rules_of n (to_int c)) (path (d ∷ ds)),
)

-- One round of the walk, whatever the check of the character says.
get-round :
    (v ok : Bool) (n child : Node) (pos : ℕ) (p : List ℕ) (r : Rule)
    → ((q : List ℕ) → get child q ≡ update (get (rules_of n pos)) ok p r q)
    → (q : List ℕ)
    → let x : Node × Bool = if v then (set_rules n pos child, ok) else (n, false) in
      get x.0 q ≡ update (get n) x.1 (pos ∷ p) r q
get-round true ok n child pos p r h q = get-set_rules n child ok pos p r h q
get-round false ok n child pos p r h q = refl

get-insert_at :
    (r : Rule) (c : ℕ) (cs : List ℕ) (n : Node) (q : List ℕ)
    → get (insert_at r c cs n).0 q ≡ update (get n) (insert_at r c cs n).1 (path (c ∷ cs)) r q
unfolding insert_at path
get-insert_at r c [] n q =
    let m = rules_of n (to_int c) in
    get-round (is_valid c) (place_rule r m).1 n (place_rule r m).0 (to_int c) [] r
      (λ p. get-place_rule r m p ∙ ap (λ b. update (get m) b [] r p) (sym (place_rule_ok r m))) q
get-insert_at r c (d ∷ ds) n q =
    let m = rules_of n (to_int c) in
    let x = insert_at r d ds (or_empty m) in
    get-round (is_valid c) x.1 n x.0 (to_int c) (path (d ∷ ds)) r
      (λ p.
        get-insert_at r d ds (or_empty m) p
        ∙ ap (λ o. if x.1 && same p (path (d ∷ ds)) then some r else o) (get-or_empty m p))
      q

inserted :
    (r : Rule) (cs : List ℕ) (root : NatRewrite) (q : List ℕ)
    → (get (insert_prefix r cs root.rule).0 q
        ≡ update (get root.rule) (installs cs (get root.rule)) (path cs) r q)
      × ((if (insert_prefix r cs root.rule).1 then root.prefixes + 1 else root.prefixes)
          ≡ (if installs cs (get root.rule) then root.prefixes + 1 else root.prefixes))
unfolding insert_prefix installs
inserted r [] root q = (refl, refl)
inserted r (c ∷ cs) root q =
    let ok = insert_at_ok r c cs root.rule in
    (
      get-insert_at r c cs root.rule q ∙ ap (λ b. update (get root.rule) b (path (c ∷ cs)) r q) ok,
      ap (λ b. if b then root.prefixes + 1 else root.prefixes) ok,
    )

-- Inserting a rule adds it to the map from paths to rules exactly when its prefix is a number that
-- has no rule yet, and then the count of rules goes up by one; otherwise map and count stay.
pub insert_rewrite_node-update :
    (r : Rule) (root : NatRewrite) (q : List ℕ)
    → (get (insert_rewrite_node r root).rule q
        ≡ update (get root.rule) (installs r.prefix (get root.rule)) (path r.prefix) r q)
      × ((insert_rewrite_node r root).prefixes
          ≡ (if installs r.prefix (get root.rule) then root.prefixes + 1 else root.prefixes))
unfolding insert_rewrite_node
insert_rewrite_node-update r root q = inserted r r.prefix root q
