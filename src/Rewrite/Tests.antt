-- ===== src/Rewrite/Tests.antt =====
-- A file with three rules, the search in it, and each theorem at an input.
use openbsc.Base.{ℕ, ◌≡◌, refl, some, List, [], ◌∷◌, take, if◌then◌else◌}
use openbsc.Rewrite.{
  Rule, place_rule, insert_at, insert_prefix, insert_rewrite_node, lookup_from, nat_rewrite_lookup,
  split_comma, parse_line, handle_line, no_rewrite, nat_rewrite_parse,
}
use openbsc.Rewrite.Install.{same, installs, update, insert_rewrite_node-update}
use openbsc.Rewrite.Lookup.{get, path, all_valid, longest}
use openbsc.Rewrite.Parse.{first_rule, nat_rewrite_parse-lookup}

program : Unit {0}
unfolding place_rule insert_at insert_prefix insert_rewrite_node lookup_from nat_rewrite_lookup
    split_comma parse_line handle_line nat_rewrite_parse same installs get path all_valid longest
    first_rule
program = tt

-- "+49,1", "+4,22" and "+49,3", each with a newline.
abbrev file : List (List ℕ)
file =
    (43 ∷ 52 ∷ 57 ∷ 44 ∷ 49 ∷ 10 ∷ [])
    ∷ (43 ∷ 52 ∷ 44 ∷ 50 ∷ 50 ∷ 10 ∷ [])
    ∷ (43 ∷ 52 ∷ 57 ∷ 44 ∷ 51 ∷ 10 ∷ [])
    ∷ []

abbrev germany : Rule
germany = record { prefix = 43 ∷ 52 ∷ 57 ∷ []; rewrite = 49 ∷ [] }

-- "+4930"
abbrev number : List ℕ
number = 43 ∷ 52 ∷ 57 ∷ 51 ∷ 48 ∷ []

found : nat_rewrite_lookup (nat_rewrite_parse file) number ≡ some germany
unfolding program
found = refl

counted : (nat_rewrite_parse file).prefixes ≡ 2
unfolding program
counted = refl

nat_rewrite_parse-lookup_example :
    nat_rewrite_lookup (nat_rewrite_parse file) number
    ≡ longest (first_rule file) (path (take 13 number))
unfolding all_valid
nat_rewrite_parse-lookup_example = nat_rewrite_parse-lookup file number refl

insert_rewrite_node-update_example :
    (get (insert_rewrite_node germany no_rewrite).rule (10 ∷ 4 ∷ 9 ∷ [])
      ≡ update
          (get no_rewrite.rule)
          (installs germany.prefix (get no_rewrite.rule))
          (path germany.prefix)
          germany
          (10 ∷ 4 ∷ 9 ∷ []))
    × ((insert_rewrite_node germany no_rewrite).prefixes
        ≡ (if installs germany.prefix (get no_rewrite.rule) then 1 else 0))
insert_rewrite_node-update_example = insert_rewrite_node-update germany no_rewrite (10 ∷ 4 ∷ 9 ∷ [])
