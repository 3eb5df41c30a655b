-- ===== src/Limiter/Rules.antt =====
-- veil/rule.go: the rules that the panel sends. Go's regexp package enters by `compile`, which is
-- `none` where regexp.MustCompile panics, and by `match_string`.
use v2b_x_liusu.Prelude.{
  ◌≡◌, String, Bool, true, false, ◌||◌, List, [], ◌∷◌, Option, none, some, arith, if◌then◌else◌,
}
use v2b_x_liusu.Prelude.Eq.{◌==◌, string_eq}
use v2b_x_liusu.Panel.Types.{Rules}
use v2b_x_liusu.Limiter.{Limiter}

-- The loop with `break` of CheckDomainRule.
unfoldable pub matches_any : {R : Type 0} → (R → String → Bool) → List R → String → Bool
matches_any match_string [] destination = false
matches_any match_string (r ∷ rules) destination =
    let rest = matches_any match_string rules destination in
    if match_string r destination then true else rest

unfoldable pub is_listed : List String → String → Bool
is_listed [] protocol = false
is_listed (p ∷ ps) protocol =
    let rest = is_listed ps protocol in if p == protocol then true else rest

-- The regular expressions, or `none` if one does not compile.
unfoldable pub compile_all : {R : Type 0} → (String → Option R) → List String → Option (List R)
compile_all compile [] = some []
compile_all compile (p ∷ ps) = elim (compile p) [
  | none ↦ none
  | some r ↦ elim (compile_all compile ps) [ none ↦ none | some rs ↦ some (r ∷ rs) ]
]

module _ {B R : Type 0} where
  -- CheckDomainRule(destination)
  unfoldable pub check_domain_rule : (R → String → Bool) → Limiter B R → String → Bool
  unfolding matches_any
  check_domain_rule match_string l destination = matches_any match_string l.domain_rules destination

  -- CheckProtocolRule(protocol)
  unfoldable pub check_protocol_rule : Limiter B R → String → Bool
  unfolding is_listed
  check_protocol_rule l protocol = is_listed l.protocol_rules protocol

  -- UpdateRule(rule); `none` is the panic of regexp.MustCompile. The source's error is always nil.
  unfoldable pub update_rule : (String → Option R) → Rules → Limiter B R → Option (Limiter B R)
  unfolding compile_all
  update_rule compile rule l = elim (compile_all compile rule.regexp) [
    | none ↦ none
    | some rs ↦ some (record l { domain_rules = rs; protocol_rules = rule.protocol })
  ]

-- One of the texts of `ps` is a regular expression that matches `destination`.
abbrev pub some_match :
    {R : Type 0} → (String → Option R) → (R → String → Bool) → List String → String → Bool
some_match compile match_string [] destination = false
some_match compile match_string (p ∷ ps) destination =
    (elim (compile p) [ none ↦ false | some r ↦ match_string r destination ])
    || some_match compile match_string ps destination

matches_compiled :
    {R : Type 0} (compile : String → Option R) (match_string : R → String → Bool) (ps : List String)
    (rs : List R) (destination : String)
    → compile_all compile ps ≡ some rs
    → matches_any match_string rs destination ≡ some_match compile match_string ps destination
unfolding matches_any compile_all
matches_compiled compile match_string [] rs destination h = ground arith
matches_compiled compile match_string (p ∷ ps) [] destination h = ground arith
matches_compiled compile match_string (p ∷ ps) (r ∷ rs) destination h =
    ground (arith, matches_compiled compile match_string ps rs destination)

-- After UpdateRule a destination is rejected exactly if one of the panel's expressions matches it,
-- and a protocol exactly if it is one of the panel's; earlier rules no longer count.
pub update_rule_rejects :
    {B R : Type 0} (compile : String → Option R) (match_string : R → String → Bool) (rule : Rules)
    (l l' : Limiter B R) (text : String)
    → update_rule compile rule l ≡ some l'
    → (check_domain_rule match_string l' text ≡ some_match compile match_string rule.regexp text)
      × (check_protocol_rule l' text ≡ is_listed rule.protocol text)
unfolding update_rule check_domain_rule check_protocol_rule
update_rule_rejects compile match_string rule l l' text h =
    ground (arith, matches_compiled compile match_string rule.regexp l'.domain_rules text)
