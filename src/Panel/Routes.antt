-- ===== src/Panel/Routes.antt =====
-- mirror/panel/node.go, GetNodeInfo: the routes of a node become its rules and its name servers.
use v2b_x_liusu.Prelude.{
  ◌≡◌, refl, ℕ, ◌+◌, String, List, [], ◌∷◌, ◌++◌, Option, none, some, if◌then◌else◌,
}
use Prim.Native.Char.{code, Char}
use Prim.Native.String.{◌++◌ as str_append}
use v2b_x_liusu.Prelude.Int.{pos}
use v2b_x_liusu.Prelude.Eq.{◌==◌, nat_eq, string_eq}
use v2b_x_liusu.Dict.{insert}
use v2b_x_liusu.Text.{cut_prefix, trim_prefix}
use v2b_x_liusu.Text.Decimal.{itoa}
use v2b_x_liusu.Panel.Types.{Rules, RawDns}

-- A `match` as JSON decodes it: a text, a list, or something else. An element that is no text is
-- `none`.
pub data Match : Type 0 where
  text : String → Match
  values : List (Option String) → Match
  other : Match

pub record Route : Type 0 where
  pub matches : Match
  pub action : String
  pub action_value : String

abbrev pub push_char : Char → List String → List String
push_char c [] = String.◌∷◌ c String.[] ∷ []
push_char c (part ∷ parts) = String.◌∷◌ c part ∷ parts

-- strings.Split(s, ",")
unfoldable pub split_comma : String → List String
split_comma String.[] = "" ∷ []
split_comma (String.◌∷◌ c s) =
    let rest = split_comma s in if code c == 44 then "" ∷ rest else push_char c rest

-- strings.Join(parts, "")
unfoldable pub concat : List String → String
concat [] = ""
concat (s ∷ parts) = str_append s (concat parts)

-- The type assertions on the elements of a list; one that fails panics.
unfoldable pub all_texts : List (Option String) → Option (List String)
all_texts [] = some []
all_texts (none ∷ vs) = none
all_texts (some s ∷ vs) = elim (all_texts vs) [ none ↦ none | some ss ↦ some (s ∷ ss) ]

-- The texts of a route; `none` is a panic.
unfoldable pub route_texts : Match → Option (List String)
unfolding split_comma all_texts
route_texts (text s) = some (split_comma s)
route_texts (values vs) = all_texts vs
route_texts other = none

-- The loop of the action "block".
unfoldable pub block : List String → Rules → Rules
block [] rules = rules
block (v ∷ vs) rules = elim (cut_prefix v "protocol:") [
  | some protocol ↦ block vs (record rules { protocol = rules.protocol ++ protocol ∷ [] })
  | none ↦ block vs (record rules { regexp = rules.regexp ++ trim_prefix v "regexp:" ∷ [] })
]

-- The action "dns" of route `i`; the first text must be there.
unfoldable pub use_dns : ℕ → String → List String → RawDns → Option RawDns
unfolding concat
use_dns i address [] dns = none
use_dns i address (first ∷ more) dns = some (
    if first == "main"
    then record dns { dns_json = concat more }
    else record dns { dns_map = insert (itoa (pos i)) (address, first ∷ more) dns.dns_map })

-- One route; `none` is a panic.
unfoldable pub use_route : ℕ → Route → Rules × RawDns → Option (Rules × RawDns)
unfolding route_texts block use_dns
use_route i route (rules, dns) = elim (route_texts route.matches) [
  | none ↦ none
  | some texts ↦
      if route.action == "block"
      then some (block texts rules, dns)
      else if route.action == "dns"
      then (elim (use_dns i route.action_value texts dns) [
        | none ↦ none
        | some dns' ↦ some (rules, dns')
      ])
      else some (rules, dns)
]

-- The loop over cm.Routes
unfoldable pub use_routes : ℕ → List Route → Rules × RawDns → Option (Rules × RawDns)
unfolding use_route
use_routes i [] parsed = some parsed
use_routes i (route ∷ routes) parsed = elim (use_route i route parsed) [
  | none ↦ none
  | some parsed' ↦ use_routes (i + 1) routes parsed'
]

splits : split_comma "a,protocol:b," ≡ "a" ∷ "protocol:b" ∷ "" ∷ []
unfolding split_comma
splits = refl
