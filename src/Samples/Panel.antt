-- ===== src/Samples/Panel.antt =====
-- mirror/panel and branch/lego.go at concrete replies and environments.
use v2b_x_liusu.Prelude.{◌≡◌, refl, String, none}
use v2b_x_liusu.Prelude.Int.{pos}
use v2b_x_liusu.Prelude.Eq.{string_eq}
use v2b_x_liusu.Panel.Fetch.{Client, answered, Api, fetched, failed, get_node_info}
use v2b_x_liusu.Panel.Fetch.Again.{get_node_info_again}

-- A body is its own hash, and no body can be decoded.
abbrev api : Api String String
api = record {
  request_failed = λ e. e;
  sha256 = λ body. body;
  decode = λ type body. (none, "bad JSON");
}

abbrev client : Client
client = record { node_type = "vless"; node_id = pos 7; node_etag = ""; response_body_hash = "" }

get_node_info_again_example :
    get_node_info api (answered 200 "e2" "{") (get_node_info api (answered 200 "e1" "{") client).0
    ≡ ((get_node_info api (answered 200 "e1" "{") client).0, fetched none)
get_node_info_again_example = get_node_info_again api 200 200 "e1" "e2" "{" client refl refl refl

first_fails :
    (get_node_info api (answered 200 "e1" "{") client).1
    ≡ failed "decode v2ray params error: bad JSON"
unfolding get_node_info
first_fails = refl
