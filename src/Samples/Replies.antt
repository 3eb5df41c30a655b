-- ===== src/Samples/Replies.antt =====
-- mirror/panel/user.go: a list of two users, over a decoder whose texts are lists of numbers.
use v2b_x_liusu.Prelude.{
  ◌≡◌, refl, ◌<◌, ◌⊎◌, inl, inr, ℕ, String, Bool, false, List, [], ◌∷◌, some, length, if◌then◌else◌,
  arith,
}
use v2b_x_liusu.Prelude.Int.{pos}
use v2b_x_liusu.Prelude.Eq.{◌==◌, nat_eq}
use v2b_x_liusu.Text.{contains, cut_prefix}
use v2b_x_liusu.Panel.Types.{UserInfo}
use v2b_x_liusu.Panel.Fetch.{Fetched, fetched}
use v2b_x_liusu.Panel.Users.{
  Token, users_name, opens_array, other, Decoder, UsersReply, answered, get_user_list, decode_users,
  decode_json, find_users, read_array, read_users,
}
use v2b_x_liusu.Panel.Users.Ends.{Follows, get_user_list_lem}
use v2b_x_liusu.Panel.Users.Reads.{MovesOn}

abbrev user : ℕ → UserInfo
user n = record { id = pos n; uuid = "u"; speed_limit = pos 0; device_limit = pos 0 }

-- 1 is the name, 2 and 3 begin and end the array.
abbrev token : ℕ → Token
token n = if n == 1 then users_name else if n == 2 then opens_array else other

abbrev next : {A : Type 0} → (ℕ → A) → List ℕ → (String ⊎ A) × List ℕ
next f [] = (inl "EOF", [])
next f (n ∷ rest) = (inr (f n), rest)

abbrev ends : List ℕ → Bool
ends [] = false
ends (n ∷ rest) = n == 3

abbrev decoder : Decoder (List ℕ) ℕ
decoder = record {
  read_token = next token;
  peeks_end = ends;
  read_value = next (λ n. n);
  unmarshal = λ n. inr (user n);
  left = length;
}

next_moves :
    {A : Type 0} (f : ℕ → A) (d : List ℕ) (a : A)
    → (next f d).0 ≡ inr a
    → length (next f d).1 < length d
next_moves f [] a h = absurd (cc h)
next_moves f (n ∷ rest) a h = omega arith

decoder-MovesOn : MovesOn decoder
decoder-MovesOn = (next_moves token, next_moves (λ n. n))

abbrev two_listed : UsersReply (List ℕ)
two_listed = answered 200 "" (
    some (record {
      etag = "e2";
      content_type = "application/json";
      msgpack = inl "EOF";
      body = 5 ∷ 1 ∷ 2 ∷ 7 ∷ 8 ∷ 3 ∷ [];
    }))

both_read :
    get_user_list decoder (λ e. e) "empty raw response" two_listed "e1"
    ≡ some ("e2", fetched (user 7 ∷ user 8 ∷ []))
unfolding get_user_list decode_users decode_json find_users read_array read_users contains
    cut_prefix
both_read = refl

get_user_list_lem_example :
    (r : String × Fetched (List UserInfo)) × (get_user_list decoder
        (λ e. e)
        "empty raw response"
        two_listed
        "e1"
      ≡ some r)
    × Follows decoder two_listed "e1" r
get_user_list_lem_example =
    get_user_list_lem decoder decoder-MovesOn (λ e. e) "empty raw response" "e1" two_listed
