-- ===== src/Panel/Users/Ends.antt =====
-- mirror/panel/user.go, GetUserList: the loops over a body end, and the ETag stands for a list that was read.
use v2b_x_liusu.Prelude.{
  ◌≡◌, refl, ◌⊎◌, inl, inr, String, Bool, true, false, List, [], Option, none, some, if◌then◌else◌,
  leb,
}
use v2b_x_liusu.Prelude.Eq.{◌==◌, nat_eq}
use v2b_x_liusu.Panel.Types.{UserInfo}
use v2b_x_liusu.Panel.Fetch.{Fetched, fetched, failed, panicked}
use v2b_x_liusu.Panel.Users.{
  Decoder, UsersReply, broken, answered, decode_users, keep_etag, get_user_list,
}
use v2b_x_liusu.Panel.Users.Reads.{Gives, HasUsers, MovesOn, decode_users-Gives}

-- An error, and the old ETag.
abbrev pub Refused : String → String × Fetched (List UserInfo) → Type 0
Refused kept (kept', failed e) = kept' ≡ kept
Refused kept _ = ⊥

-- The result for a body, whether its status says that nothing has changed, and what the body has to be
-- where users are returned.
abbrev pub Taken :
    Bool → (List UserInfo → Type 0) → String → String → String × Fetched (List UserInfo) → Type 0
Taken unchanged Has kept etag (kept', failed e) = kept' ≡ kept
Taken unchanged Has kept etag (kept', panicked) = ⊥
Taken true Has kept etag (kept', fetched us) = (kept' ≡ kept) × (us ≡ [])
Taken false Has kept etag (kept', fetched us) = (kept' ≡ etag) × Has us

-- What a reply makes of the ETag: a status of 304 keeps it, and a list takes the new one.
abbrev pub Follows :
    {D V : Type 0} → Decoder D V → UsersReply D → String → String × Fetched (List UserInfo) → Type 0
Follows dec (broken e) kept r = Refused kept r
Follows dec (answered status text none) kept r = Refused kept r
Follows dec (answered status text (some raw)) kept r =
    Taken (status == 304) (HasUsers dec raw) kept raw.etag r

either-Refused :
    (kept error empty : String) (refused : Bool)
    → (r : String × Fetched (List UserInfo)) × ((if refused
          then some (kept, failed error)
          else some (kept, failed empty))
        ≡ some r)
      × Refused kept r
either-Refused kept error empty true = ((kept, failed error), refl, refl)
either-Refused kept error empty false = ((kept, failed empty), refl, refl)

keep_etag-Taken :
    (request_failed : String → String) (text kept etag : String) (refused unchanged : Bool)
    (x : Option (String ⊎ List UserInfo)) (Has : List UserInfo → Type 0)
    → Gives Has x
    → (r : String × Fetched (List UserInfo)) × ((if refused
          then some (kept, failed (request_failed text))
          else if unchanged
          then some (kept, fetched [])
          else keep_etag kept etag x)
        ≡ some r)
      × Taken unchanged Has kept etag r
keep_etag-Taken request_failed text kept etag true true x Has h =
    ((kept, failed (request_failed text)), refl, refl)
keep_etag-Taken request_failed text kept etag true false x Has h =
    ((kept, failed (request_failed text)), refl, refl)
keep_etag-Taken request_failed text kept etag false true x Has h =
    ((kept, fetched []), refl, (refl, refl))
keep_etag-Taken request_failed text kept etag false false (some (inl e)) Has h =
    ((kept, failed e), refl, refl)
keep_etag-Taken request_failed text kept etag false false (some (inr us)) Has h =
    ((etag, fetched us), refl, (refl, h))
keep_etag-Taken request_failed text kept etag false false none Has h = absurd h

module _ {D V : Type 0} (dec : Decoder D V) (moves : MovesOn dec) where
  -- GetUserList ends for every reply, if the decoder moves on with each token and value that it reads.
  -- An error keeps the old ETag, a status of 304 gives no users and keeps it, and otherwise the users
  -- that are returned are those of the body, each read without an error up to the end of the list, and
  -- the ETag is that of the reply.
  pub get_user_list_lem :
      (request_failed : String → String) (empty kept : String) (reply : UsersReply D)
      → (r : String × Fetched (List UserInfo)) × (get_user_list dec request_failed empty reply kept
          ≡ some r)
        × Follows dec reply kept r
  unfolding get_user_list
  get_user_list_lem request_failed empty kept (broken e) =
      ((kept, failed (request_failed e)), refl, refl)
  get_user_list_lem request_failed empty kept (answered status text none) =
      either-Refused kept (request_failed text) empty (leb 400 status)
  get_user_list_lem request_failed empty kept (answered status text (some raw)) =
      keep_etag-Taken request_failed text kept raw.etag (leb 400 status) (status == 304)
        (decode_users dec raw) (HasUsers dec raw) (decode_users-Gives dec moves raw)
