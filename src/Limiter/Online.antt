-- ===== src/Limiter/Online.antt =====
-- veil/limiter.go, GetOnlineDevice: the report of the devices that were online.
pub mod Report
use mathlib.Core.List.{append-nil, append_assoc}
use v2b_x_liusu.Prelude.{
  ◌≡◌, refl, String, Bool, true, false, not, ◌||◌, List, [], ◌∷◌, ◌++◌, Option, none, some, arith,
  eq_iff, inl, inr, if◌then◌else◌, is_some, Option-cases, ap, ◌∙◌, sym,
}
use v2b_x_liusu.Prelude.Int.{ℤ}
use v2b_x_liusu.Prelude.Eq.{◌==◌, string_eq}
use v2b_x_liusu.Dict.{Dict, lookup, insert, delete, lookup-insert, lookup-delete}
use v2b_x_liusu.Text.{trim_prefix}
use v2b_x_liusu.Panel.Types.{OnlineUser}
use v2b_x_liusu.Limiter.{Limiter, UserLimitInfo}
use v2b_x_liusu.Limiter.Devices.Admission.{online}
use v2b_x_liusu.Limiter.Check.{check_limit}
use v2b_x_liusu.Limiter.Check.Rejects.{check_limit_rejects}

-- The inner `Range`: each address is remembered and reported.
unfoldable pub range_ips :
    Dict String ℤ → Dict String ℤ → List OnlineUser → Dict String ℤ × List OnlineUser
range_ips [] old out = (old, out)
range_ips ((ip, uid) ∷ ips) old out =
    range_ips ips (insert ip uid old) (out ++ record { uid = uid; ip = ip } ∷ [])

module _ {B R : Type 0} where
  -- The outer `Range`: each user's map is taken out once its addresses are reported.
  unfoldable pub range_users :
      Dict String (Dict String ℤ) → Limiter B R → List OnlineUser → Limiter B R × List OnlineUser
  unfolding range_ips
  range_users [] l out = (l, out)
  range_users ((taguuid, ips) ∷ rest) l out =
      let (old, out') = range_ips ips l.old_user_online out in
      range_users rest
        (record l { old_user_online = old; user_online_ip = delete taguuid l.user_online_ip }) out'

  -- GetOnlineDevice(); its error is always nil.
  unfoldable pub get_online_device : Limiter B R → Limiter B R × List OnlineUser
  unfolding range_users
  get_online_device l = range_users l.user_online_ip (record l { old_user_online = [] }) []

-- The devices of one user's map, and of all.
abbrev pub devices_of : Dict String ℤ → List OnlineUser
devices_of [] = []
devices_of ((ip, uid) ∷ ips) = record { uid = uid; ip = ip } ∷ devices_of ips

abbrev pub all_devices : Dict String (Dict String ℤ) → List OnlineUser
all_devices [] = []
all_devices ((taguuid, ips) ∷ rest) = devices_of ips ++ all_devices rest

-- The user of the last device of a list with the given address.
unfoldable pub last_uid : String → Option ℤ → List OnlineUser → Option ℤ
last_uid ip before [] = before
last_uid ip before (d ∷ ds) = last_uid ip (if d.ip == ip then some d.uid else before) ds

last_uid-append :
    (ip : String) (before : Option ℤ) (xs ys : List OnlineUser)
    → last_uid ip before (xs ++ ys) ≡ last_uid ip (last_uid ip before xs) ys
unfolding last_uid
last_uid-append ip before [] ys = refl
last_uid-append ip before (x ∷ xs) ys =
    last_uid-append ip (if x.ip == ip then some x.uid else before) xs ys

range_ips_out :
    (ips old : Dict String ℤ) (out : List OnlineUser)
    → (range_ips ips old out).1 ≡ out ++ devices_of ips
unfolding range_ips
range_ips_out [] old out = simp append-nil
range_ips_out ((ip, uid) ∷ ips) old out =
    range_ips_out ips (insert ip uid old) (out ++ record { uid = uid; ip = ip } ∷ [])
    ∙ append_assoc out (record { uid = uid; ip = ip } ∷ []) (devices_of ips)

range_ips_old :
    (ips old : Dict String ℤ) (out : List OnlineUser) (j : String)
    → lookup j (range_ips ips old out).0 ≡ last_uid j (lookup j old) (devices_of ips)
unfolding range_ips last_uid
range_ips_old [] old out j = refl
range_ips_old ((ip, uid) ∷ ips) old out j =
    range_ips_old ips (insert ip uid old) (out ++ record { uid = uid; ip = ip } ∷ []) j
    ∙ ap (λ b. last_uid j b (devices_of ips)) (lookup-insert ip j uid old)
