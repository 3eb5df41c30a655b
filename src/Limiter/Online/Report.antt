-- ===== src/Limiter/Online/Report.antt =====
-- What a report of the devices leaves behind, and what it means for the next period.
use mathlib.Core.List.{append-nil, append_assoc}
use v2b_x_liusu.Prelude.{
  ◌≡◌, refl, String, true, List, [], ◌∷◌, ◌++◌, Option, none, some, arith, inl, inr, if◌then◌else◌,
  is_some, Option-cases, Bool-cases, some_inj, ap, ◌∙◌, sym,
}
use v2b_x_liusu.Prelude.Int.{ℤ}
use v2b_x_liusu.Prelude.Eq.{◌==◌, string_eq}
use v2b_x_liusu.Dict.{Dict, lookup, delete, lookup-delete}
use v2b_x_liusu.Panel.Types.{OnlineUser}
use v2b_x_liusu.Limiter.{Limiter}
use v2b_x_liusu.Limiter.Devices.Admission.{online}
use v2b_x_liusu.Limiter.Online.{
  range_ips, range_users, get_online_device, devices_of, all_devices, last_uid, last_uid-append,
  range_ips_out, range_ips_old,
}

module _ {B R : Type 0} where
  range_users_out :
      (m : Dict String (Dict String ℤ)) (l : Limiter B R) (out : List OnlineUser)
      → (range_users m l out).1 ≡ out ++ all_devices m
  unfolding range_users
  range_users_out [] l out = simp append-nil
  range_users_out ((t, ips) ∷ rest) l out =
      range_users_out rest _ _
      ∙ ap (λ xs. xs ++ all_devices rest) (range_ips_out ips l.old_user_online out)
      ∙ append_assoc out (devices_of ips) (all_devices rest)

  range_users_old :
      (m : Dict String (Dict String ℤ)) (l : Limiter B R) (out : List OnlineUser) (j : String)
      → lookup j (range_users m l out).0.old_user_online
        ≡ last_uid j (lookup j l.old_user_online) (all_devices m)
  unfolding range_users last_uid
  range_users_old [] l out j = refl
  range_users_old ((t, ips) ∷ rest) l out j =
      range_users_old rest _ _ j
      ∙ ap (λ b. last_uid j b (all_devices rest)) (range_ips_old ips l.old_user_online out j)
      ∙ sym (last_uid-append j (lookup j l.old_user_online) (devices_of ips) (all_devices rest))

  range_users_online :
      (m : Dict String (Dict String ℤ)) (l : Limiter B R) (out : List OnlineUser) (t : String)
      → lookup t (range_users m l out).0.user_online_ip
        ≡ (if is_some (lookup t m) then none else lookup t l.user_online_ip)
  unfolding range_users lookup
  range_users_online [] l out t = refl
  range_users_online ((k, ips) ∷ rest) l out t = ground (
    arith,
    range_users_online rest
        (record l {
          old_user_online = (range_ips ips l.old_user_online out).0;
          user_online_ip = delete k l.user_online_ip;
        })
        (range_ips ips l.old_user_online out).1 t,
    lookup-delete k t l.user_online_ip,
  )

  -- GetOnlineDevice reports the devices of all users, in the order of the maps; afterwards no user
  -- is online, and an address is remembered exactly if it was reported, with the user of the last
  -- report of it.
  pub get_online_device_lem :
      (l : Limiter B R) (taguuid ip : String)
      → let r = get_online_device l in
        (r.1 ≡ all_devices l.user_online_ip)
        × (lookup taguuid r.0.user_online_ip ≡ none)
        × (lookup ip r.0.old_user_online ≡ last_uid ip none r.1)
  unfolding get_online_device lookup
  get_online_device_lem l taguuid ip =
      let start : Limiter B R = record l { old_user_online = [] } in
      let reported = range_users_out l.user_online_ip start [] in
      (
        reported,
        ground (arith, range_users_online l.user_online_ip start [] taguuid),
        range_users_old l.user_online_ip start [] ip ∙ ap (last_uid ip none) (sym reported),
      )

module _ {B R : Type 0} where
  range_users_info :
      (m : Dict String (Dict String ℤ)) (l : Limiter B R) (out : List OnlineUser)
      → (range_users m l out).0.user_limit_info ≡ l.user_limit_info
  unfolding range_users
  range_users_info [] l out = refl
  range_users_info ((t, ips) ∷ rest) l out = range_users_info rest _ _

  get_online_device_info :
      (l : Limiter B R) → (get_online_device l).0.user_limit_info ≡ l.user_limit_info
  unfolding get_online_device
  get_online_device_info l = range_users_info l.user_online_ip _ []

last_uid-is_some :
    (ip : String) (before : Option ℤ) (ds : List OnlineUser)
    → is_some before ≡ true
    → is_some (last_uid ip before ds) ≡ true
unfolding last_uid
last_uid-is_some ip before [] h = h
last_uid-is_some ip before (d ∷ ds) h =
    last_uid-is_some ip (if d.ip == ip then some d.uid else before) ds (ground arith)

last_uid_of_lookup :
    (ip : String) (before : Option ℤ) (ips : Dict String ℤ)
    → is_some (lookup ip ips) ≡ true
    → is_some (last_uid ip before (devices_of ips)) ≡ true
unfolding last_uid lookup
last_uid_of_lookup ip before [] h = ground arith
last_uid_of_lookup ip before ((j, v) ∷ ips) h =
    ground (arith, last_uid-is_some ip (some v) (devices_of ips), last_uid_of_lookup ip before ips)

last_uid_of_online :
    (taguuid ip : String) (m : Dict String (Dict String ℤ)) (before : Option ℤ)
    → (ips : Dict String ℤ) → lookup taguuid m ≡ some ips
    → is_some (lookup ip ips) ≡ true
    → is_some (last_uid ip before (all_devices m)) ≡ true
unfolding lookup
last_uid_of_online taguuid ip [] before ips e h = ground arith
last_uid_of_online taguuid ip ((t, x) ∷ m) before ips e h =
    rw (last_uid-append ip before (devices_of x) (all_devices m))
      (elim (Bool-cases (t == taguuid)) [
        | inl q ↦
            last_uid-is_some ip _ (all_devices m)
              (last_uid_of_lookup ip before x (rw (some_inj (rw q at e)) h))
        | inr q ↦
            last_uid_of_online taguuid ip m (last_uid ip before (devices_of x)) ips (rw q at e) h
      ])

-- The address of a device that is reported is remembered.
pub get_online_device-remembers :
    {B R : Type 0} (l : Limiter B R) (taguuid ip : String)
    → is_some (online l taguuid ip) ≡ true
    → is_some (lookup ip (get_online_device l).0.old_user_online) ≡ true
get_online_device-remembers l taguuid ip h = elim (Option-cases (lookup taguuid l.user_online_ip)) [
  | inl n ↦ ground arith
  | inr (ips, q) ↦ ground (
    arith,
    last_uid_of_online taguuid ip l.user_online_ip none ips q,
    get_online_device_lem l taguuid ip,
  )
]
