-- ===== src/Branch/Controller/Report.antt =====
-- branch/user.go, reportUserTrafficTask: what one round reports to the panel.
pub mod Devices
use mathlib.Core.Path.{subst}
use mathlib.Core.Bool.{true≢false}
use v2b_x_liusu.Prelude.{
  ◌≡◌, refl, String, Bool, true, false, List, [], ◌∷◌, ◌++◌, Option, none, some, ◌↔◌, In, here,
  there, inl, inr, ◌⊎◌, sym, if◌then◌else◌,
}
use v2b_x_liusu.Prelude.Int.{ℤ, pos, ltb_ℤ, add64, mul64}
use v2b_x_liusu.Prelude.Eq.{◌==◌, int_eq, string_eq, nat_eq}
use v2b_x_liusu.Dict.{Dict, lookup, insert}
use v2b_x_liusu.Panel.Types.{UserTraffic, OnlineUser}
use v2b_x_liusu.Limiter.Online.{get_online_device}
use v2b_x_liusu.Limiter.Registry.{deref, write}
use v2b_x_liusu.Branch.Flow.{Step, next, panicked}
use v2b_x_liusu.Branch.Controller.{Env, World}

-- The requests of one round; `none` where none is made.
pub record Reports : Type 0 where
  pub traffic : Option (List UserTraffic)
  pub online : Option (Dict ℤ (List String))

-- total < int64(DeviceOnlineMinTraffic * 1000)
unfoldable pub is_low : ℤ → UserTraffic → Bool
is_low least t = ltb_ℤ (add64 t.upload t.download) (mul64 least (pos 1000))

-- Whether nocountUID holds the user.
unfoldable pub nocount : ℤ → List UserTraffic → ℤ → Bool
nocount least [] uid = false
nocount least (t ∷ ts) uid =
    let rest = nocount least ts uid in
    if is_low least t then (if t.uid == uid then true else rest) else rest

-- The devices that are reported.
unfoldable pub counted : ℤ → List UserTraffic → List OnlineUser → List OnlineUser
counted least traffic [] = []
counted least traffic (d ∷ ds) =
    let rest = counted least traffic ds in if nocount least traffic d.uid then rest else d ∷ rest

-- data[uid], nil where there is no entry
unfoldable pub known_ips : ℤ → Dict ℤ (List String) → List String
known_ips uid m = elim (lookup uid m) [ none ↦ [] | some ips ↦ ips ]

-- data[onlineuser.UID] = append(data[onlineuser.UID], onlineuser.IP)
unfoldable pub group_by_user : List OnlineUser → Dict ℤ (List String) → Dict ℤ (List String)
unfolding known_ips
group_by_user [] m = m
group_by_user (d ∷ ds) m = group_by_user ds (insert d.uid (known_ips d.uid m ++ (d.ip ∷ [])) m)

-- The two reports, from the traffic of the core and the devices of the limiter.
unfoldable pub make_reports : ℤ → List UserTraffic → List OnlineUser → Reports
unfolding group_by_user counted
make_reports least traffic devices = record {
  traffic = elim traffic [ [] ↦ none | t ∷ ts ↦ some (t ∷ ts) ];
  online = elim devices [
    | [] ↦ none
    | d ∷ ds ↦ some (group_by_user (counted least traffic (d ∷ ds)) [])
  ];
}

-- reportUserTrafficTask(); the error of GetUserTrafficSlice is dropped.
unfoldable pub report_user_traffic_task :
    {X N P S B R : Type 0} → Env X N P S R → Step (World X N P S B R) Reports
report_user_traffic_task env w =
    let (s, traffic, err) = env.server.get_user_traffic_slice w.controller.tag true w.server in
    elim (deref w.controller.limiter w.registry) [
      | none ↦ (panicked, record w { server = s })
      | some l ↦
          (let (l', devices) = get_online_device l in
            (
              next (make_reports w.controller.options.device_online_min_traffic traffic devices),
              record w { server = s; registry = write w.controller.limiter l' w.registry },
            ))
    ]

abbrev pick : Bool → OnlineUser → List OnlineUser → List OnlineUser
pick b d rest = if b then rest else d ∷ rest

pick-In :
    (b : Bool) (x d : OnlineUser) (xs : List OnlineUser)
    → In d (pick b x xs)
    → ((d ≡ x) × (b ≡ false)) ⊎ In d xs
pick-In true x d xs h = inr h
pick-In false x d xs here = inl (refl, refl)
pick-In false x d xs (there h) = inr h

pick_rest : (b : Bool) (x d : OnlineUser) (xs : List OnlineUser) → In d xs → In d (pick b x xs)
pick_rest true x d xs h = h
pick_rest false x d xs h = there h

pick_head : (b : Bool) (x : OnlineUser) (xs : List OnlineUser) → b ≡ false → In x (pick b x xs)
pick_head true x xs h = elim (true≢false h) [ ]
pick_head false x xs h = here

module _ (least : ℤ) (traffic : List UserTraffic) (d : OnlineUser) where
  counted-In :
      (ds : List OnlineUser)
      → In d (counted least traffic ds)
      → In d ds × (nocount least traffic d.uid ≡ false)
  unfolding counted
  counted-In [] h = elim h [ ]
  counted-In (x ∷ xs) h =
      elim (pick-In (nocount least traffic x.uid) x d (counted least traffic xs) h) [
        | inl p ↦ (
          subst (λ y. In y (x ∷ xs)) (sym p.0) here,
          subst (λ y. nocount least traffic y.uid ≡ false) (sym p.0) p.1,
        )
        | inr i ↦ (there (counted-In xs i).0, (counted-In xs i).1)
      ]

  In-counted :
      (ds : List OnlineUser)
      → In d ds
      → nocount least traffic d.uid ≡ false
      → In d (counted least traffic ds)
  unfolding counted
  In-counted _ (here {xs = xs}) high =
      pick_head (nocount least traffic d.uid) d (counted least traffic xs) high
  In-counted _ (there {x = x} {xs = xs} h) high =
      pick_rest (nocount least traffic x.uid) x d (counted least traffic xs) (In-counted xs h high)

-- A device is among the reported ones exactly if it is online and the traffic of its user is not
-- recorded below the minimum in the round.
pub counted_iff :
    (least : ℤ) (traffic : List UserTraffic) (devices : List OnlineUser) (d : OnlineUser)
    → In d (counted least traffic devices) ↔ (In d devices × (nocount least traffic d.uid ≡ false))
counted_iff least traffic devices d =
    (counted-In least traffic d devices, λ h. In-counted least traffic d devices h.0 h.1)
