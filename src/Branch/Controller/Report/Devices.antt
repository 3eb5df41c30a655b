-- ===== src/Branch/Controller/Report/Devices.antt =====
-- branch/user.go, reportUserTrafficTask: the addresses that are reported for a user.
use v2b_x_liusu.Prelude.{String, Bool, false, ◌&&◌, ◌||◌, List, [], ◌∷◌, none, some, if◌then◌else◌}
use v2b_x_liusu.Prelude.Int.{ℤ, pos, ltb_ℤ, add64, mul64}
use v2b_x_liusu.Prelude.Eq.{◌==◌, int_eq}
use v2b_x_liusu.Dict.{Dict}
use v2b_x_liusu.Panel.Types.{UserTraffic, OnlineUser}
use v2b_x_liusu.Branch.Controller.Report.{Reports, known_ips}

-- The addresses of the user's devices, in their order.
unfoldable pub ips_of : ℤ → List OnlineUser → List String
ips_of uid [] = []
ips_of uid (d ∷ ds) = let rest = ips_of uid ds in if d.uid == uid then d.ip ∷ rest else rest

-- Some record of the user is below the minimum, which counts thousands of bytes.
unfoldable pub is_idle : ℤ → ℤ → List UserTraffic → Bool
is_idle least uid [] = false
is_idle least uid (t ∷ ts) =
    ((t.uid == uid) && ltb_ℤ (add64 t.upload t.download) (mul64 least (pos 1000)))
    || is_idle least uid ts

-- The addresses that a round reports for the user.
abbrev pub reported_ips : Reports → ℤ → List String
reported_ips r uid = elim r.online [ none ↦ [] | some m ↦ known_ips uid m ]
