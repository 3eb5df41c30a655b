-- ===== src/Cores/Traffic.antt =====
-- The body of GetUserTrafficSlice that field/sing/user.go, field/hy2/user.go and field/xray/user.go
-- share: the loop over the counters of a node. `uid_of` reads the core's map of user ids, 0 for a user
-- that is not in it. The loop writes only at the entry it visits, so that it runs over the entries
-- there are at the start.
pub mod Slice
use v2b_x_liusu.Prelude.{
  ℕ, String, Bool, true, false, List, [], ◌∷◌, ◌++◌, Option, none, some, if◌then◌else◌,
}
use v2b_x_liusu.Prelude.Int.{ℤ, pos, ltb_ℤ, add64}
use v2b_x_liusu.Prelude.Eq.{◌==◌, int_eq}
use v2b_x_liusu.Dict.{Dict}
use v2b_x_liusu.Panel.Types.{UserTraffic}
use v2b_x_liusu.Counter.{
  TrafficStorage, TrafficCounter, empty_storage, deref, write, delete_counter,
}

-- up + down > the least traffic to report
unfoldable pub is_due : ℤ → TrafficStorage → Bool
unfolding add64
is_due least s = ltb_ℤ least (add64 s.up_counter s.down_counter)

module _ (least : ℤ) (uid_of : String → ℤ) (reset : Bool) where
  -- The function that Range calls, on one entry.
  unfoldable pub visit :
      String → ℕ → TrafficCounter × List UserTraffic → TrafficCounter × List UserTraffic
  visit key p (c, slice) =
      let s = deref c p in
      let c' = if reset then write c p empty_storage else c in
      let traffic : UserTraffic = record {
        uid = uid_of key;
        upload = s.up_counter;
        download = s.down_counter;
      } in
      if is_due least s
      then (if uid_of key == pos 0
          then (delete_counter c' key, slice)
          else (c', slice ++ traffic ∷ []))
      else (c, slice)

  unfoldable pub visit_all :
      Dict String ℕ → TrafficCounter × List UserTraffic → TrafficCounter × List UserTraffic
  unfolding visit
  visit_all [] r = r
  visit_all ((key, p) ∷ es) r = visit_all es (visit key p r)

  -- The counters after the call, and the slice.
  unfoldable pub traffic_slice : TrafficCounter → TrafficCounter × List UserTraffic
  unfolding visit_all
  traffic_slice c = visit_all c.counters (c, [])
