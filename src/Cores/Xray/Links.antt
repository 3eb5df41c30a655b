-- ===== src/Cores/Xray/Links.antt =====
-- field/xray/app/dispatcher/linkmanager.go: the links of a user.
use v2b_x_liusu.Prelude.{◌≡◌, refl, ℕ, List, [], ◌∷◌, none, arith}
use v2b_x_liusu.Prelude.Eq.{nat_eq, nat_beq_iff}
use v2b_x_liusu.Dict.{Dict, lookup, insert, delete}
use v2b_x_liusu.Dict.Keys.{HasDistinctKeys}

-- The readers of the writers; both are known by the numbers of their objects.
abbrev pub LinkManager : Type 0
LinkManager = Dict ℕ ℕ

-- AddLink(writer, reader)
unfoldable pub add_link : ℕ → ℕ → LinkManager → LinkManager
add_link writer reader m = insert writer reader m

-- RemoveWriter(writer), which Close of the writer calls.
unfoldable pub remove_writer : ℕ → LinkManager → LinkManager
remove_writer writer m = delete writer m

-- The loop of CloseAll over the entries that are left; each is taken from the map before its writer is
-- closed and its reader interrupted. The second part is the links that were.
unfoldable pub close_each : Dict ℕ ℕ → LinkManager → LinkManager × List (ℕ × ℕ)
unfolding remove_writer
close_each [] m = (m, [])
close_each ((writer, reader) ∷ rest) m =
    let (m', closed) = close_each rest (remove_writer writer m) in (m', (writer, reader) ∷ closed)

-- CloseAll()
unfoldable pub close_all : LinkManager → LinkManager × List (ℕ × ℕ)
unfolding close_each
close_all m = close_each m m

delete_absent : (k : ℕ) (m : LinkManager) → lookup k m ≡ none → delete k m ≡ m
unfolding delete lookup
delete_absent k [] h = refl
delete_absent k (e ∷ m) h = ground (arith, h, delete_absent k m)

close_each_self : (m : LinkManager) → HasDistinctKeys m → close_each m m ≡ ([], m)
unfolding close_each remove_writer delete
close_each_self [] d = refl
close_each_self ((w, r) ∷ m) d =
    ground (arith, delete_absent w m d.0, close_each_self m d.1, nat_beq_iff w w)

-- CloseAll closes every link of the manager once, and leaves it without links.
pub close_all_lem : (m : LinkManager) → HasDistinctKeys m → close_all m ≡ ([], m)
unfolding close_all
close_all_lem m d = close_each_self m d
