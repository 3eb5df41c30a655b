-- ===== src/Cores/Sing/Listen/Kinds.antt =====
-- field/sing/node.go: the type of an inbound, against the types that refreshInboundUsers expects.
use mathlib.Core.Path.{subst}
use v2b_x_liusu.Prelude.{
  ◌≡◌, refl, ap, ℕ, String, true, false, not, ◌&&◌, ◌||◌, List, Option, some, if◌then◌else◌,
  Bool-cases, Option-cases, inl, inr, arith, eq_iff,
}
use v2b_x_liusu.Prelude.Int.{to_uint}
use v2b_x_liusu.Prelude.Eq.{◌==◌, string_eq}
use v2b_x_liusu.Panel.Types.{UserInfo}
use v2b_x_liusu.Cores.Nodes.{Node}
use v2b_x_liusu.Cores.Result.{ok, Holds, read-Holds, after-Holds, after-Holds_of, if-Holds}
use v2b_x_liusu.Cores.Sing.{Box}
use v2b_x_liusu.Cores.Sing.Inbounds.{has_branch, refresh_by_type, refresh_inbound_users}
use v2b_x_liusu.Cores.Sing.Options.{MultiplexConfig, SingOptions, NodeOptions, Parsers}
use v2b_x_liusu.Cores.Sing.Transport.{build_v2ray_transport}
use v2b_x_liusu.Cores.Sing.Tls.{TlsOptions, build_inbound_multiplex, inbound_tls}
use v2b_x_liusu.Cores.Sing.Listen.{
  ListenOptions, Options, Inbound, trojan_options, options_by_type, get_inbound_options,
}

-- The type of the inbound for a type of node.
abbrev inbound_type_for : String → String
inbound_type_for type = if has_branch type then type else ""

known_type :
    (type known : String)
    → (type == known) ≡ true
    → has_branch known ≡ true
    → known ≡ inbound_type_for type
known_type type known h k =
    let same = (eq_iff type known).0 h in ground (arith, same, ap has_branch same)

no_mismatch :
    (type kept : String)
    → kept ≡ inbound_type_for type
    → has_branch type && not (kept == type) ≡ false
no_mismatch type kept same = elim (Bool-cases (has_branch type)) [
  | inl e ↦ ground (arith, e, same, eq_iff kept type)
  | inr e ↦ rw (e) refl
]

module _ {A : Type 0} (parsers : Parsers A) (random : ℕ → List ℕ) (random_user : String × String)
    (info : Node) where
  module _ (o : SingOptions) (listen : ListenOptions A) (t : TlsOptions)
      (multiplex : Option MultiplexConfig) where
    abbrev P : String × Options A → Type 0
    P r = r.0 ≡ inbound_type_for info.type

    options_by_type-kind :
        Holds P (options_by_type parsers random random_user info o listen t multiplex)
    unfolding options_by_type has_branch
    options_by_type-kind =
        let known = known_type info.type in
        if-Holds P (info.type == "vmess" || info.type == "vless") _ _
          (λ e. read-Holds P info.origin.v_allss _ (λ n. after-Holds P "" _ _ (λ transport.
            if-Holds P (info.type == "vless") _ _ (λ h. known "vless" h refl)
              (λ h. known "vmess" (ground (arith, e, h)) refl))))
          (λ e0.
            if-Holds P (info.type == "shadowsocks") _ _
              (λ h. read-Holds P info.origin.shadowsocks _ (λ n. known "shadowsocks" h refl))
              (λ e1.
                if-Holds P (info.type == "trojan") _ _
                  (λ h. read-Holds P info.origin.trojan _ (λ n.
                    after-Holds P "" (build_v2ray_transport parsers n.network n.network_settings)
                      (λ transport. ok (
                        "trojan",
                        trojan_options parsers listen t multiplex o.fall_back_configs transport,
                      ))
                      (λ transport. known "trojan" h refl)))
                  (λ e2.
                    if-Holds P (info.type == "tuic") _ _
                      (λ h. read-Holds P info.origin.tuic _ (λ n. known "tuic" h refl))
                      (λ e3.
                        if-Holds P (info.type == "anytls") _ _
                          (λ h. read-Holds P info.origin.any_tls _ (λ n. known "anytls" h refl))
                          (λ e4.
                            if-Holds P (info.type == "hysteria") _ _
                              (λ h.
                                read-Holds P info.origin.hysteria _ (λ n. known "hysteria" h refl))
                              (λ e5.
                                if-Holds P (info.type == "hysteria2") _ _
                                  (λ h.
                                    read-Holds P info.origin.hysteria2 _
                                      (λ n. known "hysteria2" h refl))
                                  (λ e6.
                                    if-Holds P (info.type == "socks") _ _
                                      (λ h. known "socks" h refl)
                                      (λ e7.
                                        if-Holds P (info.type == "http") _ _
                                          (λ h. known "http" h refl)
                                          (λ e8.
                                            if-Holds P (info.type == "naive") _ _
                                              (λ h.
                                                if-Holds P t.enabled _ _ (λ k. known "naive" h refl)
                                                  (λ k. tt))
                                              (λ e9. ground (
                                                arith, e0, e1, e2, e3, e4, e5, e6, e7, e8, e9,
                                              )))))))))))

  module _ (tag : String) (c : NodeOptions) where
    abbrev Q : Inbound A → Type 0
    Q i = (i.tag ≡ tag) × (i.type ≡ inbound_type_for info.type)

    get_inbound_options-kind : Holds Q (get_inbound_options parsers random random_user tag info c)
    unfolding get_inbound_options
    get_inbound_options-kind = elim (Option-cases (parsers.parse_addr c.listen_ip)) [
      | inl e ↦ rw (e, get_inbound_options) tt
      | inr (addr, e) ↦
          let o = c.sing_options in
          let listen : ListenOptions A = record {
            listen = addr;
            listen_port = to_uint 16 info.origin.common.server_port;
            tcp_fast_open = o.tcp_fast_open;
          } in
          let multiplex = build_inbound_multiplex o.multiplex info.origin.common.multiplex in
          rw (e, get_inbound_options)
            (after-Holds Q "" (inbound_tls parsers info c.cert_config) _ (λ t.
              after-Holds_of Q (P o listen t multiplex) ""
                (options_by_type parsers random random_user info o listen t multiplex)
                (λ in'. ok (record { type = in'.0; tag = tag; options = in'.1 }))
                (options_by_type-kind o listen t multiplex) (λ in' same. (refl, same))))
    ]

    -- The inbound that AddNode creates for a node has the tag, and the node's type where it is one of
    -- those that refreshInboundUsers has a branch for. So where the box keeps that type, AddUsers and
    -- DelUsers reach the branch of the node's type, and do not meet an inbound of another type.
    pub get_inbound_options-refresh_inbound_users :
        {W U : Type 0} (box : Box W U) (users : List UserInfo) (w : W) (i : Inbound A)
        → get_inbound_options parsers random random_user tag info c ≡ ok i
        → box.inbound_type tag w ≡ some i.type
        → (i.tag ≡ tag)
          × (i.type ≡ inbound_type_for info.type)
          × (refresh_inbound_users box tag info users w ≡ refresh_by_type box tag info users w)
    unfolding refresh_inbound_users
    get_inbound_options-refresh_inbound_users box users w i made kept =
        let (tagged, same) : Q i = subst (Holds Q) made get_inbound_options-kind in
        (
          tagged,
          same,
          rw (kept, refresh_inbound_users) (rw (no_mismatch info.type i.type same) refl),
        )
