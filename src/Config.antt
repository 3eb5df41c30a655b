-- ===== src/Config.antt =====
-- paper/limit.go, cert.go, core.go and node.go: the options of a node that the program reads.
use v2b_x_liusu.Prelude.{String, Bool, Option, none, some, if◌then◌else◌}
use v2b_x_liusu.Prelude.Int.{ℤ}
use v2b_x_liusu.Prelude.Eq.{◌==◌, string_eq}

pub record DynamicSpeedLimitConfig : Type 0 where
  pub periodic : ℤ
  pub traffic : ℤ
  pub speed_limit : ℤ
  pub expire_time : ℤ

-- The fields of LimitConfig that the program reads. The pointer to the dynamic limits is kept as a
-- value: it is read only where `enable_dynamic_speed_limit` is set.
pub record LimitConfig : Type 0 where
  pub speed_limit : ℤ
  pub enable_dynamic_speed_limit : Bool
  pub dynamic_speed_limit_config : DynamicSpeedLimitConfig

pub record CertConfig : Type 0 where
  pub cert_mode : String
  pub cert_file : String
  pub key_file : String
  pub reject_unknown_sni : Bool

-- The options of a node. `X` holds the fields that only the cores read.
pub record Options (X : Type 0) : Type 0 where
  pub name : String
  pub core : String
  pub core_name : String
  pub device_online_min_traffic : ℤ
  pub limit_config : LimitConfig
  pub raw_options : Option String
  pub cert_config : CertConfig
  pub rest : X

pub record CoreConfig : Type 0 where
  pub type : String
  pub name : String

-- What encoding/json does with the fields: `decode` writes the fields of the text, with an error
-- where it is not valid; `decode_xray` and `decode_sing` replace the options of one core.
pub record Json (X : Type 0) : Type 0 where
  pub decode : String → Options X → Options X × Option String
  pub decode_xray : String → X → X × Option String
  pub decode_sing : String → X → X × Option String
  pub with_core : String → String → Option String

module _ {X : Type 0} (json : Json X) where
  open json use {decode, decode_xray, decode_sing}

  -- The switch of UnmarshalJSON, on the options that were decoded.
  unfoldable pub finish_options : String → Options X → Options X × Option String
  finish_options text o =
      if o.core == "xray"
      then (let (rest, err) = decode_xray text o.rest in (record o { rest = rest }, err))
      else if o.core == "sing"
      then (let (rest, err) = decode_sing text o.rest in (record o { rest = rest }, err))
      else if o.core == "hysteria2"
      then (record o { raw_options = some text }, none)
      else (record o { core = ""; raw_options = some text }, none)

  -- The early return on an error.
  unfoldable pub unless_failed : String → Options X × Option String → Options X × Option String
  unless_failed text (o, some err) = (o, some err)
  unless_failed text (o, none) = finish_options text o

  -- Options.UnmarshalJSON(data)
  unfoldable pub unmarshal_json : String → Options X → Options X × Option String
  unfolding unless_failed finish_options
  unmarshal_json text o = unless_failed text (decode text o)
