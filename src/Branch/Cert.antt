-- ===== src/Branch/Cert.antt =====
-- branch/cert.go, requestCert. The file system, the ACME client and the generator of self-signed
-- certificates are arguments.
use v2b_x_liusu.Prelude.{String, Bool, ◌&&◌, ◌||◌, Option, none, some, if◌then◌else◌}
use Prim.Native.String.{◌++◌ as str_append}
use v2b_x_liusu.Prelude.Eq.{◌==◌, string_eq}
use v2b_x_liusu.Config.{CertConfig}

-- file.IsExist, NewLego, CreateCert and generateSelfSslCertificate; `none` is nil.
pub record CertTools : Type 0 where
  pub is_exist : String → Bool
  pub new_lego : CertConfig → Option String
  pub create_cert : CertConfig → Option String
  pub generate_self : CertConfig → Option String

-- fmt.Errorf("…: %s", err) of an error, or nil.
unfoldable pub wrap_error : String → Option String → Option String
wrap_error message none = none
wrap_error message (some err) = some (str_append message err)

module _ (tools : CertTools) where
  unfoldable pub obtain : CertConfig → Option String
  unfolding wrap_error
  obtain cert = elim (tools.new_lego cert) [
    | some err ↦ some (str_append "create lego object error: " err)
    | none ↦ wrap_error "create lego cert error: " (tools.create_cert cert)
  ]

  -- Whether one of the paths is not set, and whether both files are there.
  unfoldable pub lacks_path : CertConfig → Bool
  lacks_path cert = cert.cert_file == "" || cert.key_file == ""

  unfoldable pub has_files : CertConfig → Bool
  has_files cert = tools.is_exist cert.cert_file && tools.is_exist cert.key_file

  -- requestCert()
  unfoldable pub request_cert : CertConfig → Option String
  unfolding obtain lacks_path has_files wrap_error
  request_cert cert =
      if cert.cert_mode == "none" || cert.cert_mode == ""
      then none
      else if cert.cert_mode == "file"
      then (if lacks_path cert then some "cert file path or key file path not exist" else none)
      else if cert.cert_mode == "dns" || cert.cert_mode == "http"
      then (if lacks_path cert
          then some "cert file path or key file path not exist"
          else if has_files cert
          then none
          else obtain cert)
      else if cert.cert_mode == "self"
      then (if lacks_path cert
          then some "cert file path or key file path not exist"
          else if has_files cert
          then none
          else wrap_error "generate self cert error: " (tools.generate_self cert))
      else some (str_append "unsupported certmode: " cert.cert_mode)
