-- ===== src/Agwpe/Builders.antt =====
-- agwpe/frame.go and agwpe/builders.go: messages made and read by kind.
use go_ax.Base.{
  Bytes, List, Option, [], ap, arith, drop, if◌then◌else◌, length, ltb, none, not, some, take, ℕ,
  ◌%◌, ◌++◌, ◌==◌, ◌^◌, ◌∙◌, ◌∷◌, ◌≡◌,
}
use go_ax.Agwpe.{
  AgwFrame, AgwResult, callsign_len, done, failed, get_uint32, message_too_short, nil_message,
  put_uint32, set_callsign, wrong_kind,
}

-- `Frame{}`
abbrev pub blank : AgwFrame
blank = record { port = 0; kind = 0; pid = 0; call_from = []; call_to = []; payload = []; user = 0 }

abbrev pub kind_version : ℕ
kind_version = 82

abbrev pub kind_outstanding_resp : ℕ
kind_outstanding_resp = 121

abbrev pub kind_login : ℕ
kind_login = 80

abbrev pub kind_connect_via : ℕ
kind_connect_via = 118

-- `BuildVersionResp`
abbrev pub build_version_resp : ℕ → ℕ → AgwFrame
build_version_resp major minor = record blank {
  kind = kind_version;
  payload = put_uint32 major ++ put_uint32 minor;
}

-- `BuildOutstandingPort`
abbrev pub build_outstanding_port : ℕ → ℕ → AgwFrame
build_outstanding_port port count = record blank {
  port = port % 256;
  kind = kind_outstanding_resp;
  payload = put_uint32 count;
}

-- `BuildLogin`: two fields of 255 bytes.
abbrev pub build_login : Bytes → Bytes → AgwFrame
build_login username password = record blank {
  kind = kind_login;
  payload = set_callsign 255 username ++ set_callsign 255 password;
}

-- The fields of `BuildConnectViaReq`.
unfoldable pub text_fields : List Bytes → Bytes
text_fields [] = []
text_fields (d ∷ ds) = set_callsign callsign_len d ++ text_fields ds

abbrev pub build_connect_via_req : ℕ → Bytes → Bytes → List Bytes → AgwFrame
build_connect_via_req port from to digis = record blank {
  port = port;
  kind = kind_connect_via;
  call_from = from;
  call_to = to;
  payload = length digis % 256 ∷ text_fields digis;
}

-- `ParseVersionResp`
unfoldable pub parse_version_resp : Option AgwFrame → AgwResult (ℕ × ℕ)
parse_version_resp none = failed nil_message
parse_version_resp (some f) =
    if not (f.kind == kind_version)
    then failed wrong_kind
    else if ltb (length f.payload) 8
    then failed message_too_short
    else done (get_uint32 (take 4 f.payload), get_uint32 (take 4 (drop 4 f.payload)))

-- `ParseOutstandingResp`
unfoldable pub parse_outstanding_resp : Option AgwFrame → AgwResult ℕ
parse_outstanding_resp none = failed nil_message
parse_outstanding_resp (some f) =
    if not (f.kind == kind_outstanding_resp)
    then failed wrong_kind
    else if ltb (length f.payload) 4
    then failed message_too_short
    else done (get_uint32 (take 4 f.payload))

get-put_uint32-mod : (n : ℕ) → get_uint32 (put_uint32 n) ≡ n % 4294967296
get-put_uint32-mod n = omega arith

-- The two numbers of a version response are read as they were written, modulo 2^32.
pub parse_version_resp-build_version_resp :
    (major minor : ℕ)
    → parse_version_resp (some (build_version_resp major minor))
      ≡ done (major % 2 ^ 32, minor % 2 ^ 32)
unfolding parse_version_resp
parse_version_resp-build_version_resp major minor =
    ap (λ a. done (a, get_uint32 (put_uint32 minor))) (get-put_uint32-mod major)
    ∙ ap (λ b. done (major % 4294967296, b)) (get-put_uint32-mod minor)

-- The count of an outstanding-frames response is read as it was written, modulo 2^32.
pub parse_outstanding_resp-build_outstanding_port :
    (port count : ℕ)
    → parse_outstanding_resp (some (build_outstanding_port port count)) ≡ done (count % 2 ^ 32)
unfolding parse_outstanding_resp
parse_outstanding_resp-build_outstanding_port port count = ap done (get-put_uint32-mod count)
